-- ===== src/Main/Interleavings.antt =====
-- The two threads of control of src/main.c: the loop of libpcap, which calls `process_packet`, and the
-- handler of the signals, which may run between any two of its steps at which the signals are not
-- blocked. `process_packet` is cut where it calls another function; a signal that is blocked stays
-- pending. The handler is one step: only SIGINT and SIGTERM can interrupt that of SIGALRM, and their
-- handler ends the program. A step of `process_packet` that fails ends the program too.
pub mod Atomic
pub mod Progress
pub mod Complete
mod Tests
use bismark_passive.Prelude.{
  ℕ, ◌+◌, ◌≡◌, Bool, true, false, not, ◌&&◌, ◌||◌, Option, none, some, List, [], ◌++◌,
}
use bismark_passive.Prelude.Int.{ℤ}
use bismark_passive.Prelude.Printf.{◌>>=◌, Printf, Call}
use bismark_passive.Main.{Build, Libraries, Daemon}
use bismark_passive.Main.Frames.{Extracted, get_flow_entry_for_packet}
use bismark_passive.Main.Packets.{PacketHeader, flow_of_packet, store_packet, parse_dns, parse_http}
use bismark_passive.Main.Packets.Stages.{Readable}
use bismark_passive.Main.Signals.{
  Signal, sigint, sigterm, sigalrm, Round, Written, returned, handle_signals, next_alarm,
}
use bismark_passive.Main.Signals.Alarms.{filenames}
use bismark_passive.Main.Start.{Inputs, start}

-- How far `process_packet` has come, with its local variables: not called, called, behind the block,
-- the extraction, the flow table, the packet series, the DNS parser and the parser of requests.
pub data Stage : Type 0 where
  waiting : Stage
  entered blocked : PacketHeader → List ℕ → Stage
  extracted : PacketHeader → List ℕ → Extracted → Stage
  classified : PacketHeader → List ℕ → Extracted → ℕ → Stage
  stored : PacketHeader → List ℕ → Extracted → ℕ → ℤ → Stage
  dns_parsed : PacketHeader → List ℕ → Extracted → ℕ → Stage
  http_parsed : PacketHeader → List ℕ → Stage

-- A set of signals, as the signal mask and the pending signals are.
abbrev pub Signals : Type 0
Signals = Signal → Bool

pub same_signal : Signal → Signal → Bool
same_signal sigint sigint = true
same_signal sigterm sigterm = true
same_signal sigalrm sigalrm = true
same_signal _ _ = false

pub record Process : Type 0 where
  pub daemon : Daemon
  pub stage : Stage
  pub mask : Signals
  pub pending : Signals

-- `block_set`, as `initialize_signal_handler` fills it
pub block_set : Signals
block_set sigint = true
block_set sigterm = true
block_set sigalrm = true

-- `sigprocmask` with SIG_BLOCK and with SIG_UNBLOCK; where it fails, the program exits.
pub sigprocmask_block : Bool → Process → Option Process
unfolding block_set
sigprocmask_block true p = some (record p { mask = λ s. p.mask s || block_set s })
sigprocmask_block false p = none

pub sigprocmask_unblock : Bool → Process → Option Process
unfolding block_set
sigprocmask_unblock true p = some (record p { mask = λ s. p.mask s && not (block_set s) })
sigprocmask_unblock false p = none

-- A signal that is raised again while it is pending is pending once.
abbrev pub raise : Signal → Process → Process
raise s p = record p { pending = λ t. p.pending t || same_signal s t }

abbrev pub deliver : Signal → Process → Process
deliver s p = record p { pending = λ t. p.pending t && not (same_signal s t) }

module _ (build : Build) (libs : Libraries) where
  -- The next step of `process_packet` from a stage, if the call of `sigprocmask` succeeds where there
  -- is one.
  pub advance : Bool → Stage → Process → Option Process
  unfolding sigprocmask_block sigprocmask_unblock
  advance succeeds waiting p = none
  advance succeeds (entered header bytes) p =
      sigprocmask_block succeeds (record p { stage = blocked header bytes })
  advance succeeds (blocked header bytes) p =
      get_flow_entry_for_packet build bytes header.caplen header.len p.daemon >>= λ r.
      some (record p { daemon = r.0; stage = extracted header bytes r.1 })
  advance succeeds (extracted header bytes x) p =
      let d = p.daemon in
      let flow = flow_of_packet build libs d.flow_table x header.ts.tv_sec in
      some (record p {
        daemon = record d { flow_table = flow.0 };
        stage = classified header bytes x flow.1;
      })
  advance succeeds (classified header bytes x flow_id) p =
      let added = store_packet build libs header flow_id p.daemon in
      some (record p { daemon = added.0; stage = stored header bytes x flow_id added.1 })
  advance succeeds (stored header bytes x flow_id packet_id) p =
      parse_dns build libs bytes x packet_id p.daemon >>= λ d.
      some (record p { daemon = d; stage = dns_parsed header bytes x flow_id })
  advance succeeds (dns_parsed header bytes x flow_id) p =
      parse_http build libs bytes x flow_id p.daemon >>= λ d.
      some (record p { daemon = d; stage = http_parsed header bytes })
  advance succeeds (http_parsed header bytes) p =
      sigprocmask_unblock succeeds (record p { stage = waiting })

  pub step : Bool → Process → Option Process
  unfolding advance
  step succeeds p = advance succeeds p.stage p

-- The loop of libpcap starts with no signal blocked or pending.
abbrev pub process_of : Daemon → Process
process_of d = record { daemon = d; stage = waiting; mask = λ _. false; pending = λ _. false }

-- An execution, with the number of alarms handled, the names of the updates staged and the seconds to
-- which the alarm was last set.
pub data Execution (build : Build) (libs : Libraries) {G F : Type 0} (gzprintf : Printf G)
    (fprintf : Printf F) : ℕ → List Call → ℕ → Process → Type 0 where
  loop_started :
      (inputs : Inputs) (d : Daemon)
      → start build libs inputs ≡ some d
      → Execution build libs gzprintf fprintf 0 [] (next_alarm build) (process_of d)
  called :
      (n : ℕ) (names : List Call) (seconds : ℕ) (p : Process) (header : PacketHeader)
      (bytes : List ℕ)
      → Execution build libs gzprintf fprintf n names seconds p
      → p.stage ≡ waiting
      → Readable header bytes
      → Execution build libs gzprintf fprintf n names seconds
          (record p { stage = entered header bytes })
  stepped :
      (n : ℕ) (names : List Call) (seconds : ℕ) (p p' : Process) (succeeds : Bool)
      → Execution build libs gzprintf fprintf n names seconds p
      → step build libs succeeds p ≡ some p'
      → Execution build libs gzprintf fprintf n names seconds p'
  raised :
      (n : ℕ) (names : List Call) (seconds : ℕ) (p : Process) (s : Signal)
      → Execution build libs gzprintf fprintf n names seconds p
      → Execution build libs gzprintf fprintf n names seconds (raise s p)
  handled :
      (n : ℕ) (names : List Call) (seconds seconds' : ℕ) (p : Process) (d' : Daemon)
      (system : Round G F) (written : Written G F)
      → Execution build libs gzprintf fprintf n names seconds p
      → p.pending sigalrm ≡ true
      → p.mask sigalrm ≡ false
      → handle_signals build libs gzprintf fprintf sigalrm system p.daemon
        ≡ some (returned d' seconds' written)
      → Execution build libs gzprintf fprintf
          (n + 1)
          (names ++ filenames written.update)
          seconds'
          (record (deliver sigalrm p) { daemon = d' })
