-- ===== src/Main/Interleavings/Complete.antt =====
-- Every run is one of the executions: nothing is claimed of runs that cannot happen.
use bismark_passive.Prelude.{ℕ, ◌+◌, ◌≡◌, refl, ap, ◌∙◌, true, false, ◌||◌, Bool, some, List, ◌++◌}
use bismark_passive.Prelude.Printf.{Printf, Call}
use bismark_passive.Main.{Build, Libraries, Daemon}
use bismark_passive.Main.Packets.{PacketHeader, process_packet}
use bismark_passive.Main.Packets.Stages.{Readable}
use bismark_passive.Main.Signals.{
  Signal, sigint, sigterm, sigalrm, Round, Written, returned, handle_signals,
}
use bismark_passive.Main.Signals.Alarms.{filenames}
use bismark_passive.Main.Runs.{Run}
use bismark_passive.Main.Runs
use bismark_passive.Main.Interleavings.{
  waiting, blocked, Process, Signals, block_set, same_signal, sigprocmask_block, advance, step,
  raise, process_of, Execution, loop_started, called, stepped, raised, handled,
}
use bismark_passive.Main.Interleavings.Atomic.{IsOpen}
use bismark_passive.Main.Interleavings.Progress.{Continues, here, next, in_stage, from_block}

same_signal_refl : (s : Signal) → same_signal s s ≡ true
unfolding same_signal
same_signal_refl sigint = refl
same_signal_refl sigterm = refl
same_signal_refl sigalrm = refl

or_true : (a : Bool) → (a || true) ≡ true
or_true true = refl
or_true false = refl

module _ (build : Build) (libs : Libraries) {G F : Type 0} (gzprintf : Printf G)
    (fprintf : Printf F) where
  -- The process waits for a packet, with no signal blocked.
  pub record Waits (n : ℕ) (names : List Call) (seconds : ℕ) (d : Daemon) : Type 0 where
    pub process : Process
    pub reached : Execution build libs gzprintf fprintf n names seconds process
    pub state : process.daemon ≡ d
    pub stage : process.stage ≡ waiting
    pub opened : IsOpen process

  along :
      (n : ℕ) (names : List Call) (seconds : ℕ) (p p' : Process)
      → Execution build libs gzprintf fprintf n names seconds p
      → Continues build libs p p'
      → Execution build libs gzprintf fprintf n names seconds p'
  along n names seconds _ _ x (here p) = x
  along n names seconds _ _ x (next p q r e c) =
      along n names seconds q r (stepped n names seconds p q true x e) c

  call_packet :
      (n : ℕ) (names : List Call) (seconds : ℕ) (d d' : Daemon) (header : PacketHeader)
      (bytes : List ℕ)
      → Waits n names seconds d
      → Readable header bytes
      → process_packet build libs header bytes d ≡ some d'
      → Waits n names seconds d'
  unfolding step advance sigprocmask_block
  call_packet n names seconds d d' header bytes w readable e =
      let p = w.process in
      let mask : Signals = λ s. p.mask s || block_set s in
      let first = called n names seconds p header bytes w.reached w.stage readable in
      let second =
        stepped n names seconds _
          (in_stage build libs mask p.pending (blocked header bytes) p.daemon) true first refl in
      let (p', c, opened, _, waits, is) =
        from_block build libs mask p.pending header bytes d' p.daemon
          (ap (process_packet build libs header bytes) w.state ∙ e) in
      record {
        process = p';
        reached = along n names seconds _ p' second c;
        state = is;
        stage = waits;
        opened = opened;
      }

  call_handler :
      (n : ℕ) (names : List Call) (seconds seconds' : ℕ) (d d' : Daemon) (system : Round G F)
      (written : Written G F)
      → Waits n names seconds d
      → handle_signals build libs gzprintf fprintf sigalrm system d
        ≡ some (returned d' seconds' written)
      → Waits (n + 1) (names ++ filenames written.update) seconds' d'
  call_handler n names seconds seconds' d d' system written w e =
      let p = w.process in
      let pending : (p.pending sigalrm || same_signal sigalrm sigalrm) ≡ true =
        ap (λ b. p.pending sigalrm || b) (same_signal_refl sigalrm) ∙ or_true (p.pending sigalrm) in
      record {
        process = _;
        reached =
            handled n names seconds seconds' (raise sigalrm p) d' system written
              (raised n names seconds p sigalrm w.reached) pending (w.opened sigalrm)
              (ap (handle_signals build libs gzprintf fprintf sigalrm system) w.state ∙ e);
        state = refl;
        stage = w.stage;
        opened = w.opened;
      }

  -- Every state of a run is one in which some execution waits for a packet, with no signal blocked and
  -- the same alarms, updates and timer.
  pub Run-Waits :
      (n : ℕ) (names : List Call) (seconds : ℕ) (d : Daemon)
      → Run build libs gzprintf fprintf n names seconds d
      → Waits n names seconds d
  Run-Waits _ _ _ _ (Runs.started inputs d e) = record {
    process = process_of d;
    reached = loop_started inputs d e;
    state = refl;
    stage = refl;
    opened = λ s. refl;
  }
  Run-Waits _ _ _ _ (Runs.packet n names seconds d₀ d header bytes run readable e) =
      call_packet n names seconds d₀ d header bytes (Run-Waits n names seconds d₀ run) readable e
  Run-Waits _ _ _ _ (Runs.alarm n names seconds seconds' d₀ d system written run e) =
      call_handler n names seconds seconds' d₀ d system written (Run-Waits n names seconds d₀ run) e
