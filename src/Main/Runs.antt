-- ===== src/Main/Runs.antt =====
-- Runs of the program: packets and alarms in any order. A signal is handled between two packets, never
-- inside one, since `process_packet` of src/main.c blocks the signals. Signals that end the program
-- and alarms after which it exits end the run.
pub mod Periods
pub mod Termination
pub mod Samples
mod Tests
use bismark_passive.Prelude.{
  ℕ, zero, suc, ◌+◌, ◌*◌, ◌/◌, ◌%◌, ◌^◌, ◌<◌, ◌≤◌, ◌≡◌, refl, sym, ap, ap₂, ◌∙◌, subst, true, false,
  Bool, Bool-cases, inl, inr, some, List, [], ◌∷◌, ◌++◌, arith, length, length-append, ◌==◌,
  if◌then◌else◌,
}
use bismark_passive.Prelude.Int.{int_laws, pos}
use bismark_passive.Prelude.Printf.{Printf, Call, uint, int, str}
use bismark_passive.Prelude.All.{OnSuccess-some}
use mathlib.Core.List.{append-nil}
use bismark_passive.Main.{Build, Libraries, Daemon}
use bismark_passive.Main.Consistent.{Consistent}
use bismark_passive.Main.Packets.{PacketHeader, process_packet}
use bismark_passive.Main.Packets.Stages.{Readable}
use bismark_passive.Main.Packets.Keeps.{process_packet-Unchanged}
use bismark_passive.Main.Updates.{update_filename}
use bismark_passive.Main.Signals.{
  Round, Written, returned, sigalrm, handle_signals, is_due, count_alarm, alarms_per_update,
  next_alarm,
}
use bismark_passive.Main.Signals.Alarms.{filenames, Ends, Followed, handle_alarm-Ends}
use bismark_passive.Main.Start.{Inputs, start}
use bismark_passive.Main.Start.Ready.{start-Consistent}

-- A run up to a state in which the program waits: how many alarms it has had, the names of the updates
-- that it has staged, in order, and the seconds to which the alarm was last set.
pub data Run (build : Build) (libs : Libraries) {G F : Type 0} (gzprintf : Printf G)
    (fprintf : Printf F) : ℕ → List Call → ℕ → Daemon → Type 0 where
  started :
      (inputs : Inputs) (d : Daemon)
      → start build libs inputs ≡ some d
      → Run build libs gzprintf fprintf 0 [] (next_alarm build) d
  packet :
      (n : ℕ) (names : List Call) (seconds : ℕ) (d d' : Daemon) (header : PacketHeader)
      (bytes : List ℕ)
      → Run build libs gzprintf fprintf n names seconds d
      → Readable header bytes
      → process_packet build libs header bytes d ≡ some d'
      → Run build libs gzprintf fprintf n names seconds d'
  alarm :
      (n : ℕ) (names : List Call) (seconds seconds' : ℕ) (d d' : Daemon) (system : Round G F)
      (written : Written G F)
      → Run build libs gzprintf fprintf n names seconds d
      → handle_signals build libs gzprintf fprintf sigalrm system d
        ≡ some (returned d' seconds' written)
      → Run build libs gzprintf fprintf (n + 1) (names ++ filenames written.update) seconds' d'

-- The first so many names of updates of a session.
unfoldable pub numbered : List ℕ → ℕ → ℕ → List Call
numbered id session zero = []
numbered id session (suc n) =
    numbered id session n
    ++ record {
      format = "/tmp/bismark-uploads/passive/%s-%PRIu64-%d.gz";
      args = str id ∷ uint session ∷ int (pos n) ∷ [];
    }
      ∷ []

-- What holds in a state that is reached behind `n` alarms.
pub record Kept (build : Build) (libs : Libraries) (n : ℕ) (names : List Call) (seconds : ℕ)
    (d : Daemon) : Type 0 where
  pub consistent : Consistent libs d
  pub pending : seconds ≡ next_alarm build
  pub alarms : d.alarm_count ≡ n % 2 ^ 32
  pub named : names ≡ numbered d.bismark_id d.start_timestamp_microseconds d.sequence_number

-- The names behind one more update, or none.
numbered-more :
    (d : Daemon) (due : Bool) (names more : List Call) (number : ℕ)
    → names ≡ numbered d.bismark_id d.start_timestamp_microseconds d.sequence_number
    → more ≡ (if due then update_filename d ∷ [] else [])
    → number ≡ (if due then d.sequence_number + 1 else d.sequence_number)
    → names ++ more ≡ numbered d.bismark_id d.start_timestamp_microseconds number
unfolding numbered
numbered-more d true names more number named staged is =
    let next : number ≡ suc d.sequence_number = is ∙ omega arith in rw (named, staged, next) refl
numbered-more d false names more number named staged is = rw (staged, is, append-nil names) named

module _ (build : Build) (libs : Libraries) {G F : Type 0} (gzprintf : Printf G)
    (fprintf : Printf F) where
  alarm-Kept :
      (n : ℕ) (names : List Call) (seconds seconds' : ℕ) (d d' : Daemon) (system : Round G F)
      (written : Written G F)
      → Kept build libs n names seconds d
      → handle_signals build libs gzprintf fprintf sigalrm system d
        ≡ some (returned d' seconds' written)
      → Followed build libs (count_alarm d) d' seconds' (filenames written.update)
  unfolding handle_signals
  alarm-Kept n names seconds seconds' d d' system written k e =
      OnSuccess-some (Ends build libs (count_alarm d)) _ (returned d' seconds' written)
        (handle_alarm-Ends build libs gzprintf fprintf system (count_alarm d) (record {
          packets = k.consistent.packets;
          flows = k.consistent.flows;
          records = k.consistent.records;
          addresses = k.consistent.addresses;
          devices = k.consistent.devices;
          drops = k.consistent.drops;
          initialized = k.consistent.initialized;
        }))
        e

  -- In every state that a run reaches, packets and alarms in any order, all components are valid, each
  -- DNS record names a packet of the series, an alarm is set, the alarms are counted modulo 2^32, and
  -- the updates staged so far bear the numbers from 0 up to the next, in order, without a gap.
  pub Run-Kept :
      (n : ℕ) (names : List Call) (seconds : ℕ) (d : Daemon)
      → Run build libs gzprintf fprintf n names seconds d
      → Kept build libs n names seconds d
  unfolding numbered
  Run-Kept _ _ _ _ (started inputs d e) =
      let ready = start-Consistent build libs inputs d e in
      record {
        consistent = ready.consistent;
        pending = refl;
        alarms = ready.alarms;
        named = rw ready.number refl;
      }
  Run-Kept _ _ _ _ (packet n names seconds d₀ d header bytes run readable e) =
      let k = Run-Kept n names seconds d₀ run in
      let u = process_packet-Unchanged build libs header bytes d₀ readable k.consistent d e in
      record {
        consistent = u.consistent;
        pending = k.pending;
        alarms = u.alarms ∙ k.alarms;
        named = rw (u.id, u.session, u.number) k.named;
      }
  Run-Kept _ _ _ _ (alarm n₀ names₀ seconds₀ seconds d₀ d system written run e) =
      let k = Run-Kept n₀ names₀ seconds₀ d₀ run in
      let f = alarm-Kept n₀ names₀ seconds₀ seconds d₀ d system written k e in
      record {
        consistent = f.consistent;
        pending = f.alarm;
        alarms = f.alarms ∙ omega (arith, k.alarms);
        named =
            rw (f.id, f.session)
              (numbered-more (count_alarm d₀) (is_due build (count_alarm d₀)) names₀
                (filenames written.update) d.sequence_number k.named f.staged f.number);
      }
