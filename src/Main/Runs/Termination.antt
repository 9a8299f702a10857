-- ===== src/Main/Runs/Termination.antt =====
-- How a run ends.
use bismark_passive.Prelude.{ℕ, suc, ◌≡◌, refl, true, false, some, List, ◌++◌, length}
use bismark_passive.Prelude.Int.{ℤ}
use bismark_passive.Prelude.Printf.{Printf, Call}
use bismark_passive.Prelude.All.{OnSuccess-some}
use bismark_passive.Main.{Build, Libraries, Daemon}
use bismark_passive.Main.Signals.{Signal, sigint, sigterm, sigalrm, Round, Handled, handle_signals}
use bismark_passive.Main.Signals.Alarms.{filenames, Last, handle_termination-Last}
use bismark_passive.Main.Signals
use bismark_passive.Main.Signals.Returns.{NeverFails, Terminates, handle_signals-terminated}
use bismark_passive.Main.Consistent.{Consistent}
use bismark_passive.Anonymization.{anonymization_digest_length}
use bismark_passive.Bloom
use bismark_passive.Main.Runs.{Run, Run-Kept, numbered}

-- The update that a termination stages.
abbrev pub last_names : {G F : Type 0} → Handled G F → List Call
last_names (Signals.exited status w) = filenames w.update
last_names (Signals.returned d' seconds w) = filenames w.update

module _ {G F : Type 0} (build : Build) (libs : Libraries) (gzprintf : Printf G)
    (fprintf : Printf F) where
  handle_signals-Last :
      (s : Signal) (system : Round G F) (d : Daemon) (h : Handled G F)
      → Terminates s
      → Consistent libs d
      → handle_signals build libs gzprintf fprintf s system d ≡ some h
      → Last d h
  unfolding handle_signals
  handle_signals-Last sigint system d h t c e =
      OnSuccess-some (Last d) _ h (handle_termination-Last build libs gzprintf fprintf system d c) e
  handle_signals-Last sigterm system d h t c e =
      OnSuccess-some (Last d) _ h (handle_termination-Last build libs gzprintf fprintf system d c) e
  handle_signals-Last sigalrm system d h t c e = absurd t

numbered-Last :
    {G F : Type 0} (names : List Call) (d : Daemon) (h : Handled G F)
    → names ≡ numbered d.bismark_id d.start_timestamp_microseconds d.sequence_number
    → Last d h
    → names ++ last_names h
      ≡ numbered d.bismark_id d.start_timestamp_microseconds (suc d.sequence_number)
unfolding numbered
numbered-Last names d (Signals.exited status w) named (zero_status, staged) =
    rw (named, staged) refl
numbered-Last names d (Signals.returned d' seconds w) named impossible = absurd impossible

-- When SIGINT or SIGTERM reaches the program in any state of a run, in a build without frequent updates
-- and URLs, with digests of 20 bytes and while the Bloom filter answers, and the file of the update
-- opens, no write to it fails and it can be renamed, then the signal ends the program with status 0,
-- behind a last update whose number continues those of the run.
pub Run-Last :
    {G F : Type 0} (build : Build) (libs : Libraries) (gzprintf : Printf G) (fprintf : Printf F)
    (n : ℕ) (names : List Call) (seconds : ℕ) (d : Daemon) (answer : List ℕ → ℤ) (handle : G)
    (system : Round G F) (s : Signal)
    → Terminates s
    → Run build libs gzprintf fprintf n names seconds d
    → ((key bytes : List ℕ) → length (libs.sha1_hmac key bytes) ≡ anonymization_digest_length)
    → ((name : List ℕ) → Bloom.lookup d.dns_table.bloom name ≡ some (answer name))
    → build.http_url ≡ false
    → build.frequent_updates ≡ false
    → NeverFails gzprintf
    → system.update.handle ≡ some handle
    → system.update.renamed ≡ true
    → (h : Handled G F) × (handle_signals build libs gzprintf fprintf s system d ≡ some h)
      × Last d h
      × (names ++ last_names h
          ≡ numbered d.bismark_id d.start_timestamp_microseconds (suc d.sequence_number))
Run-Last build libs gzprintf fprintf n names seconds d answer handle system s t run long answers
      no_urls no_frequent total opens renames =
    let k = Run-Kept build libs gzprintf fprintf n names seconds d run in
    let (h, e) =
      handle_signals-terminated build libs gzprintf fprintf d k.consistent answer long answers
        no_urls no_frequent total handle system opens renames s t in
    let last = handle_signals-Last build libs gzprintf fprintf s system d h t k.consistent e in
    (h, e, last, numbered-Last names d h k.named last)
