-- ===== src/Main/Signals/Alarms.antt =====
-- What the handler of an alarm leaves.
use bismark_passive.Prelude.{
  ℕ, ◌+◌, ◌≡◌, refl, ap, ◌∙◌, true, Bool-cases, inl, inr, Option, none, some, List, [], ◌∷◌,
  if◌then◌else◌,
}
use bismark_passive.Prelude.Int.{pos, ltb_ℤ}
use bismark_passive.Prelude.Printf.{Printf, Call}
use bismark_passive.Prelude.All.{after, OnSuccess-weaken, OnSuccess, >>=-OnSuccess}
use bismark_passive.Uploads.{Scan, check, read_failures}
use bismark_passive.Main.{Build, Libraries, Daemon}
use bismark_passive.Main.Consistent.{Consistent, Unchanged}
use bismark_passive.Main.Updates.{
  Answers, Staged, write_update, write_frequent_update, update_filename,
}
use bismark_passive.Main.Updates.Keeps.{write_update-Renewed}
use bismark_passive.Main.Updates.Frequent.{write_frequent_update-Unchanged}
use bismark_passive.Main.Signals.{
  Round, Handled, exited, returned, next_alarm, update_if, frequent_update_if_built, check_uploads,
  is_due, handle_alarm, handle_termination,
}

abbrev pub filenames : {H : Type 0} → Option (Staged H) → List Call
filenames none = []
filenames (some s) = s.filename ∷ []

-- What is left behind an alarm after which the program goes on: an update was staged if it was due.
pub record Followed (build : Build) (libs : Libraries) (d d' : Daemon) (seconds : ℕ)
    (names : List Call) : Type 0 where
  pub consistent : Consistent libs d'
  pub alarm : seconds ≡ next_alarm build
  pub alarms : d'.alarm_count ≡ d.alarm_count
  pub id : d'.bismark_id ≡ d.bismark_id
  pub session : d'.start_timestamp_microseconds ≡ d.start_timestamp_microseconds
  pub number :
      d'.sequence_number ≡ (if is_due build d then d.sequence_number + 1 else d.sequence_number)
  pub staged : names ≡ (if is_due build d then update_filename d ∷ [] else [])

-- The program exits only behind an update that was due, with status 0.
abbrev pub Ends : {G F : Type 0} → Build → Libraries → Daemon → Handled G F → Type 0
Ends build libs d (exited status w) =
    (is_due build d ≡ true) × (status ≡ 0) × (filenames w.update ≡ update_filename d ∷ [])
Ends build libs d (returned d' seconds w) = Followed build libs d d' seconds (filenames w.update)

module _ (build : Build) (libs : Libraries) {G F : Type 0} (gzprintf : Printf G)
    (fprintf : Printf F) where
  -- The update, if it is due.
  record Updated (d : Daemon) (r : Daemon × Option (Staged G)) : Type 0 where
    pub consistent : Consistent libs r.0
    pub alarms : r.0.alarm_count ≡ d.alarm_count
    pub id : r.0.bismark_id ≡ d.bismark_id
    pub session : r.0.start_timestamp_microseconds ≡ d.start_timestamp_microseconds
    pub number :
        r.0.sequence_number ≡ (if is_due build d then d.sequence_number + 1 else d.sequence_number)
    pub staged : filenames r.1 ≡ (if is_due build d then update_filename d ∷ [] else [])

  update_if-Updated :
      (system : Answers G) (d : Daemon)
      → Consistent libs d
      → OnSuccess (Updated d) (update_if build libs gzprintf fprintf (is_due build d) system d)
  unfolding update_if
  update_if-Updated system d c = elim (Bool-cases (is_due build d)) [
    | inl due ↦ rw due (
        >>=-OnSuccess _ (Updated d) (write_update build libs gzprintf system d) _
          (write_update-Renewed build libs gzprintf system d c)
          λ r (new, name). record {
            consistent = new.consistent;
            alarms = new.alarms;
            id = new.id;
            session = new.session;
            number = rw due new.number;
            staged = rw (due, name) refl;
          })
    | inr early ↦ rw early (record {
      consistent = c;
      alarms = refl;
      id = refl;
      session = refl;
      number = rw early refl;
      staged = rw early refl;
    })
  ]

  frequent-Unchanged :
      (system : Answers F) (d : Daemon)
      → Consistent libs d
      → OnSuccess
          (λ r. Unchanged libs d r.0)
          (frequent_update_if_built build libs gzprintf fprintf system d)
  unfolding frequent_update_if_built
  frequent-Unchanged system d c = elim (Bool-cases build.frequent_updates) [
    | inl on ↦ rw on (
        >>=-OnSuccess (λ r. Unchanged libs d r.0) (λ r. Unchanged libs d r.0)
          (write_frequent_update libs fprintf system d) _
          (write_frequent_update-Unchanged libs fprintf system d c) λ r same. same)
    | inr off ↦
        rw off (record { consistent = c; number = refl; id = refl; session = refl; alarms = refl })
  ]

  -- The end of the handler: what is left of the update and the frequent update.
  checked :
      (failures : Option (List Scan)) (d d₁ d₂ : Daemon) (log : Option F)
      (update : Option (Staged G)) (frequent : Option (Staged F))
      → Updated d (d₁, update)
      → Unchanged libs d₁ d₂
      → Ends build libs d (
          check_uploads build libs gzprintf fprintf
            (is_due build d)
            failures
            d₂
            (record { flow_log = log; update = update; frequent_update = frequent }))
  unfolding check_uploads
  checked failures d d₁ d₂ log update frequent u f = elim (Bool-cases (is_due build d)) [
    | inr early ↦ rw early (record {
      consistent = f.consistent;
      alarm = refl;
      alarms = f.alarms ∙ u.alarms;
      id = f.id ∙ u.id;
      session = f.session ∙ u.session;
      number = f.number ∙ u.number;
      staged = u.staged;
    })
    | inl due ↦
        elim (Bool-cases (ltb_ℤ (pos 0) (check d₂.upload_failures (read_failures failures)).1)) [
          | inl failing ↦ rw (due, failing) (due, refl, u.staged ∙ rw due refl)
          | inr fine ↦
              rw (due, fine)
                (record {
                  consistent = record {
                    packets = f.consistent.packets;
                    flows = f.consistent.flows;
                    records = f.consistent.records;
                    addresses = f.consistent.addresses;
                    devices = f.consistent.devices;
                    drops = f.consistent.drops;
                    initialized = f.consistent.initialized;
                  };
                  alarm = refl;
                  alarms = f.alarms ∙ u.alarms;
                  id = f.id ∙ u.id;
                  session = f.session ∙ u.session;
                  number = f.number ∙ u.number;
                  staged = u.staged;
                })
        ]
  ]

  -- An alarm, once it is counted: if an update is due one is staged under its number, the program
  -- goes on or exits with status 0 for failed uploads; if none is due none is staged, and it goes on.
  -- If it goes on the state is consistent, the counter of updates is right, and the next alarm is set.
  pub handle_alarm-Ends :
      (system : Round G F) (d : Daemon)
      → Consistent libs d
      → OnSuccess (Ends build libs d) (handle_alarm build libs gzprintf fprintf system d)
  unfolding handle_alarm
  handle_alarm-Ends system d c =
      >>=-OnSuccess (Updated d) (Ends build libs d)
        (update_if build libs gzprintf fprintf (is_due build d) system.update d) _
        (update_if-Updated system.update d c)
        λ r u.
          >>=-OnSuccess (λ r'. Unchanged libs r.0 r'.0) (Ends build libs d)
            (frequent_update_if_built build libs gzprintf fprintf system.frequent_update r.0) _
            (frequent-Unchanged system.frequent_update r.0 u.consistent)
            λ r' f. checked system.upload_failures d r.0 r'.0 _ r.1 r'.1 u f

-- The program exits with status 0, behind an update under the next number.
abbrev pub Last : {G F : Type 0} → Daemon → Handled G F → Type 0
Last d (exited status w) = (status ≡ 0) × (filenames w.update ≡ update_filename d ∷ [])
Last d (returned d' seconds w) = ⊥

pub handle_termination-Last :
    {G F : Type 0} (build : Build) (libs : Libraries) (gzprintf : Printf G) (fprintf : Printf F)
    (system : Round G F) (d : Daemon)
    → Consistent libs d
    → OnSuccess (Last d) (handle_termination build libs gzprintf fprintf system d)
unfolding handle_termination
handle_termination-Last {G} {F} build libs gzprintf fprintf system d c =
    >>=-OnSuccess {A = Daemon × Staged G} (λ r. r.1.filename ≡ update_filename d) (Last d)
      (write_update build libs gzprintf system.update d) _
      (OnSuccess-weaken _ _ (write_update build libs gzprintf system.update d) (λ r h. h.1)
        (write_update-Renewed build libs gzprintf system.update d c))
      λ r name.
        after (Last d)
          (frequent_update_if_built build libs gzprintf fprintf system.frequent_update r.0) _
          λ r'. (refl, ap (λ s. s ∷ []) name)
