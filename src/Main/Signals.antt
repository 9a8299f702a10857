-- ===== src/Main/Signals.antt =====
-- `handle_signals` and `set_next_alarm` of src/main.c.
pub mod Alarms
pub mod Returns
mod Tests
use bismark_passive.Prelude.{
  ℕ, ◌+◌, ◌/◌, ◌%◌, ◌^◌, Bool, ◌&&◌, Option, none, some, if◌then◌else◌, ◌==◌, List,
}
use bismark_passive.Prelude.Int.{ℤ, pos, ltb_ℤ}
use bismark_passive.Prelude.Printf.{◌>>=◌, Printf}
use bismark_passive.Uploads.{Scan, UploadFailures, read_failures, check}
use bismark_passive.Main.{Build, Libraries, Daemon}
use bismark_passive.Main.Updates.{
  Answers, Staged, write_update, write_flow_log, write_frequent_update,
}

pub data Signal : Type 0 where
  sigint sigterm sigalrm : Signal

-- What the system answers while a signal is handled.
pub record Round (G F : Type 0) : Type 0 where
  pub update : Answers G
  pub frequent_update : Answers F
  pub flow_log : Option F
  pub upload_failures : Option (List Scan)

-- The files that the handler wrote.
pub record Written (G F : Type 0) : Type 0 where
  pub flow_log : Option F
  pub update : Option (Staged G)
  pub frequent_update : Option (Staged F)

-- The handler calls `exit` with a status, or returns with an alarm set so many seconds ahead.
pub data Handled (G F : Type 0) : Type 0 where
  exited : ℕ → Written G F → Handled G F
  returned : Daemon → ℕ → Written G F → Handled G F

-- `ALARMS_PER_UPDATE`, and the argument of `alarm` in `set_next_alarm`
unfoldable pub alarms_per_update : Build → ℕ
alarms_per_update build =
    if build.frequent_updates
    then build.update_period_seconds / build.frequent_update_period_seconds
    else 1

pub next_alarm : Build → ℕ
next_alarm build =
    if build.frequent_updates
    then build.frequent_update_period_seconds
    else build.update_period_seconds

abbrev pub count_alarm : Daemon → Daemon
count_alarm d = record d { alarm_count = (d.alarm_count + 1) % 2 ^ 32 }

-- the test for an update after so many alarms
abbrev pub is_due : Build → Daemon → Bool
is_due build d = d.alarm_count % alarms_per_update build == 0

module _ (build : Build) (libs : Libraries) {G F : Type 0} (gzprintf : Printf G)
    (fprintf : Printf F) where
  pub update_if : Bool → Answers G → Daemon → Option (Daemon × Option (Staged G))
  update_if due system d =
      if due
      then (write_update build libs gzprintf system d >>= λ r. some (r.0, some r.1))
      else some (d, none)

  pub frequent_update_if_built : Answers F → Daemon → Option (Daemon × Option (Staged F))
  frequent_update_if_built system d =
      if build.frequent_updates
      then (write_frequent_update libs fprintf system d >>= λ r. some (r.0, some r.1))
      else some (d, none)

  -- The check of the uploads, and the next alarm.
  pub check_uploads : Bool → Option (List Scan) → Daemon → Written G F → Handled G F
  check_uploads due failures d written =
      let checked = check d.upload_failures (read_failures failures) in
      if due
      then (if ltb_ℤ (pos 0) checked.1
          then exited 0 written
          else returned (record d { upload_failures = checked.0 }) (next_alarm build) written)
      else returned d (next_alarm build) written

  -- The branch for SIGALRM, behind the count.
  pub handle_alarm : Round G F → Daemon → Option (Handled G F)
  unfolding update_if frequent_update_if_built check_uploads
  handle_alarm system d = do
    (d₁, update) ← update_if (is_due build d) system.update d
    (d₂, frequent) ← frequent_update_if_built system.frequent_update d₁
    some (
        check_uploads (is_due build d) system.upload_failures d₂ (record {
          flow_log =
              (if is_due build d then write_flow_log libs fprintf system.flow_log d else none);
          update = update;
          frequent_update = frequent;
        }))

  -- The branch for SIGINT and SIGTERM.
  pub handle_termination : Round G F → Daemon → Option (Handled G F)
  unfolding update_if frequent_update_if_built
  handle_termination system d = do
    (d₁, update) ← write_update build libs gzprintf system.update d
    (d₂, frequent) ← frequent_update_if_built system.frequent_update d₁
    some (exited 0 (record { flow_log = none; update = some update; frequent_update = frequent }))

  -- `handle_signals`; `none` for `exit(1)`, and for a step of a component that goes wrong.
  unfoldable pub handle_signals : Signal → Round G F → Daemon → Option (Handled G F)
  unfolding handle_alarm handle_termination
  handle_signals sigint system d = handle_termination system d
  handle_signals sigterm system d = handle_termination system d
  handle_signals sigalrm system d = handle_alarm system (count_alarm d)
