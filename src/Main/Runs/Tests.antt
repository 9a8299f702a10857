-- ===== src/Main/Runs/Tests.antt =====
-- A run: the start, a packet, and an alarm with its update.
use bismark_passive.Prelude.{suc, ◌+◌, ◌/◌, ◌<◌, ◌≡◌, refl, some, List, [], ◌∷◌, ◌++◌, arith}
use bismark_passive.Prelude.Printf.{Call, record_call}
use bismark_passive.Samples.{length-hmac}
use bismark_passive.Main.Signals.{Handled, sigint}
use bismark_passive.Main.Signals.{handle_signals, alarms_per_update, next_alarm}
use bismark_passive.Main.Signals.Alarms.{filenames, Last}
use bismark_passive.Main.Samples.{default_build, libraries, answer, round}
use bismark_passive.Main.Runs.{Run, alarm, Kept, Run-Kept}
use bismark_passive.Main.Runs.{numbered}
use bismark_passive.Main.Runs.Termination.{Run-Last, last_names}
use bismark_passive.Main.Runs.Periods.{Run-sequence_number}
use bismark_passive.Main.Runs.Samples.{first_daemon, filter-lookup, first_run, alarmed}

abbrev names : List Call
names = [] ++ filenames alarmed.1.update

run :
    Run default_build libraries record_call record_call
      (0 + 1)
      names
      (next_alarm default_build)
      alarmed.0
run =
    alarm 0 [] (next_alarm default_build) (next_alarm default_build) first_daemon alarmed.0 round
      alarmed.1 first_run alarmed.2

Run-Kept_example : Kept default_build libraries (0 + 1) names (next_alarm default_build) alarmed.0
Run-Kept_example =
    Run-Kept default_build libraries record_call record_call (0 + 1) names
      (next_alarm default_build) alarmed.0 run

one_alarm : 0 < alarms_per_update default_build
unfolding alarms_per_update
one_alarm = omega arith

Run-sequence_number_example : alarmed.0.sequence_number ≡ (0 + 1) / alarms_per_update default_build
Run-sequence_number_example =
    Run-sequence_number default_build libraries record_call record_call one_alarm (0 + 1) names
      (next_alarm default_build) alarmed.0 run (omega arith)

Run-Last_example :
    (h : Handled (List Call) (List Call)) × (handle_signals default_build libraries record_call
        record_call sigint round first_daemon
      ≡ some h)
    × Last first_daemon h
    × ([] ++ last_names h
        ≡ numbered first_daemon.bismark_id first_daemon.start_timestamp_microseconds
            (suc first_daemon.sequence_number))
Run-Last_example =
    Run-Last default_build libraries record_call record_call 0 [] (next_alarm default_build)
      first_daemon answer [] round sigint tt first_run length-hmac filter-lookup refl refl
      (λ h c. (h ++ c ∷ [], refl)) refl refl
