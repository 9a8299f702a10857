-- ===== src/Main/Interleavings/Tests.antt =====
-- An alarm that is raised while a packet is processed, and one that is handled between two packets.
use bismark_passive.Prelude.{ℕ, ◌+◌, ◌≡◌, refl, true, some, List, [], ◌++◌}
use bismark_passive.Prelude.Printf.{Call, record_call}
use bismark_passive.Main.Signals.{sigalrm, next_alarm}
use bismark_passive.Main.Signals.Alarms.{filenames}
use bismark_passive.Main.Samples.{default_build, libraries, inputs, frame, round}
use bismark_passive.Main.Packets.Samples.{header, frame-Readable}
use bismark_passive.Main.Runs.{Run}
use bismark_passive.Main.Runs.Samples.{first_daemon, first_run, starts, alarmed}
use bismark_passive.Main.Interleavings.{
  entered, blocked, Process, sigprocmask_block, block_set, same_signal, raise, deliver, advance,
  step, process_of, Execution, loop_started, called, stepped, raised, handled,
}
use bismark_passive.Main.Runs
use bismark_passive.Main.Interleavings.Complete.{Waits, Run-Waits}
use bismark_passive.Main.Interleavings.Atomic.{Execution-Run}
use bismark_passive.Main.Interleavings.Progress.{Opens, Execution-opens}

abbrev pause : ℕ
pause = next_alarm default_build

abbrev idle : Process
idle = process_of first_daemon

abbrev Reached : ℕ → List Call → Process → Type 0
Reached n names p = Execution default_build libraries record_call record_call n names pause p

looping : Reached 0 [] idle
looping = loop_started inputs first_daemon starts

abbrev in_call : Process
in_call = record idle { stage = entered header frame }

abbrev in_packet : Process
in_packet = record idle { stage = blocked header frame; mask = block_set }

blocks : step default_build libraries true in_call ≡ some in_packet
unfolding step advance sigprocmask_block
blocks = refl

-- The alarm goes off inside the packet.
in_packet-Reached : Reached 0 [] (raise sigalrm in_packet)
in_packet-Reached = raised 0 [] pause in_packet sigalrm (
    stepped 0 [] pause in_call in_packet true
      (called 0 [] pause idle header frame looping refl frame-Readable) blocks)

Execution-opens_example : Opens default_build libraries (raise sigalrm in_packet)
Execution-opens_example =
    Execution-opens default_build libraries record_call record_call 0 [] pause refl
      (raise sigalrm in_packet) in_packet-Reached

-- The alarm goes off between two packets, and is handled.
abbrev behind_alarm : Process
behind_alarm = record (deliver sigalrm (raise sigalrm idle)) { daemon = alarmed.0 }

is_pending : (raise sigalrm idle).pending sigalrm ≡ true
unfolding same_signal
is_pending = refl

behind_alarm-Reached : Reached (0 + 1) ([] ++ filenames alarmed.1.update) behind_alarm
behind_alarm-Reached =
    handled 0 [] pause pause (raise sigalrm idle) alarmed.0 round alarmed.1
      (raised 0 [] pause idle sigalrm looping) is_pending refl alarmed.2

Execution-Run_example :
    Run default_build libraries record_call record_call
      (0 + 1)
      ([] ++ filenames alarmed.1.update)
      pause
      alarmed.0
Execution-Run_example =
    Execution-Run default_build libraries record_call record_call (0 + 1)
      ([] ++ filenames alarmed.1.update) pause behind_alarm sigalrm behind_alarm-Reached refl

Run-Waits_example :
    Waits default_build libraries record_call record_call
      (0 + 1)
      ([] ++ filenames alarmed.1.update)
      pause
      alarmed.0
Run-Waits_example =
    Run-Waits default_build libraries record_call record_call (0 + 1)
      ([] ++ filenames alarmed.1.update) pause alarmed.0
      (Runs.alarm 0 [] pause pause first_daemon alarmed.0 round alarmed.1 first_run alarmed.2)
