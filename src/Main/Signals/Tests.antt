-- ===== src/Main/Signals/Tests.antt =====
-- The first alarm after the start.
use bismark_passive.Prelude.{ℕ, length, ◌≡◌, refl, some, List, [], ◌∷◌, ◌++◌}
use bismark_passive.Prelude.Printf.{◌>>=◌, Call, record_call, put_all}
use bismark_passive.Samples.{length-hmac, anonymizer}
use bismark_passive.Bloom
use bismark_passive.Bloom.Hashes.{bloom_lookup-load}
use bismark_passive.Dns.{dns_table_init}
use bismark_passive.Main.Consistent.{Consistent}
use bismark_passive.Main.Start.{initialized_daemon, initialize_bloom_whitelist, static_bloom}
use bismark_passive.Main.Start.Ready.{initialized_daemon-Ready}
use bismark_passive.Main.{Daemon}
use bismark_passive.Main.Updates.{write_update, staged_if, next_period, update_filename}
use bismark_passive.Main.Updates.Report.{main-write_update, noted, preamble, tables}
use bismark_passive.Main.Signals.{Handled, sigalrm, handle_signals, count_alarm}
use bismark_passive.Main.Signals.Alarms.{Ends}
use bismark_passive.Main.Signals.Returns.{handle_signals-Ends}
use bismark_passive.Main.Samples.{
  identity, default_build, libraries, inputs, daemon, answer, answers, round,
}

daemon-Consistent : Consistent libraries daemon
daemon-Consistent =
    (initialized_daemon-Ready default_build libraries inputs identity
      (record { domains = []; size = 0 }) anonymizer refl).consistent

filter-lookup : (name : List ℕ) → Bloom.lookup daemon.dns_table.bloom name ≡ some (answer name)
unfolding initialized_daemon dns_table_init initialize_bloom_whitelist
filter-lookup name = bloom_lookup-load static_bloom (255 ∷ 1 ∷ []) name

main-write_update_example : write_update default_build libraries record_call answers daemon ≡ (
    answers.handle >>= λ h.
    put_all record_call h (
      preamble daemon answers.current_timestamp answers.statistics
      ++ tables libraries answer daemon)
    >>= λ contents. staged_if answers.renamed (
      next_period default_build libraries answers.current_timestamp (noted daemon),
      record { filename = update_filename daemon; contents = contents },
    ))
main-write_update_example =
    main-write_update default_build libraries record_call daemon answer daemon-Consistent.addresses
      daemon-Consistent.initialized length-hmac filter-lookup refl answers

-- A device that has transferred 70 bytes.
abbrev with_device : Daemon
with_device = record daemon {
  device_throughput_table = record {
    entries = record { mac_address = 1 ∷ 2 ∷ 3 ∷ 4 ∷ 5 ∷ 6 ∷ []; bytes_transferred = 70 } ∷ [];
    length = 1;
  };
}

handle_signals-Ends_example :
    (h : Handled (List Call) (List Call)) × (handle_signals default_build libraries record_call
        record_call sigalrm round daemon
      ≡ some h)
    × Ends default_build libraries (count_alarm daemon) h
handle_signals-Ends_example =
    handle_signals-Ends default_build libraries record_call record_call daemon daemon-Consistent
      answer length-hmac filter-lookup refl refl (λ h c. (h ++ c ∷ [], refl)) [] round refl refl
