-- ===== src/Main/Runs/Samples.antt =====
-- The start of a run and its first alarm, on which the tests run the theorems.
use bismark_passive.Prelude.{zero, suc, ℕ, ◌≡◌, refl, true, some, List, [], ◌∷◌, ◌++◌, replicate}
use bismark_passive.Prelude.Printf.{Call, record_call}
use bismark_passive.Samples.{length-hmac}
use bismark_passive.Bloom
use bismark_passive.Bloom.Hashes.{bloom_lookup-load}
use bismark_passive.Anonymization.{
  Anonymizer, anonymization_init, init_hex_seed_digest, anonymization_process,
}
use bismark_passive.Util.{buffer_to_hex, hex_loop}
use bismark_passive.Dns.{dns_table_init}
use bismark_passive.Main.{Daemon}
use bismark_passive.Main.Identity.{initialize_bismark_id}
use bismark_passive.Main.Start.{
  static_bloom, initialize_bloom_whitelist, start, whitelist_of_argument, initialized_daemon,
  static_whitelist,
}
use bismark_passive.Main.Start.Ready.{start-Consistent}
use bismark_passive.Main.Signals.{handle_signals, sigalrm, returned, Written, next_alarm}
use bismark_passive.Main.Signals.Returns.{handle_signals-returned}
use bismark_passive.Main.Samples.{identity, default_build, libraries, inputs, answer, round}
use bismark_passive.Main.Runs.{Run, started}

-- The digits of "07".
abbrev pub sevens : ℕ → List ℕ
sevens zero = []
sevens (suc n) = 48 ∷ 55 ∷ sevens n

abbrev pub seeded : Anonymizer
seeded = record { seed = replicate 16 1; seed_hex_digest = 48 ∷ 49 ∷ sevens 19; initialized = true }

abbrev pub first_daemon : Daemon
first_daemon = initialized_daemon default_build libraries inputs identity static_whitelist seeded

pub starts : start default_build libraries inputs ≡ some first_daemon
unfolding start initialize_bismark_id whitelist_of_argument anonymization_init init_hex_seed_digest
    anonymization_process buffer_to_hex hex_loop replicate
starts = refl

pub filter-lookup :
    (name : List ℕ) → Bloom.lookup first_daemon.dns_table.bloom name ≡ some (answer name)
unfolding initialized_daemon dns_table_init initialize_bloom_whitelist
filter-lookup name = bloom_lookup-load static_bloom (255 ∷ 1 ∷ []) name

abbrev pub first_run :
    Run default_build libraries record_call record_call 0 [] (next_alarm default_build) first_daemon
first_run = started inputs first_daemon starts

-- The first alarm, and the state behind it.
abbrev pub Alarmed : Type 0
Alarmed =
    (d' : Daemon) × (w : Written (List Call) (List Call)) × (handle_signals default_build libraries
        record_call record_call sigalrm round first_daemon
      ≡ some (returned d' (next_alarm default_build) w))

pub alarmed : Alarmed
alarmed =
    handle_signals-returned default_build libraries record_call record_call first_daemon
      (start-Consistent default_build libraries inputs first_daemon starts).consistent answer
      length-hmac filter-lookup refl refl (λ h c. (h ++ c ∷ [], refl)) [] round refl refl refl
