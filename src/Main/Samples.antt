-- ===== src/Main/Samples.antt =====
-- A build, the libraries and a state of the program, on which the tests run the theorems.
use bismark_passive.Prelude.{
  ◌&&◌, ◌%◌, ℕ, true, false, none, some, List, [], ◌∷◌, if◌then◌else◌, ltb, replicate, ◌++◌,
}
use bismark_passive.Prelude.Int.{ℤ, pos, negsuc}
use bismark_passive.Prelude.Printf.{Call}
use bismark_passive.Bloom
use bismark_passive.Samples.{platform, hmac, anonymizer}
use bismark_passive.DnsParser.{DnExpand}
use bismark_passive.Packets.{Timeval}
use bismark_passive.Main.{Build, Libraries, Daemon}
use bismark_passive.Main.Updates.{Answers}
use bismark_passive.Main.Signals.{Round}
use bismark_passive.Main.Identity.{Identity}
use bismark_passive.Main.Start.{Inputs, static_bloom, initialized_daemon}

abbrev pub default_build : Build
default_build = record {
  frequent_updates = false;
  http_url = false;
  update_period_seconds = 30;
  frequent_update_period_seconds = 5;
}

abbrev pub full_build : Build
full_build = record {
  frequent_updates = true;
  http_url = true;
  update_period_seconds = 30;
  frequent_update_period_seconds = 5;
}

-- Every name inside a message is the root, of one byte.
abbrev pub expand_root : DnExpand
expand_root bytes len offset = if ltb offset len then some (1, []) else none

abbrev pub libraries : Libraries
libraries = record { platform = platform; sha1_hmac = hmac; dn_expand = expand_root }

abbrev pub now : Timeval
now = record { tv_sec = 1300000000; tv_usec = 5 }

abbrev pub inputs : Inputs
inputs = record {
  now = now;
  id_file = some (79 ∷ 87 ∷ 10 ∷ []);
  whitelist_file = none;
  heap = [];
  filter_file = some (255 ∷ 1 ∷ []);
  seed_file = some (replicate 16 1);
  sigaction = λ _. pos 0;
  datalink = some 1;
}

abbrev pub identity : Identity
identity = record { bismark_id = 79 ∷ 87 ∷ []; bismark_mac = 0 ∷ 0 ∷ 0 ∷ 0 ∷ 0 ∷ 0 ∷ [] }

abbrev pub daemon : Daemon
daemon =
    initialized_daemon default_build libraries inputs identity (record { domains = []; size = 0 })
      anonymizer

-- An IPv4 frame with a UDP header from port 53 to port 1024, to 10.0.0.1.
abbrev pub response_start : List ℕ
response_start =
    1 ∷ 1 ∷ 1 ∷ 1 ∷ 1 ∷ 1 ∷ 2 ∷ 2 ∷ 2 ∷ 2 ∷ 2 ∷ 2 ∷ 8 ∷ 0 ∷ 69 ∷ 0 ∷ 0 ∷ 40 ∷ 0 ∷ 0 ∷ 0 ∷ 0 ∷ 64
    ∷ 17 ∷ 0 ∷ 0 ∷ 8 ∷ 8 ∷ 8 ∷ 8 ∷ 10 ∷ 0 ∷ 0 ∷ 1 ∷ 0 ∷ 53 ∷ 4 ∷ 0 ∷ 0 ∷ 20 ∷ 0 ∷ 0 ∷ []

abbrev pub frame : List ℕ
frame = response_start ++ replicate 60 0

-- what the filter answers
abbrev pub answer : List ℕ → ℤ
answer name =
    let l = (Bloom.load (Bloom.bloom_whitelist_init static_bloom) (some (255 ∷ 1 ∷ []))).0 in
    if Bloom.get_bit l.a (Bloom.sax_hash name % 2500000)
      && Bloom.get_bit l.a (Bloom.sdbm_hash name % 2500000)
    then pos 0
    else negsuc 0

abbrev pub answers : Answers (List Call)
answers = record {
  handle = some [];
  renamed = true;
  current_timestamp = pos 1300000030;
  statistics = none;
}

abbrev pub round : Round (List Call) (List Call)
round = record {
  update = answers;
  frequent_update = answers;
  flow_log = none;
  upload_failures = none;
}
