-- ===== src/Main/Start.antt =====
-- `main` of src/main.c up to the loop of libpcap, and the functions that initialize the rest. What the
-- system gives is an argument.
pub mod Ready
pub mod Lists
mod Tests
use bismark_passive.Prelude.{
  ℕ, Bool, true, false, ◌++◌, Option, none, some, List, [], ◌∷◌, if◌then◌else◌, take, replicate,
  ◌==◌, ◌+◌, ◌&&◌, ◌||◌, not,
}
use bismark_passive.Prelude.Int.{ℤ, pos, negsuc, ltb_ℤ}
use bismark_passive.Prelude.Printf.{◌>>=◌}
use bismark_passive.Constants.{drop_statistics_maximum_packet_size, device_throughput_table_size}
use bismark_passive.Packets.{Timeval, microseconds, packet_series_init}
use bismark_passive.Anonymization.{Hmac, Anonymizer, anonymization_init, anonymize_mac}
use bismark_passive.Whitelist.{Whitelist, domain_whitelist_init}
use bismark_passive.Whitelist
use bismark_passive.Bloom.{Bloom, bloom_whitelist_init}
use bismark_passive.Bloom
use bismark_passive.Flow.{flow_table_init}
use bismark_passive.Dns.{dns_table_init}
use bismark_passive.Address.{address_table_init}
use bismark_passive.Drops.{DropStatistics, drop_statistics_init}
use bismark_passive.Devices.{DeviceTable, no_device, device_throughput_table_init}
use bismark_passive.Uploads.{UploadFailures, upload_failures_init}
use bismark_passive.Main.Identity.{Identity, initialize_bismark_id}
use bismark_passive.Main.Signals.{Signal, sigint, sigterm, sigalrm}
use bismark_passive.Main.{Build, Libraries, Daemon, zeroed_packets, http_table_init}

-- What the system gives at the start: the time, the file of the ID, the file of the whitelist if there
-- is an argument, the memory behind the buffer that it is read into, the files of the filter and of the
-- seed, what `sigaction` returns for each signal, and the type of the link if libpcap opens the
-- interface. `none` is a file that cannot be read, or an interface that cannot be opened.
pub record Inputs : Type 0 where
  pub now : Timeval
  pub id_file : Option (List ℕ)
  pub whitelist_file : Option (Option (List ℕ))
  pub heap : List ℕ
  pub filter_file : Option (List ℕ)
  pub seed_file : Option (List ℕ)
  pub sigaction : Signal → ℤ
  pub datalink : Option ℕ

-- Static variables are zero.
abbrev pub static_whitelist : Whitelist
static_whitelist = record { domains = []; size = 0 }

abbrev pub static_bloom : Bloom
static_bloom = record { asize = 0; a = []; nfuncs = 0; funcs = none }

abbrev pub static_drops : DropStatistics
static_drops = record { packet_sizes = replicate (drop_statistics_maximum_packet_size + 1) 0 }

abbrev pub static_devices : DeviceTable
static_devices = record { entries = replicate device_throughput_table_size no_device; length = 0 }

abbrev pub static_failures : UploadFailures
static_failures = record { num_failures = pos 0; valid = false }

abbrev pub static_anonymizer : Anonymizer
static_anonymizer = record { seed = replicate 16 0; seed_hex_digest = []; initialized = false }

-- The characters of a string in memory, up to its final 0; `none` if the memory ends before.
pub c_string : List ℕ → Option (List ℕ)
c_string [] = none
c_string (c ∷ cs) =
    let rest = c_string cs in if c == 0 then some [] else (rest >>= λ s. some (c ∷ s))

-- `initialize_domain_whitelist`, on the bytes of the file: no byte is not an item for `fread`. The
-- buffer is as long as the file, and what follows it in memory is read up to a 0.
pub initialize_domain_whitelist : List ℕ → Option (List ℕ) → Whitelist → Option (Whitelist × ℤ)
unfolding c_string
initialize_domain_whitelist heap none w = some (domain_whitelist_init w, negsuc 0)
initialize_domain_whitelist heap (some []) w = some (domain_whitelist_init w, negsuc 0)
initialize_domain_whitelist heap (some (c ∷ contents)) w =
    c_string (c ∷ (contents ++ heap)) >>= λ s. some (Whitelist.load s, pos 0)

-- The whitelist of `main`, whose failure is only reported.
unfoldable pub whitelist_of_argument : List ℕ → Option (Option (List ℕ)) → Option Whitelist
unfolding initialize_domain_whitelist
whitelist_of_argument heap none = some static_whitelist
whitelist_of_argument heap (some file) =
    initialize_domain_whitelist heap file static_whitelist >>= λ r. some r.0

-- `initialize_bloom_whitelist`, whose failure is only reported
unfoldable pub initialize_bloom_whitelist : Option (List ℕ) → Bloom → Bloom × ℤ
initialize_bloom_whitelist file b = Bloom.load (bloom_whitelist_init b) file

abbrev pub proceed_if : {A : Type 0} → Bool → A → Option A
proceed_if true a = some a
proceed_if false a = none

abbrev or_unchanged : List ℕ → Option (List ℕ) → List ℕ
or_unchanged mac none = mac
or_unchanged mac (some digest) = digest

-- The address of the router: its digest in a build with frequent updates, if there is one.
pub router_mac : Build → Libraries → Anonymizer → List ℕ → List ℕ
router_mac build libs a mac =
    if build.frequent_updates then or_unchanged mac (anonymize_mac libs.sha1_hmac a mac) else mac

-- the test `n == 0` of an `int`
abbrev eq_zero : ℤ → Bool
eq_zero (pos n) = n == 0
eq_zero (negsuc n) = false

-- `initialize_signal_handler`, but for the set of the signals to block; false for its exit.
pub initialize_signal_handler : (Signal → ℤ) → Bool
initialize_signal_handler sigaction = not (
    ltb_ℤ (sigaction sigint) (pos 0)
    || ltb_ℤ (sigaction sigterm) (pos 0)
    || not (eq_zero (sigaction sigalrm)))

-- `DLT_EN10MB`
abbrev pub dlt_en10mb : ℕ
dlt_en10mb = 1

-- `initialize_pcap`; false for its result NULL.
pub initialize_pcap : Option ℕ → Bool
initialize_pcap none = false
initialize_pcap (some link) = link == dlt_en10mb

-- The tables as the calls of the initializers leave them.
unfoldable pub initialized_daemon :
    Build → Libraries → Inputs → Identity → Whitelist → Anonymizer → Daemon
unfolding router_mac initialize_bloom_whitelist
initialized_daemon build libs inputs identity whitelist a =
    let bloom = (initialize_bloom_whitelist inputs.filter_file static_bloom).0 in
    record {
      packet_data = packet_series_init zeroed_packets;
      flow_table = flow_table_init;
      dns_table = dns_table_init (some whitelist) bloom;
      http_table = http_table_init;
      address_table = address_table_init;
      domain_whitelist = whitelist;
      bloom_whitelist = bloom;
      drop_statistics = drop_statistics_init libs.platform static_drops;
      device_throughput_table = device_throughput_table_init static_devices;
      upload_failures = upload_failures_init static_failures;
      anonymizer = a;
      bismark_id = identity.bismark_id;
      bismark_mac = router_mac build libs a identity.bismark_mac;
      start_timestamp_microseconds = microseconds libs.platform inputs.now;
      sequence_number = 0;
      frequent_sequence_number = 0;
      alarm_count = 0;
    }

-- `main` on an interface: the state in which the loop starts, or `none` if it returns 1, exits, or
-- reads a whitelist too far.
unfoldable pub start : Build → Libraries → Inputs → Option Daemon
unfolding whitelist_of_argument initialized_daemon initialize_signal_handler initialize_pcap
start build libs inputs = do
  identity ← initialize_bismark_id build inputs.id_file
  whitelist ← whitelist_of_argument inputs.heap inputs.whitelist_file
  a ← anonymization_init libs.sha1_hmac static_anonymizer inputs.seed_file
  proceed_if (initialize_signal_handler inputs.sigaction && initialize_pcap inputs.datalink)
      (initialized_daemon build libs inputs identity whitelist a)
