-- ===== src/Main/Updates.antt =====
-- `write_flow_log`, `write_update` and `write_frequent_update` of src/main.c. The two kinds of files,
-- compressed and plain, are those of zlib and of stdio; what their calls return is given. `none`
-- stands for `exit(1)`, and for a step of a component that goes wrong.
pub mod Report
pub mod Keeps
pub mod Frequent
pub mod FrequentReport
use bismark_passive.Prelude.{
  ℕ, ◌+◌, Bool, true, false, Option, none, some, List, [], ◌∷◌, if◌then◌else◌, ◌==◌,
}
use bismark_passive.Prelude.Int.{ℤ, pos}
use bismark_passive.Prelude.Printf.{◌>>=◌, Call, Printf, int, uint, str, blank_line}
use bismark_passive.Util.{buffer_to_hex, Hex, null, overrun, text}
use bismark_passive.Anonymization.{anonymization_write_update}
use bismark_passive.Whitelist
use bismark_passive.Packets
use bismark_passive.Flow.Update
use bismark_passive.Dns
use bismark_passive.Address
use bismark_passive.Drops
use bismark_passive.Http
use bismark_passive.Devices
use bismark_passive.Main.{Build, Libraries, Daemon, zeroed_packets, http_table_init}

abbrev pub file_format_version : ℕ
file_format_version = 5

abbrev pub frequent_file_format_version : ℕ
frequent_file_format_version = 3

-- `BUILD_ID`, which is "UNKNOWN" unless the build sets it
abbrev pub build_id : List ℕ
build_id = 85 ∷ 78 ∷ 75 ∷ 78 ∷ 79 ∷ 87 ∷ 78 ∷ []

-- `struct pcap_stat`
pub record Statistics : Type 0 where
  pub ps_recv : ℕ
  pub ps_drop : ℕ
  pub ps_ifdrop : ℕ

-- What the calls of the system return during a write: the file if it can be opened, whether it can
-- be renamed, the time, and the statistics if there is a handle that has them.
pub record Answers (H : Type 0) : Type 0 where
  pub handle : Option H
  pub renamed : Bool
  pub current_timestamp : ℤ
  pub statistics : Option Statistics

-- A file that is staged: its name, and what was written.
pub record Staged (H : Type 0) : Type 0 where
  pub filename : Call
  pub contents : H

abbrev pub version_line : Call
version_line = record {
  format = "%d\n%s\n";
  args = int (pos file_format_version) ∷ str build_id ∷ [];
}

pub id_line : Daemon → ℤ → Call
id_line d current_timestamp = record {
  format = "%s %PRId64 %d %PRId64\n";
  args =
      str d.bismark_id
      ∷ int (pos d.start_timestamp_microseconds)
      ∷ int (pos d.sequence_number)
      ∷ int current_timestamp
      ∷ [];
}

pub statistics_line : Statistics → Call
statistics_line s = record {
  format = "%u %u %u\n";
  args = uint s.ps_recv ∷ uint s.ps_drop ∷ uint s.ps_ifdrop ∷ [];
}

abbrev pub update_filename : Daemon → Call
update_filename d = record {
  format = "/tmp/bismark-uploads/passive/%s-%PRIu64-%d.gz";
  args = str d.bismark_id ∷ uint d.start_timestamp_microseconds ∷ int (pos d.sequence_number) ∷ [];
}

pub frequent_update_filename : Daemon → Call
frequent_update_filename d = record {
  format = "/tmp/bismark-uploads/passive-frequent/%s-%PRIu64-%d";
  args =
      str d.bismark_id
      ∷ uint d.start_timestamp_microseconds
      ∷ int (pos d.frequent_sequence_number)
      ∷ [];
}

abbrev pub staged_if : {A : Type 0} → Bool → A → Option A
staged_if true a = some a
staged_if false a = none

-- What is left after a successful update.
pub next_period : Build → Libraries → ℤ → Daemon → Daemon
next_period build libs current_timestamp d = record d {
  sequence_number = d.sequence_number + 1;
  packet_data = Packets.packet_series_init zeroed_packets;
  flow_table = Update.advance_base_timestamp d.flow_table current_timestamp;
  dns_table = Dns.dns_table_init (some d.domain_whitelist) d.bloom_whitelist;
  http_table = (if build.http_url then http_table_init else d.http_table);
  drop_statistics = Drops.drop_statistics_init libs.platform d.drop_statistics;
}

module _ (build : Build) (libs : Libraries) {G : Type 0} (gzprintf : Printf G) where
  abbrev pub write_statistics : Option Statistics → G → Option G
  write_statistics none handle = some handle
  write_statistics (some s) handle = gzprintf handle (statistics_line s)

  pub write_whitelist : Daemon → G → Option G
  write_whitelist d handle =
      if d.sequence_number == 0
      then Whitelist.write_update gzprintf d.domain_whitelist handle
      else gzprintf handle blank_line

  -- The lines in front of the tables.
  pub write_preamble : Daemon → ℤ → Option Statistics → G → Option G
  unfolding write_whitelist
  write_preamble d current_timestamp statistics handle = do
    handle₁ ← gzprintf handle version_line
    handle₂ ← gzprintf handle₁ (id_line d current_timestamp)
    handle₃ ← write_statistics statistics handle₂
    handle₄ ← gzprintf handle₃ blank_line
    handle₅ ← write_whitelist d handle₄
    anonymization_write_update gzprintf d.anonymizer handle₅

  pub write_urls : Daemon → G → Option G
  write_urls d handle =
      if build.http_url then Http.write_update gzprintf d.http_table handle else some handle

  -- The tables, two of which note what has been sent.
  pub write_tables : Daemon → G → Option (Daemon × G)
  unfolding write_urls
  write_tables d handle = do
    handle₁ ← Packets.write_update gzprintf d.packet_data handle
    (flows, handle₂) ←
        Update.write_update libs.sha1_hmac libs.platform d.anonymizer gzprintf d.flow_table handle₁
    handle₃ ←
        Dns.write_update libs.sha1_hmac libs.platform d.anonymizer gzprintf d.dns_table handle₂
    (addresses, handle₄) ←
        Address.write_update libs.sha1_hmac libs.platform d.anonymizer gzprintf d.address_table
          handle₃
    handle₅ ← Drops.write_update gzprintf d.drop_statistics handle₄
    handle₆ ← write_urls d handle₅
    some (record d { flow_table = flows; address_table = addresses }, handle₆)

  -- `write_update`: the state after it, and the file that is staged.
  pub write_update : Answers G → Daemon → Option (Daemon × Staged G)
  unfolding next_period write_preamble write_tables
  write_update system d = do
    handle₀ ← system.handle
    handle₁ ← write_preamble d system.current_timestamp system.statistics handle₀
    (d', contents) ← write_tables d handle₁
    staged_if system.renamed (
      next_period build libs system.current_timestamp d',
      record { filename = update_filename d; contents = contents },
    )

module _ (libs : Libraries) {F : Type 0} (fprintf : Printf F) where
  -- `write_flow_log`: what is in the log, if it can be written.
  pub write_flow_log : Option F → Daemon → Option F
  write_flow_log log d = do
    handle ← log
    Update.write_thresholded_ips fprintf d.flow_table d.start_timestamp_microseconds
        (pos d.sequence_number) handle

  abbrev pub mac_line : Hex → Option Call
  mac_line (text s) = some (record { format = "%s\n\n"; args = str s ∷ [] })
  mac_line _ = none

  abbrev pub number_line : ℤ → Call
  number_line n = record { format = "%d\n"; args = int n ∷ [] }

  abbrev pub timestamp_line : ℤ → Call
  timestamp_line n = record { format = "%PRId64\n"; args = int n ∷ [] }

  -- `write_frequent_update`
  pub write_frequent_update : Answers F → Daemon → Option (Daemon × Staged F)
  unfolding frequent_update_filename
  write_frequent_update system d = do
    handle₀ ← system.handle
    handle₁ ← fprintf handle₀ (number_line (pos frequent_file_format_version))
    handle₂ ← fprintf handle₁ (timestamp_line system.current_timestamp)
    line ← mac_line (buffer_to_hex d.bismark_mac)
    handle₃ ← fprintf handle₂ line
    contents ←
        Devices.write_update libs.sha1_hmac d.anonymizer fprintf d.device_throughput_table handle₃
    staged_if system.renamed (
      record d {
        frequent_sequence_number = d.frequent_sequence_number + 1;
        device_throughput_table = Devices.device_throughput_table_init d.device_throughput_table;
      },
      record { filename = frequent_update_filename d; contents = contents },
    )
