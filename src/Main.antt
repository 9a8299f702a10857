-- ===== src/Main.antt =====
-- src/main.c: the state of the program. The build has anonymization, flow thresholding and the
-- Bloom filter on, as by default; frequent updates and the URLs of requests are options. The `int`
-- sequence numbers are numbers without bounds.
pub mod Frames
pub mod Consistent
pub mod Samples
pub mod Packets
pub mod Updates
pub mod Signals
pub mod Identity
pub mod Start
pub mod Runs
pub mod Interleavings
use bismark_passive.Prelude.{ℕ, Bool, List, [], replicate}
use bismark_passive.Prelude.Int.{pos}
use bismark_passive.Constants.{packet_data_buffer_entries, http_table_url_entries}
use bismark_passive.Platform.{Platform}
use bismark_passive.Anonymization.{Hmac, Anonymizer}
use bismark_passive.Packets.{PacketSeries, PacketData}
use bismark_passive.Flow.{FlowTable}
use bismark_passive.Dns.{DnsTable}
use bismark_passive.DnsParser.{DnExpand}
use bismark_passive.Http.{HttpTable}
use bismark_passive.Address.{AddressTable}
use bismark_passive.Whitelist.{Whitelist}
use bismark_passive.Bloom.{Bloom}
use bismark_passive.Drops.{DropStatistics}
use bismark_passive.Devices.{DeviceTable}
use bismark_passive.Uploads.{UploadFailures}

-- The options of the build, and the two periods in seconds.
pub record Build : Type 0 where
  pub frequent_updates : Bool
  pub http_url : Bool
  pub update_period_seconds : ℕ
  pub frequent_update_period_seconds : ℕ

-- The machine and the libraries.
pub record Libraries : Type 0 where
  pub platform : Platform
  pub sha1_hmac : Hmac
  pub dn_expand : DnExpand

-- The static variables, those of src/anonymization.c included.
pub record Daemon : Type 0 where
  pub packet_data : PacketSeries
  pub flow_table : FlowTable
  pub dns_table : DnsTable
  pub http_table : HttpTable
  pub address_table : AddressTable
  pub domain_whitelist : Whitelist
  pub bloom_whitelist : Bloom
  pub drop_statistics : DropStatistics
  pub device_throughput_table : DeviceTable
  pub upload_failures : UploadFailures
  pub anonymizer : Anonymizer
  pub bismark_id : List ℕ
  pub bismark_mac : List ℕ
  pub start_timestamp_microseconds : ℕ
  pub sequence_number : ℕ
  pub frequent_sequence_number : ℕ
  pub alarm_count : ℕ

-- The array of packets that `packet_series_init` leaves, and `http_table_init`: all bytes zero
abbrev pub zeroed_packets : List PacketData
zeroed_packets =
    replicate packet_data_buffer_entries (record { timestamp = pos 0; size = 0; flow = 0 })

abbrev pub http_table_init : HttpTable
http_table_init = record {
  entries = replicate http_table_url_entries (record { flow_id = 0; url = [] });
  length = 0;
  num_dropped_url_entries = 0;
}
