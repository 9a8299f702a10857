-- ===== src/Main/Packets.antt =====
-- `process_packet` of src/main.c, which libpcap calls for each packet, without the statistics for
-- debugging that it prints. `none` is a read behind the memory, or what makes `add_url` fail.
pub mod Stages
pub mod Keeps
pub mod Flows
pub mod Responses
pub mod Accounts
pub mod Debug
pub mod Samples
mod Tests
use bismark_passive.Prelude.{
  ℕ, Bool, true, false, ◌&&◌, Option, none, some, List, drop, if◌then◌else◌, ◌==◌,
}
use bismark_passive.Prelude.Int.{ℤ, pos, negsuc, pos_part, low_bits, to_uint16}
use bismark_passive.Prelude.Printf.{◌>>=◌}
use bismark_passive.Constants.FlowId
use bismark_passive.Ethertype
use bismark_passive.Flow.{FlowTable, process_flow}
use bismark_passive.Packets.{Timeval, add_packet}
use bismark_passive.Drops
use bismark_passive.DnsParser.{process_dns_packet}
use bismark_passive.HttpParser.{is_positive, process_http_packet}
use bismark_passive.Main.{Build, Libraries, Daemon}
use bismark_passive.Main.Frames.{Extracted, get_flow_entry_for_packet}

-- `struct pcap_pkthdr`
pub record PacketHeader : Type 0 where
  pub ts : Timeval
  pub caplen : ℕ
  pub len : ℕ

-- the test `0 <= n` of an `int`
abbrev pub is_index : ℤ → Bool
is_index (pos n) = true
is_index (negsuc n) = false

module _ (build : Build) (libs : Libraries) where
  -- The `switch` on the type of the frame.
  pub flow_of_packet : FlowTable → Extracted → ℕ → FlowTable × ℕ
  flow_of_packet t x tv_sec =
      if x.ether_type == Ethertype.aarp
      then (t, FlowId.aarp)
      else if x.ether_type == Ethertype.arp
      then (t, FlowId.arp)
      else if x.ether_type == Ethertype.atalk
      then (t, FlowId.at)
      else if x.ether_type == Ethertype.ip
      then process_flow libs.platform t x.flow_entry (pos tv_sec)
      else if x.ether_type == Ethertype.ipv6
      then (t, FlowId.ipv6)
      else if x.ether_type == Ethertype.ipx
      then (t, FlowId.ipx)
      else if x.ether_type == Ethertype.revarp
      then (t, FlowId.revarp)
      else (t, FlowId.error)

  -- The packet series, and the drop statistics if it is full; with the index or -1.
  pub store_packet : PacketHeader → ℕ → Daemon → Daemon × ℤ
  store_packet header flow_id d =
      let added = add_packet libs.platform d.packet_data header.ts header.len (pos flow_id) in
      (
        record d {
          packet_data = added.0;
          drop_statistics =
              (if is_index added.1
                then d.drop_statistics
                else Drops.process_packet d.drop_statistics header.len);
        },
        added.1,
      )

  -- The DNS parser, for the response to a device on a packet that is stored.
  pub parse_dns : List ℕ → Extracted → ℤ → Daemon → Option Daemon
  parse_dns bytes x packet_id d =
      if is_positive x.dns_bytes_len && is_index x.mac_id && is_index packet_id
      then (process_dns_packet libs.dn_expand (drop x.dns_bytes bytes) (pos_part x.dns_bytes_len)
            (to_uint16 packet_id) (low_bits 256 x.mac_id) d.dns_table
          >>= λ r. some (record d { dns_table = r.0 }))
      else some d

  -- The parser of requests.
  pub parse_http : List ℕ → Extracted → ℕ → Daemon → Option Daemon
  parse_http bytes x flow_id d =
      if build.http_url && is_positive x.http_bytes_len
      then (process_http_packet libs.sha1_hmac d.anonymizer (drop x.http_bytes bytes)
            x.http_bytes_len d.http_table flow_id
          >>= λ r. some (record d { http_table = r.0 }))
      else some d

  -- What follows the extraction.
  unfoldable pub account : PacketHeader → List ℕ → Extracted → Daemon → Option Daemon
  unfolding flow_of_packet store_packet parse_dns parse_http
  account header bytes x d =
      let flow = flow_of_packet d.flow_table x header.ts.tv_sec in
      let stored = store_packet header flow.1 (record d { flow_table = flow.0 }) in
      parse_dns bytes x stored.1 stored.0 >>= parse_http bytes x flow.1

  unfoldable pub process_packet : PacketHeader → List ℕ → Daemon → Option Daemon
  unfolding account
  process_packet header bytes d =
      get_flow_entry_for_packet build bytes header.caplen header.len d >>= λ r.
      account header bytes r.1 r.0
