-- ===== src/Main/Frames.antt =====
-- `get_flow_entry_for_packet` of src/main.c: the addresses, protocol and ports of a captured frame. The
-- frame is memory from `bytes` on, and pointers into it are offsets; `none` is a read behind the
-- memory. The hardware addresses stand in front of the type, which is read in any case.
pub mod Reads
pub mod Fields
pub mod Extracts
pub mod Requests
use bismark_passive.Prelude.{
  ℕ, ◌+◌, ◌-◌, ◌*◌, ◌/◌, ◌%◌, Bool, ◌&&◌, Option, none, some, List, if◌then◌else◌, ltb, ◌==◌,
}
use bismark_passive.Prelude.Int.{ℤ, pos, negsuc, ◌-ℤ◌, eqb_ℤ}
use bismark_passive.Prelude.Printf.{◌>>=◌}
use bismark_passive.Ethertype
use bismark_passive.Bytes.{byte_at, read16, read32, array_at}
use bismark_passive.Flow.{FlowEntry, flow_table_entry_init}
use bismark_passive.Address.{AddressTable}
use bismark_passive.Address
use bismark_passive.Devices.{DeviceTable, record_bytes}
use bismark_passive.Main.{Build, Daemon}

-- `ETHER_HDR_LEN`, `IPPROTO_TCP`, `IPPROTO_UDP`, `NS_DEFAULTPORT`, `sizeof(struct tcphdr)` and
-- `sizeof(struct udphdr)` of the system's headers
abbrev pub ether_hdr_len : ℕ
ether_hdr_len = 14

abbrev pub ipproto_tcp : ℕ
ipproto_tcp = 6

abbrev pub ipproto_udp : ℕ
ipproto_udp = 17

abbrev pub ns_defaultport : ℕ
ns_defaultport = 53

abbrev pub tcp_header_size : ℕ
tcp_header_size = 20

abbrev pub udp_header_size : ℕ
udp_header_size = 8

-- What the function leaves in the variables of its caller.
pub record Extracted : Type 0 where
  pub ether_type : ℕ
  pub flow_entry : FlowEntry
  pub mac_id : ℤ
  pub dns_bytes : ℕ
  pub dns_bytes_len : ℤ
  pub http_bytes : ℕ
  pub http_bytes_len : ℤ

-- The caller's initial values, with the type of the frame.
abbrev pub unextracted : ℕ → Extracted
unextracted ether_type = record {
  ether_type = ether_type;
  flow_entry = flow_table_entry_init;
  mac_id = negsuc 0;
  dns_bytes = 0;
  dns_bytes_len = negsuc 0;
  http_bytes = 0;
  http_bytes_len = negsuc 0;
}

-- The calls for the source and, if that returns 0, for the destination.
pub record_devices : Build → DeviceTable → List ℕ → List ℕ → ℕ → DeviceTable
record_devices build t shost dhost full_length =
    let source = record_bytes t shost full_length in
    if build.frequent_updates
    then (if eqb_ℤ source.1 (pos 0) then (record_bytes source.0 dhost full_length).0 else source.0)
    else t

abbrev pub with_ports : Extracted → ℕ → ℕ → Extracted
with_ports x source dest = record x {
  flow_entry = record x.flow_entry { port_source = source; port_destination = dest };
}

-- The assignments to `*http_bytes`, `*dns_bytes` and their lengths.
abbrev pub with_request : Extracted → ℕ → ℕ → Extracted
with_request x at cap_length = record x {
  http_bytes = at;
  http_bytes_len = pos cap_length -ℤ pos at;
}

abbrev pub with_response : Extracted → ℤ → ℕ → ℕ → Extracted
with_response x mac_id at cap_length = record x {
  mac_id = mac_id;
  dns_bytes = at;
  dns_bytes_len = pos cap_length -ℤ pos at;
}

-- The length that is skipped behind the fixed part of a TCP header, for a data offset in words.
pub skipped : ℕ → ℕ
skipped doff =
    let hlen = doff * 4 in if ltb tcp_header_size hlen then hlen - tcp_header_size else hlen

module _ (build : Build) (bytes : List ℕ) (cap_length : ℕ) where
  -- The branches for TCP and for UDP, with the offset of the header.
  pub tcp_packet : ℕ → Extracted → Option Extracted
  unfolding skipped
  tcp_packet tcp_header x = read16 bytes tcp_header >>= λ source.
      read16 bytes (tcp_header + 2) >>= λ dest.
      if build.http_url && dest == 80
      then (byte_at bytes (tcp_header + 12) >>= λ offset_bits.
          let http_bytes = tcp_header + tcp_header_size + skipped (offset_bits / 16) in
          some (with_request (with_ports x source dest) http_bytes cap_length))
      else some (with_ports x source dest)

  pub udp_packet : ℕ → List ℕ → AddressTable → Extracted → Option (AddressTable × Extracted)
  udp_packet udp_header dhost addresses x = read16 bytes udp_header >>= λ source.
      read16 bytes (udp_header + 2) >>= λ dest.
      let found = Address.lookup addresses x.flow_entry.ip_destination dhost in
      let dns_bytes = udp_header + udp_header_size in
      if source == ns_defaultport
      then some (found.0, with_response (with_ports x source dest) found.1 dns_bytes cap_length)
      else some (addresses, with_ports x source dest)

  -- The branches on the transport protocol.
  pub transport_packet : ℕ → List ℕ → AddressTable → Extracted → Option (AddressTable × Extracted)
  unfolding tcp_packet udp_packet
  transport_packet header dhost addresses x =
      if x.flow_entry.transport_protocol == ipproto_tcp
      then (tcp_packet header x >>= λ x'. some (addresses, x'))
      else if x.flow_entry.transport_protocol == ipproto_udp
      then udp_packet header dhost addresses x
      else some (addresses, x)

  -- The branch for IP.
  pub ip_packet : List ℕ → List ℕ → AddressTable → Extracted → Option (AddressTable × Extracted)
  unfolding transport_packet
  ip_packet shost dhost addresses x = byte_at bytes ether_hdr_len >>= λ version_ihl.
      byte_at bytes (ether_hdr_len + 9) >>= λ protocol.
      read32 bytes (ether_hdr_len + 12) >>= λ saddr. read32 bytes (ether_hdr_len + 16) >>= λ daddr.
      let after_source = (Address.lookup addresses saddr shost).0 in
      let after_destination = (Address.lookup after_source daddr dhost).0 in
      transport_packet (ether_hdr_len + version_ihl % 16 * 4) dhost after_destination (record x {
        flow_entry = record x.flow_entry {
          ip_source = saddr;
          ip_destination = daddr;
          transport_protocol = protocol;
        };
      })

  -- `get_flow_entry_for_packet`
  pub get_flow_entry_for_packet : ℕ → Daemon → Option (Daemon × Extracted)
  unfolding record_devices ip_packet
  get_flow_entry_for_packet full_length d = array_at bytes 0 6 >>= λ dhost.
      array_at bytes 6 6 >>= λ shost. read16 bytes 12 >>= λ ether_type.
      let devices = record_devices build d.device_throughput_table shost dhost full_length in
      if ether_type == Ethertype.ip
      then (ip_packet shost dhost d.address_table (unextracted ether_type) >>= λ r.
          some (record d { device_throughput_table = devices; address_table = r.0 }, r.1))
      else some (record d { device_throughput_table = devices }, unextracted ether_type)
