-- ===== src/Main/Frames/Reads.antt =====
-- Which frames can be read, and what is extracted from them.
use bismark_passive.Prelude.{
  ℕ, ◌+◌, ◌*◌, ◌/◌, ◌%◌, ◌≤◌, ◌<◌, ◌≡◌, refl, true, inl, inr, Bool-cases, some, List, arith, length,
  ◌==◌, ◌&&◌,
}
use bismark_passive.Prelude.Int.{pos, pos_part, ◌-ℤ◌, eqb_ℤ}
use bismark_passive.Constants.{mac_table_entries}
use bismark_passive.Ethertype
use bismark_passive.Bytes.{byte_at-some, read16-some, read32-some, array_at-some}
use bismark_passive.Address.{AddressTable}
use bismark_passive.Address
use bismark_passive.Address.Ring
use bismark_passive.Address.Lookup.{lookup-IsValid}
use bismark_passive.Address.Bounds.{lookup-lt}
use bismark_passive.Devices.{DeviceTable, record_bytes}
use bismark_passive.Devices.Sums.{record_bytes_lem}
use bismark_passive.Devices.Sums
use bismark_passive.HttpParser.{is_positive}
use bismark_passive.Main.{Build, Daemon}
use bismark_passive.Main.Frames.{
  with_request, with_response, skipped, tcp_header_size, udp_header_size, Extracted, unextracted,
  record_devices, with_ports, tcp_packet, udp_packet, transport_packet, ip_packet,
  get_flow_entry_for_packet, ether_hdr_len, ipproto_tcp, ipproto_udp, ns_defaultport,
}

-- The ids that are given to the DNS parser, and the part of the packet.
pub record Extraction (cap_length : ℕ) (x : Extracted) : Type 0 where
  pub mac_known : (i : ℕ) → x.mac_id ≡ pos i → i < mac_table_entries
  pub dns_inside :
      is_positive x.dns_bytes_len ≡ true → x.dns_bytes + pos_part x.dns_bytes_len ≡ cap_length

-- What comes out of the branches that may look up addresses.
pub record Looked (cap_length : ℕ) (r : AddressTable × Extracted) : Type 0 where
  pub addresses : Ring.IsValid r.0
  pub extraction : Extraction cap_length r.1

dns_room :
    (cap_length at : ℕ)
    → is_positive (pos cap_length -ℤ pos at) ≡ true
    → at + pos_part (pos cap_length -ℤ pos at) ≡ cap_length
unfolding ◌-ℤ◌
dns_room cap_length at e = ground arith

-- The longest IP header has 60 bytes, and 13 bytes of a TCP header are read.
abbrev pub bytes_read : ℕ
bytes_read = ether_hdr_len + 60 + 13

module _ (build : Build) (bytes : List ℕ) (cap_length : ℕ) where
  tcp_packet-some :
      (header : ℕ) (x : Extracted)
      → header + 13 ≤ length bytes
      → Extraction cap_length x
      → (x' : Extracted) × (tcp_packet build bytes cap_length header x ≡ some x')
        × Extraction cap_length x'
  unfolding tcp_packet
  tcp_packet-some header x room v =
      let (source, e₁) = read16-some bytes header (omega arith) in
      let (dest, e₂) = read16-some bytes (header + 2) (omega arith) in
      let (offset_bits, e₃) = byte_at-some bytes (header + 12) (omega arith) in
      elim (Bool-cases (build.http_url && dest == 80)) [
        | inl request ↦ (
          with_request (with_ports x source dest)
              (header + tcp_header_size + skipped (offset_bits / 16)) cap_length,
          rw (e₁, e₂, request, e₃) refl,
          record { mac_known = v.mac_known; dns_inside = v.dns_inside },
        )
        | inr other ↦ (
          with_ports x source dest,
          rw (e₁, e₂, other) refl,
          record { mac_known = v.mac_known; dns_inside = v.dns_inside },
        )
      ]

  udp_packet-some :
      (header : ℕ) (dhost : List ℕ) (addresses : AddressTable) (x : Extracted)
      → header + 4 ≤ length bytes
      → Ring.IsValid addresses
      → Extraction cap_length x
      → (r : AddressTable × Extracted) × (udp_packet build bytes cap_length header dhost addresses x
          ≡ some r)
        × Looked cap_length r
  unfolding udp_packet
  udp_packet-some header dhost addresses x room va v =
      let (source, e₁) = read16-some bytes header (omega arith) in
      let (dest, e₂) = read16-some bytes (header + 2) (omega arith) in
      let ip = x.flow_entry.ip_destination in
      elim (Bool-cases (source == ns_defaultport)) [
        | inl response ↦ (
          (
            (Address.lookup addresses ip dhost).0,
            with_response (with_ports x source dest) (Address.lookup addresses ip dhost).1
                (header + udp_header_size) cap_length,
          ),
          rw (e₁, e₂, response) refl,
          record {
            addresses = lookup-IsValid addresses ip dhost va;
            extraction = record {
              mac_known = λ i. lookup-lt addresses ip dhost i va;
              dns_inside = dns_room cap_length (header + udp_header_size);
            };
          },
        )
        | inr other ↦ (
          (addresses, with_ports x source dest),
          rw (e₁, e₂, other) refl,
          record {
            addresses = va;
            extraction = record { mac_known = v.mac_known; dns_inside = v.dns_inside };
          },
        )
      ]

  transport_packet-some :
      (header : ℕ) (dhost : List ℕ) (addresses : AddressTable) (x : Extracted)
      → header + 13 ≤ length bytes
      → Ring.IsValid addresses
      → Extraction cap_length x
      → (r : AddressTable × Extracted) × (transport_packet build bytes cap_length header dhost
            addresses x
          ≡ some r)
        × Looked cap_length r
  unfolding transport_packet
  transport_packet-some header dhost addresses x room va v =
      elim (Bool-cases (x.flow_entry.transport_protocol == ipproto_tcp)) [
        | inl tcp ↦
            let (x', e, v') = tcp_packet-some header x room v in
            ((addresses, x'), rw (tcp, e) refl, record { addresses = va; extraction = v' })
        | inr not_tcp ↦ elim (Bool-cases (x.flow_entry.transport_protocol == ipproto_udp)) [
          | inl udp ↦
              let (r, e, looked) = udp_packet-some header dhost addresses x (omega arith) va v in
              (r, rw (not_tcp, udp) e, looked)
          | inr other ↦
              ((addresses, x), rw (not_tcp, other) refl, record { addresses = va; extraction = v })
        ]
      ]

  ip_packet-some :
      (shost dhost : List ℕ) (addresses : AddressTable) (x : Extracted)
      → bytes_read ≤ length bytes
      → Ring.IsValid addresses
      → Extraction cap_length x
      → (r : AddressTable × Extracted) × (ip_packet build bytes cap_length shost dhost addresses x
          ≡ some r)
        × Looked cap_length r
  unfolding ip_packet
  ip_packet-some shost dhost addresses x room va v =
      let (version_ihl, e₁) = byte_at-some bytes ether_hdr_len (omega arith) in
      let (protocol, e₂) = byte_at-some bytes (ether_hdr_len + 9) (omega arith) in
      let (saddr, e₃) = read32-some bytes (ether_hdr_len + 12) (omega arith) in
      let (daddr, e₄) = read32-some bytes (ether_hdr_len + 16) (omega arith) in
      let x' = record x {
        flow_entry = record x.flow_entry {
          ip_source = saddr;
          ip_destination = daddr;
          transport_protocol = protocol;
        };
      } in
      let after_source = (Address.lookup addresses saddr shost).0 in
      let after_destination = (Address.lookup after_source daddr dhost).0 in
      let (r, e, looked) =
        transport_packet-some (ether_hdr_len + version_ihl % 16 * 4) dhost after_destination x'
          (omega arith) (lookup-IsValid _ daddr dhost (lookup-IsValid addresses saddr shost va))
          (record { mac_known = v.mac_known; dns_inside = v.dns_inside }) in
      (r, rw (e₁, e₂, e₃, e₄) e, looked)

record_devices-IsValid :
    (build : Build) (t : DeviceTable) (shost dhost : List ℕ) (n : ℕ)
    → Sums.IsValid t
    → Sums.IsValid (record_devices build t shost dhost n)
unfolding record_devices
record_devices-IsValid build t shost dhost n v =
    let source = record_bytes t shost n in
    let v' = (record_bytes_lem t shost n v).0 in
    elim (Bool-cases build.frequent_updates) [
      | inr off ↦ rw off v
      | inl on ↦ elim (Bool-cases (eqb_ℤ source.1 (pos 0))) [
        | inl added ↦ rw (on, added) ((record_bytes_lem source.0 dhost n v').0)
        | inr full ↦ rw (on, full) v'
      ]
    ]

-- The state in which a packet has been looked at.
pub record Seen (cap_length : ℕ) (d : Daemon) (r : Daemon × Extracted) : Type 0 where
  pub addresses : AddressTable
  pub devices : DeviceTable
  pub is : r.0 ≡ record d { device_throughput_table = devices; address_table = addresses }
  pub addresses_valid : Ring.IsValid addresses
  pub devices_valid : Sums.IsValid devices
  pub extraction : Extraction cap_length r.1

-- Nothing is read behind the first 87 bytes: the function returns, and changes the two tables of
-- addresses only.
pub get_flow_entry_for_packet-Seen :
    (build : Build) (bytes : List ℕ) (cap_length full_length : ℕ) (d : Daemon)
    → bytes_read ≤ length bytes
    → Ring.IsValid d.address_table
    → Sums.IsValid d.device_throughput_table
    → (r : Daemon × Extracted) × (get_flow_entry_for_packet build bytes cap_length full_length d
        ≡ some r)
      × Seen cap_length d r
unfolding get_flow_entry_for_packet
get_flow_entry_for_packet-Seen build bytes cap_length full_length d room va vd =
    let (dhost, e₁) = array_at-some bytes 0 6 (omega arith) in
    let (shost, e₂) = array_at-some bytes 6 6 (omega arith) in
    let (ether_type, e₃) = read16-some bytes 12 (omega arith) in
    let devices = record_devices build d.device_throughput_table shost dhost full_length in
    let vd' = record_devices-IsValid build d.device_throughput_table shost dhost full_length vd in
    let nothing : Extraction cap_length (unextracted ether_type) = record {
      mac_known = λ i e. cc;
      dns_inside = λ e. cc;
    } in
    elim (Bool-cases (ether_type == Ethertype.ip)) [
      | inl ip ↦
          let (r, e, looked) =
            ip_packet-some build bytes cap_length shost dhost d.address_table
              (unextracted ether_type) room va nothing in
          (
            (record d { device_throughput_table = devices; address_table = r.0 }, r.1),
            rw (e₁, e₂, e₃, ip, e) refl,
            record {
              addresses = r.0;
              devices = devices;
              is = refl;
              addresses_valid = looked.addresses;
              devices_valid = vd';
              extraction = looked.extraction;
            },
          )
      | inr other ↦ (
        (record d { device_throughput_table = devices }, unextracted ether_type),
        rw (e₁, e₂, e₃, other) refl,
        record {
          addresses = d.address_table;
          devices = devices;
          is = refl;
          addresses_valid = va;
          devices_valid = vd';
          extraction = nothing;
        },
      )
    ]
