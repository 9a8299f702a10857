-- ===== src/Main/Packets/Responses.antt =====
-- What the parsers leave for a packet, and what they leave alone.
use bismark_passive.Prelude.{
  ℕ, ◌^◌, ◌<◌, ◌≡◌, ◌⊎◌, inl, inr, refl, true, ◌&&◌, Bool-cases, some, List, drop, get_or, arith,
}
use bismark_passive.Prelude.Int.{ℤ, pos, pos_part, to_uint16, low_bits}
use bismark_passive.Prelude.All.{OnSuccess, after}
use bismark_passive.Bytes.{read32, array_at}
use bismark_passive.Address.{AddressTable, no_mapping, same_mapping}
use bismark_passive.Dns.{DnsTable}
use bismark_passive.DnsParser.{process_dns_packet}
use bismark_passive.HttpParser.{is_positive, process_http_packet}
use bismark_passive.Http.{HttpTable}
use bismark_passive.Main.{Build, Libraries, Daemon}
use bismark_passive.Main.Frames.{Extracted}
use bismark_passive.Main.Frames.Reads.{Extraction}
use bismark_passive.Main.Frames.Fields.{bind_first, Device}
use bismark_passive.Main.Packets.{PacketHeader, is_index, parse_dns, parse_http}
use bismark_passive.Main.Packets.Stages.{and_inv, index_of}

module _ (build : Build) (libs : Libraries) (header : PacketHeader) (bytes : List ℕ) where
  -- A response that the DNS parser has read: its records name this packet and the device whose
  -- address is the packet's destination and whose hardware address is the frame's.
  pub record Response (index : ℕ) (old new : DnsTable) (addresses : AddressTable) : Type 0 where
    pub dhost : List ℕ
    pub daddr : ℕ
    pub to_device : array_at bytes 0 6 ≡ some dhost
    pub to_address : read32 bytes 30 ≡ some daddr
    pub device : ℕ
    pub known : same_mapping (get_or addresses.entries device no_mapping) daddr dhost ≡ true
    pub start : ℕ
    pub len : ℕ
    pub parsed : DnsTable × ℤ
    pub call :
        process_dns_packet libs.dn_expand (drop start bytes) len index device old ≡ some parsed
    pub records : new ≡ parsed.0

  -- The tables that the parsers leave alone.
  abbrev pub SameTables : Daemon → Daemon → Type 0
  SameTables d d' =
      (d'.packet_data ≡ d.packet_data)
      × (d'.flow_table ≡ d.flow_table)
      × (d'.address_table ≡ d.address_table)

  pub parse_http-SameTables :
      (x : Extracted) (flow_id : ℕ) (d : Daemon)
      → OnSuccess
          (λ d'. SameTables d d' × (d'.dns_table ≡ d.dns_table))
          (parse_http build libs bytes x flow_id d)
  unfolding parse_http
  parse_http-SameTables x flow_id d =
      let Q : Daemon → Type 0 = λ d'. SameTables d d' × (d'.dns_table ≡ d.dns_table) in
      elim (Bool-cases (build.http_url && is_positive x.http_bytes_len)) [
        | inl request ↦ rw request (
            after Q
              (process_http_packet libs.sha1_hmac d.anonymizer (drop x.http_bytes bytes)
                x.http_bytes_len d.http_table flow_id)
              (λ (r : HttpTable × ℤ). some (record d { http_table = r.0 }))
              λ r. ((refl, refl, refl), refl))
        | inr no_request ↦ rw no_request ((refl, refl, refl), refl)
      ]

  pub parse_dns-Response :
      (x : Extracted) (packet_id : ℤ) (index : ℕ) (dhost : List ℕ) (d : Daemon)
      → packet_id ≡ pos index
      → index < 2 ^ 16
      → Extraction header.caplen x
      → array_at bytes 0 6 ≡ some dhost
      → ((i : ℕ) → x.mac_id ≡ pos i → read32 bytes 30 ≡ some x.flow_entry.ip_destination)
      → Device dhost d.address_table x
      → OnSuccess
          (λ d'.
            SameTables d d'
            × ((d'.dns_table ≡ d.dns_table)
                ⊎ Response index d.dns_table d'.dns_table d.address_table))
          (parse_dns build libs bytes x packet_id d)
  unfolding parse_dns to_uint16 low_bits
  parse_dns-Response x packet_id index dhost d id fits extraction to to_address device =
      let Q : Daemon → Type 0 = λ d'.
        SameTables d d'
        × ((d'.dns_table ≡ d.dns_table)
            ⊎ Response index d.dns_table d'.dns_table d.address_table) in
      elim (Bool-cases (is_positive x.dns_bytes_len && is_index x.mac_id && is_index packet_id)) [
        | inr no_response ↦ rw no_response ((refl, refl, refl), inl refl)
        | inl response ↦
            let (both, _) =
              and_inv (is_positive x.dns_bytes_len && is_index x.mac_id) (is_index packet_id)
                response in
            let (positive, mac_index) =
              and_inv (is_positive x.dns_bytes_len) (is_index x.mac_id) both in
            let (m, mac) = index_of x.mac_id mac_index in
            let known : low_bits 256 x.mac_id ≡ m =
              rw mac (omega (arith, extraction.mac_known m mac)) in
            let whole : to_uint16 packet_id ≡ index = rw id (omega arith) in
            rw (response, known, whole)
              (bind_first Q
                (process_dns_packet libs.dn_expand (drop x.dns_bytes bytes)
                  (pos_part x.dns_bytes_len) index m d.dns_table)
                (λ (r : DnsTable × ℤ). some (record d { dns_table = r.0 }))
                λ r e. (
                  (refl, refl, refl),
                  inr (record {
                    dhost = dhost;
                    daddr = x.flow_entry.ip_destination;
                    to_device = to;
                    to_address = to_address m mac;
                    device = m;
                    known = device m mac;
                    start = x.dns_bytes;
                    len = pos_part x.dns_bytes_len;
                    parsed = r;
                    call = e;
                    records = refl;
                  }),
                ))
      ]
