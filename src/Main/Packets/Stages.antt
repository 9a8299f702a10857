-- ===== src/Main/Packets/Stages.antt =====
-- The steps of `process_packet` keep the invariant of the whole state.
use bismark_passive.Prelude.{
  if◌then◌else◌, Bool, ℕ, ◌+◌, ◌≤◌, ◌<◌, ◌≡◌, refl, subst, true, false, inl, inr, Bool-cases,
  Option, none, some, List, arith, leb, length, length-drop, drop, ◌&&◌,
}
use bismark_passive.Prelude.Int.{ℤ, pos, negsuc, to_uint16, low_bits, pos_part}
use bismark_passive.Prelude.Printf.{◌>>=◌}
use bismark_passive.Constants.{packet_data_buffer_entries}
use bismark_passive.Flow.{FlowTable}
use bismark_passive.Flow.Valid
use bismark_passive.Flow.Ids.{process_flow-IsValid}
use bismark_passive.Packets.{add_packet}
use bismark_passive.Packets.Series.{add_packet-IsValid, add_packet-at_end, add_packet-behind}
use bismark_passive.Drops
use bismark_passive.Drops.{DropStatistics}
use bismark_passive.Drops.Counts
use bismark_passive.Drops.Counts.{process_packet_lem}
use bismark_passive.DnsParser.References.{Refers, Referring-le, process_dns_packet-Referring}
use bismark_passive.Http.{HttpTable}
use bismark_passive.HttpParser.{is_positive}
use bismark_passive.Main.{Build, Libraries, Daemon}
use bismark_passive.Main.Frames.{Extracted}
use bismark_passive.Main.Packets.{
  PacketHeader, is_index, flow_of_packet, store_packet, parse_dns, parse_http,
}
use bismark_passive.Main.Consistent.{Consistent, Unchanged}
use bismark_passive.Main.Frames.Reads.{Extraction, bytes_read}

-- The memory of a captured packet: that of libpcap is larger than the packet.
pub record Readable (header : PacketHeader) (bytes : List ℕ) : Type 0 where
  pub headers : bytes_read ≤ length bytes
  pub slack : header.caplen + 4 ≤ length bytes

pub and_inv : (a b : Bool) → (a && b) ≡ true → (a ≡ true) × (b ≡ true)
and_inv true b e = (refl, e)
and_inv false b e = cc

pub index_of : (z : ℤ) → is_index z ≡ true → (i : ℕ) × (z ≡ pos i)
index_of (pos i) e = (i, refl)
index_of (negsuc n) e = cc

module _ (build : Build) (libs : Libraries) where
  pub flow_of_packet-IsValid :
      (t : FlowTable) (x : Extracted) (tv_sec : ℕ)
      → Valid.IsValid libs.platform t
      → Valid.IsValid libs.platform (flow_of_packet build libs t x tv_sec).0
  unfolding flow_of_packet
  flow_of_packet-IsValid t x tv_sec v =
      ground (arith, process_flow-IsValid libs.platform t x.flow_entry (pos tv_sec) v)

  -- The four fields that a packet leaves are those of the state before by computation.
  abbrev pub unchanged :
      (d d' : Daemon)
      → Consistent libs d'
      → d'.sequence_number ≡ d.sequence_number
      → d'.bismark_id ≡ d.bismark_id
      → d'.start_timestamp_microseconds ≡ d.start_timestamp_microseconds
      → d'.alarm_count ≡ d.alarm_count
      → Unchanged libs d d'
  unchanged d d' c n i s a = record { consistent = c; number = n; id = i; session = s; alarms = a }

  -- The index that is returned is that of a packet of the series.
  pub record Stored (d : Daemon) (r : Daemon × ℤ) : Type 0 where
    pub unchanged : Unchanged libs d r.0
    pub index : is_index r.1 ≡ true → (i : ℕ) × (r.1 ≡ pos i) × (i < r.0.packet_data.length)

  counted_if :
      (b : Bool) (s : DropStatistics) (size : ℕ)
      → Counts.IsValid s
      → Counts.IsValid (if b then s else Drops.process_packet s size)
  counted_if true s size v = v
  counted_if false s size v = (process_packet_lem s size 0 v).0

  pub store_packet-Stored :
      (header : PacketHeader) (flow_id : ℕ) (d : Daemon)
      → Consistent libs d
      → Stored d (store_packet build libs header flow_id d)
  unfolding store_packet
  store_packet-Stored header flow_id d c =
      let added = add_packet libs.platform d.packet_data header.ts header.len (pos flow_id) in
      let v' =
        add_packet-IsValid libs.platform d.packet_data header.ts header.len (pos flow_id)
          c.packets in
      let drops = counted_if (is_index added.1) d.drop_statistics header.len c.drops in
      elim (Bool-cases (leb packet_data_buffer_entries d.packet_data.length)) [
        | inl full ↦
            let (id, same) =
              add_packet-at_end libs.platform d.packet_data header.ts header.len (pos flow_id)
                full in
            record {
              unchanged =
                  unchanged d _
                    (record {
                      packets = v';
                      flows = c.flows;
                      records = rw same c.records;
                      addresses = c.addresses;
                      devices = c.devices;
                      drops = drops;
                      initialized = c.initialized;
                    })
                    refl refl refl refl;
              index = λ e. absurd (let e' : is_index (negsuc 0) ≡ true = rw id at e in cc);
            }
        | inr room ↦
            let (id, longer) =
              add_packet-behind libs.platform d.packet_data header.ts header.len (pos flow_id)
                room in
            record {
              unchanged =
                  unchanged d _
                    (record {
                      packets = v';
                      flows = c.flows;
                      records = rw longer (
                          Referring-le d.packet_data.length (d.packet_data.length + 1) d.dns_table
                            (omega arith) c.records);
                      addresses = c.addresses;
                      devices = c.devices;
                      drops = drops;
                      initialized = c.initialized;
                    })
                    refl refl refl refl;
              index = λ e. (d.packet_data.length, id, rw longer (omega arith));
            }
      ]

  -- The extraction gives the parser a part of the packet.
  pub parse_dns-Unchanged :
      (header : PacketHeader) (bytes : List ℕ) (x : Extracted) (packet_id : ℤ) (d₀ d : Daemon)
      → Readable header bytes
      → Extraction header.caplen x
      → Stored d₀ (d, packet_id)
      → (d' : Daemon) × (parse_dns build libs bytes x packet_id d ≡ some d') × Unchanged libs d d'
  unfolding parse_dns to_uint16 low_bits
  parse_dns-Unchanged header bytes x packet_id d₀ d readable extraction stored =
      let tested = is_positive x.dns_bytes_len && is_index x.mac_id && is_index packet_id in
      let c = stored.unchanged.consistent in
      elim (Bool-cases tested) [
        | inr no_response ↦ (d, rw no_response refl, unchanged d d c refl refl refl refl)
        | inl response ↦
            let (both, stored_index) = and_inv _ (is_index packet_id) response in
            let (positive, mac_index) =
              and_inv (is_positive x.dns_bytes_len) (is_index x.mac_id) both in
            let (m, mac) = index_of x.mac_id mac_index in
            let (i, id, below) = stored.index stored_index in
            let len = pos_part x.dns_bytes_len in
            let refers : Refers d.packet_data.length (to_uint16 packet_id) (low_bits 256 x.mac_id) =
              rw (id, mac)
                (
                  omega (arith, below, c.packets.within),
                  omega (arith, extraction.mac_known m mac),
                ) in
            let inside = extraction.dns_inside positive in
            let room : len + 4 ≤ length (drop x.dns_bytes bytes) =
              omega (arith, inside, readable.slack, length-drop x.dns_bytes bytes) in
            let (r, e, records) =
              process_dns_packet-Referring libs.dn_expand (drop x.dns_bytes bytes) len
                (to_uint16 packet_id) (low_bits 256 x.mac_id) d.packet_data.length refers
                d.dns_table room c.records in
            (
              record d { dns_table = r.0 },
              rw (response, e) refl,
              unchanged d _
                  (record {
                    packets = c.packets;
                    flows = c.flows;
                    records = records;
                    addresses = c.addresses;
                    devices = c.devices;
                    drops = c.drops;
                    initialized = c.initialized;
                  })
                  refl refl refl refl,
            )
      ]

  -- The URLs are no part of the invariant.
  with_urls :
      (d d' : Daemon) (o : Option (HttpTable × ℤ))
      → Consistent libs d
      → (o >>= λ r. some (record d { http_table = r.0 })) ≡ some d'
      → Unchanged libs d d'
  with_urls d d' none c e = cc
  with_urls d d' (some r) c e =
      let same : record d { http_table = r.0 } ≡ d' = cc in
      subst (λ d'. Unchanged libs d d') same
        (unchanged d (record d { http_table = r.0 })
          (record {
            packets = c.packets;
            flows = c.flows;
            records = c.records;
            addresses = c.addresses;
            devices = c.devices;
            drops = c.drops;
            initialized = c.initialized;
          })
          refl refl refl refl)

  pub parse_http-Unchanged :
      (bytes : List ℕ) (x : Extracted) (flow_id : ℕ) (d d' : Daemon)
      → Consistent libs d
      → parse_http build libs bytes x flow_id d ≡ some d'
      → Unchanged libs d d'
  unfolding parse_http
  parse_http-Unchanged bytes x flow_id d d' c e =
      elim (Bool-cases (build.http_url && is_positive x.http_bytes_len)) [
        | inr no_request ↦
            let e' : some d ≡ some d' = rw no_request at e in
            let same : d ≡ d' = cc in
            subst (λ d'. Unchanged libs d d') same (unchanged d d c refl refl refl refl)
        | inl request ↦ with_urls d d' _ c (rw request at e)
      ]
