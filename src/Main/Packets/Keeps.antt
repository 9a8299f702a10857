-- ===== src/Main/Packets/Keeps.antt =====
-- Processing a packet keeps the invariant of the whole state.
use bismark_passive.Prelude.{ℕ, ◌≡◌, refl, sym, ap, ◌∙◌, false, some, List}
use bismark_passive.Main.{Build, Libraries, Daemon}
use bismark_passive.Main.Frames.{Extracted, get_flow_entry_for_packet}
use bismark_passive.Main.Packets.{
  PacketHeader, flow_of_packet, store_packet, parse_http, account, process_packet,
}
use bismark_passive.Main.Consistent.{Consistent, Unchanged, Unchanged-trans}
use bismark_passive.Main.Frames.Reads.{Extraction, get_flow_entry_for_packet-Seen}
use bismark_passive.Main.Packets.Stages.{
  Readable, unchanged, flow_of_packet-IsValid, store_packet-Stored, parse_dns-Unchanged,
  parse_http-Unchanged,
}

module _ (build : Build) (libs : Libraries) where
  account-Unchanged :
      (header : PacketHeader) (bytes : List ℕ) (x : Extracted) (d : Daemon)
      → Readable header bytes
      → Extraction header.caplen x
      → Consistent libs d
      → (d₁ : Daemon) × (account build libs header bytes x d
          ≡ parse_http build libs bytes x
              (flow_of_packet build libs d.flow_table x header.ts.tv_sec).1
              d₁)
        × Unchanged libs d d₁
  unfolding account
  account-Unchanged header bytes x d readable extraction c =
      let flow = flow_of_packet build libs d.flow_table x header.ts.tv_sec in
      let d₀ = record d { flow_table = flow.0 } in
      let stored = store_packet build libs header flow.1 d₀ in
      let s = store_packet-Stored build libs header flow.1 d₀ (record {
        packets = c.packets;
        flows = flow_of_packet-IsValid build libs d.flow_table x header.ts.tv_sec c.flows;
        records = c.records;
        addresses = c.addresses;
        devices = c.devices;
        drops = c.drops;
        initialized = c.initialized;
      }) in
      let (d₁, e, c₁) =
        parse_dns-Unchanged build libs header bytes x stored.1 d₀ stored.0 readable extraction s in
      (
        d₁,
        rw e refl,
        Unchanged-trans libs d stored.0 d₁
            (unchanged build libs d stored.0 s.unchanged.consistent s.unchanged.number
              s.unchanged.id s.unchanged.session s.unchanged.alarms)
            c₁,
      )

  module _ (header : PacketHeader) (bytes : List ℕ) (d : Daemon) (readable : Readable header bytes)
      (c : Consistent libs d) where
    up_to_requests :
        (x : Extracted) × (flow_id : ℕ) × (d₁ : Daemon) × (process_packet build libs header bytes d
          ≡ parse_http build libs bytes x flow_id d₁)
        × Unchanged libs d d₁
    unfolding process_packet
    up_to_requests =
        let (r, e, seen) =
          get_flow_entry_for_packet-Seen build bytes header.caplen header.len d readable.headers
            c.addresses c.devices in
        let d₀ = record d {
          device_throughput_table = seen.devices;
          address_table = seen.addresses;
        } in
        let c₀ : Consistent libs d₀ = record {
          packets = c.packets;
          flows = c.flows;
          records = c.records;
          addresses = seen.addresses_valid;
          devices = seen.devices_valid;
          drops = c.drops;
          initialized = c.initialized;
        } in
        let (d₁, e', c₁) = account-Unchanged header bytes r.1 d₀ readable seen.extraction c₀ in
        let flow_id = (flow_of_packet build libs d₀.flow_table r.1 header.ts.tv_sec).1 in
        let found : get_flow_entry_for_packet build bytes header.caplen header.len d
            ≡ some (d₀, r.1) =
          e ∙ ap (λ s. some (s, r.1)) seen.is in
        (
          r.1,
          flow_id,
          d₁,
          rw found e',
          Unchanged-trans libs d d₀ d₁ (unchanged build libs d d₀ c₀ refl refl refl refl) c₁,
        )

    -- A packet that is processed leaves a consistent state: every component is valid, and each DNS
    -- record names a packet of the series and an index of the address table; what names and counts
    -- the updates is as it was. The packet's headers, and four bytes behind it, are in memory.
    pub process_packet-Unchanged :
        (d' : Daemon) → process_packet build libs header bytes d ≡ some d' → Unchanged libs d d'
    process_packet-Unchanged d' e =
        let (x, flow_id, d₁, is, c₁) = up_to_requests in
        Unchanged-trans libs d d₁ d' c₁
          (parse_http-Unchanged build libs bytes x flow_id d₁ d' c₁.consistent (sym is ∙ e))

    -- In a build without the URLs of requests every packet is processed in a consistent state: if
    -- its headers (87 bytes), and four bytes behind it, are in memory, nothing is read out of
    -- bounds, the state stays consistent, and what names and counts the updates is as it was.
    pub process_packet-returns :
        build.http_url ≡ false
        → (d' : Daemon) × (process_packet build libs header bytes d ≡ some d') × Unchanged libs d d'
    unfolding parse_http
    process_packet-returns off =
        let (x, flow_id, d₁, is, c₁) = up_to_requests in (d₁, is ∙ rw off refl, c₁)
