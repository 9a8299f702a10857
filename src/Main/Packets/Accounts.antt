-- ===== src/Main/Packets/Accounts.antt =====
-- What a packet leaves in the packet series, the flow table and the DNS table, and how these refer to
-- each other.
use bismark_passive.Prelude.{ℕ, ◌<◌, ◌≡◌, ◌⊎◌, ap, ◌∙◌, subst, some, List, arith}
use bismark_passive.Prelude.Int.{ℤ, pos}
use bismark_passive.Prelude.Printf.{◌>>=◌}
use bismark_passive.Prelude.All.{OnSuccess, OnSuccess-some, OnSuccess-weaken, >>=-OnSuccess}
use bismark_passive.Constants.{packet_data_buffer_entries}
use bismark_passive.Bytes.{read16, array_at, array_at-some}
use bismark_passive.Flow.{FlowTable}
use bismark_passive.Packets.Series.{packets}
use bismark_passive.Main.{Build, Libraries, Daemon}
use bismark_passive.Main.Consistent.{Consistent}
use bismark_passive.Main.Frames.{Extracted, get_flow_entry_for_packet}
use bismark_passive.Main.Frames.Reads.{Extraction, get_flow_entry_for_packet-Seen}
use bismark_passive.Main.Frames.Extracts.{FromFrame, get_flow_entry_for_packet-FromFrame}
use bismark_passive.Main.Frames.Fields.{Device}
use bismark_passive.Main.Packets.{
  PacketHeader, flow_of_packet, store_packet, parse_dns, parse_http, account, process_packet,
}
use bismark_passive.Main.Packets.Stages.{Readable}
use bismark_passive.Main.Packets.Flows.{
  FlowOf, Appended, flow_of_packet-FlowOf, store_packet-Appended,
}
use bismark_passive.Main.Packets.Responses.{Response, parse_http-SameTables, parse_dns-Response}

module _ (build : Build) (libs : Libraries) (header : PacketHeader) (bytes : List ℕ) where
  -- What a packet leaves.
  pub record Accounted (d d' : Daemon) : Type 0 where
    pub kind : ℕ
    pub is : read16 bytes 12 ≡ some kind
    pub flow_id : ℕ
    pub flow : FlowOf header bytes kind flow_id d'.flow_table
    pub appended : Appended build libs header bytes flow_id d d'
    pub response :
        (d'.dns_table ≡ d.dns_table)
        ⊎ Response build libs header bytes d.packet_data.length d.dns_table d'.dns_table
            d'.address_table

  -- The parsers, behind the flow table and the series.
  parsed-Accounted :
      (x : Extracted) (dhost : List ℕ) (flow_id : ℕ) (t : FlowTable) (d : Daemon)
      (added : Daemon × ℤ)
      → FromFrame bytes (d, x)
      → Extraction header.caplen x
      → array_at bytes 0 6 ≡ some dhost
      → d.packet_data.length < packet_data_buffer_entries
      → FlowOf header bytes x.ether_type flow_id t
      → Appended build libs header bytes flow_id d added.0
      → added.1 ≡ pos d.packet_data.length
      → added.0.flow_table ≡ t
      → added.0.dns_table ≡ d.dns_table
      → added.0.address_table ≡ d.address_table
      → OnSuccess
          (Accounted d)
          (parse_dns build libs bytes x added.1 added.0 >>= parse_http build libs bytes x flow_id)
  parsed-Accounted x dhost flow_id t d added f extraction to room flow a id flows records
        addresses =
      let device : Device dhost added.0.address_table x = rw addresses (f.device dhost to) in
      >>=-OnSuccess _ (Accounted d) (parse_dns build libs bytes x added.1 added.0)
        (parse_http build libs bytes x flow_id)
        (parse_dns-Response build libs header bytes x added.1 d.packet_data.length dhost added.0 id
          (omega (arith, room)) extraction to (λ i e. (f.described (f.only_ip i e)).ip_destination)
          device)
        λ d₂ (same, response).
          OnSuccess-weaken _ (Accounted d) (parse_http build libs bytes x flow_id d₂)
            (λ d' (same', records'). record {
              kind = x.ether_type;
              is = f.kind;
              flow_id = flow_id;
              flow = rw (same'.1, same.1, flows) flow;
              appended = record {
                packet = a.packet;
                packets = ap packets (same'.0 ∙ same.0) ∙ a.packets;
                size = a.size;
                flow = a.flow;
              };
              response = rw (records', same'.2, same.2, ← records) response;
            })
            (parse_http-SameTables build libs header bytes x flow_id d₂)

  account-Accounted :
      (x : Extracted) (dhost : List ℕ) (d : Daemon)
      → Consistent libs d
      → FromFrame bytes (d, x)
      → Extraction header.caplen x
      → array_at bytes 0 6 ≡ some dhost
      → d.packet_data.length < packet_data_buffer_entries
      → OnSuccess (Accounted d) (account build libs header bytes x d)
  unfolding account
  account-Accounted x dhost d c f extraction to room =
      let flow = flow_of_packet build libs d.flow_table x header.ts.tv_sec in
      let (of_frame, fits) =
        flow_of_packet-FlowOf build libs header bytes d.flow_table x c.flows f.described in
      let d₁ = record d { flow_table = flow.0 } in
      let (appended, id, flows, records, addresses) =
        store_packet-Appended build libs header bytes d₁ flow.1 c.packets fits room in
      parsed-Accounted x dhost flow.1 flow.0 d (store_packet build libs header flow.1 d₁) f
        extraction to room of_frame
        (record {
          packet = appended.packet;
          packets = appended.packets;
          size = appended.size;
          flow = appended.flow;
        })
        id flows records addresses

  -- A packet that is processed in a consistent state with room in the series is appended to the series,
  -- with the id of its flow. Where the frame is IPv4 this is the error id or that of an entry of the flow
  -- table which has the addresses, the protocol and the ports that stand in the frame and was last seen
  -- with this packet; for any other type it is reserved. The DNS table stays as it was, or gets the
  -- records of a response under this packet's index and the index, in the address table, of the pair of
  -- the packet's destination and the frame's. The headers, and four bytes behind it, are in memory.
  pub process_packet-Accounted :
      (d d' : Daemon)
      → Readable header bytes
      → Consistent libs d
      → d.packet_data.length < packet_data_buffer_entries
      → process_packet build libs header bytes d ≡ some d'
      → Accounted d d'
  unfolding process_packet
  process_packet-Accounted d d' readable c room e =
      let (r, found, seen) =
        get_flow_entry_for_packet-Seen build bytes header.caplen header.len d readable.headers
          c.addresses c.devices in
      let f =
        OnSuccess-some (FromFrame bytes) _ r
          (get_flow_entry_for_packet-FromFrame build bytes header.caplen header.len d c.addresses)
          found in
      let (dhost, to) = array_at-some bytes 0 6 (omega (arith, readable.headers)) in
      let d₀ = record d {
        device_throughput_table = seen.devices;
        address_table = seen.addresses;
      } in
      let c₀ : Consistent libs d₀ = record {
        packets = c.packets;
        flows = c.flows;
        records = c.records;
        addresses = seen.addresses_valid;
        devices = seen.devices_valid;
        drops = c.drops;
        initialized = c.initialized;
      } in
      let f₀ : FromFrame bytes (d₀, r.1) =
        subst (λ (s : Daemon). FromFrame bytes (s, r.1)) seen.is f in
      let found' : get_flow_entry_for_packet build bytes header.caplen header.len d
          ≡ some (d₀, r.1) =
        found ∙ ap (λ s. some (s, r.1)) seen.is in
      let result =
        OnSuccess-some (Accounted d₀) _ d'
          (account-Accounted r.1 dhost d₀ c₀ f₀ seen.extraction to room) (rw found' at e) in
      record {
        kind = result.kind;
        is = result.is;
        flow_id = result.flow_id;
        flow = result.flow;
        appended = record {
          packet = result.appended.packet;
          packets = result.appended.packets;
          size = result.appended.size;
          flow = result.appended.flow;
        };
        response = result.response;
      }
