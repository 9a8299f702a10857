-- ===== src/Main/Packets/Flows.antt =====
-- The id of a packet's flow, and the packet in the series.
use bismark_passive.Prelude.{
  ℕ, ◌%◌, ◌^◌, ◌<◌, ◌≡◌, ◌≢◌, inl, inr, refl, true, false, Bool-cases, List, [], ◌∷◌, ◌++◌, arith,
  ◌==◌,
}
use bismark_passive.Prelude.Int.{pos, to_uint16, low_bits}
use bismark_passive.Constants.{packet_data_buffer_entries}
use bismark_passive.Constants.FlowId
use bismark_passive.Ethertype
use bismark_passive.Flow.{FlowEntry, FlowTable, process_flow}
use bismark_passive.Flow.Valid
use bismark_passive.Flow.Process.{Recorded}
use bismark_passive.Flow.Ids.{process_flow-Recorded, process_flow-lt}
use bismark_passive.Packets.{PacketData}
use bismark_passive.Packets.Series
use bismark_passive.Packets.Series.{packets, add_packet_lem, add_packet-behind}
use bismark_passive.Main.{Build, Libraries, Daemon}
use bismark_passive.Main.Frames.{Extracted}
use bismark_passive.Main.Frames.Fields.{Describes}
use bismark_passive.Main.Packets.{PacketHeader, flow_of_packet, store_packet}

-- The id of a flow: reserved for another protocol than IPv4; otherwise that of an entry of the flow table
-- with the addresses, the protocol and the ports of the frame that was last seen with this packet, or
-- the error id.
pub record FlowOf (header : PacketHeader) (bytes : List ℕ) (kind flow_id : ℕ) (t : FlowTable)
    : Type 0 where
  pub reserved : (kind == Ethertype.ip) ≡ false → flow_id < FlowId.first_unreserved
  pub recorded :
      (kind == Ethertype.ip) ≡ true
      → flow_id ≢ FlowId.error
      → (e : FlowEntry) × Describes bytes e × Recorded t e (pos header.ts.tv_sec) flow_id

module _ (build : Build) (libs : Libraries) (header : PacketHeader) (bytes : List ℕ) where
  reserved_flow :
      (t : FlowTable) (x : Extracted)
      → (x.ether_type == Ethertype.ip) ≡ false
      → (flow_of_packet build libs t x header.ts.tv_sec).1 < FlowId.first_unreserved
  unfolding flow_of_packet
  reserved_flow t x other = ground arith

  ip_flow :
      (t : FlowTable) (x : Extracted)
      → (x.ether_type == Ethertype.ip) ≡ true
      → flow_of_packet build libs t x header.ts.tv_sec
        ≡ process_flow libs.platform t x.flow_entry (pos header.ts.tv_sec)
  unfolding flow_of_packet
  ip_flow t x ip = let is : x.ether_type ≡ Ethertype.ip = ground arith in rw is refl

  -- The id, which fits the `uint16_t` of the caller.
  pub flow_of_packet-FlowOf :
      (t : FlowTable) (x : Extracted)
      → Valid.IsValid libs.platform t
      → ((x.ether_type == Ethertype.ip) ≡ true → Describes bytes x.flow_entry)
      → let flow = flow_of_packet build libs t x header.ts.tv_sec in
        FlowOf header bytes x.ether_type flow.1 flow.0 × (flow.1 < 2 ^ 16)
  flow_of_packet-FlowOf t x v described = elim (Bool-cases (x.ether_type == Ethertype.ip)) [
    | inl ip ↦ rw (ip_flow t x ip) (
      record {
        reserved = λ e. cc;
        recorded = λ _ accepted. (
          x.flow_entry,
          described ip,
          process_flow-Recorded libs.platform t x.flow_entry (pos header.ts.tv_sec) v accepted,
        );
      },
      omega (arith, process_flow-lt libs.platform t x.flow_entry (pos header.ts.tv_sec) v),
    )
    | inr other ↦ (
      record { reserved = λ _. reserved_flow t x other; recorded = λ e. cc },
      omega (arith, reserved_flow t x other),
    )
  ]

  -- The new packet of the series, which keeps size and flow in 16 bits.
  pub record Appended (flow_id : ℕ) (d d' : Daemon) : Type 0 where
    pub packet : PacketData
    pub packets : packets d'.packet_data ≡ packets d.packet_data ++ packet ∷ []
    pub size : packet.size ≡ header.len % 65536
    pub flow : packet.flow ≡ flow_id

  module _ (d : Daemon) (flow_id : ℕ) (v : Series.IsValid d.packet_data) (fits : flow_id < 2 ^ 16)
      (room : d.packet_data.length < packet_data_buffer_entries) where
    pub store_packet-Appended :
        let added = store_packet build libs header flow_id d in
        Appended flow_id d added.0
        × (added.1 ≡ pos d.packet_data.length)
        × (added.0.flow_table ≡ d.flow_table)
        × (added.0.dns_table ≡ d.dns_table)
        × (added.0.address_table ≡ d.address_table)
    unfolding store_packet to_uint16 low_bits
    store_packet-Appended =
        let (id, appended) =
          add_packet_lem libs.platform d.packet_data header.ts header.len (pos flow_id) v room in
        (
          record { packet = _; packets = appended; size = refl; flow = omega arith },
          id,
          refl,
          refl,
          refl,
        )
