-- ===== src/Packets/Tests.antt =====
-- An empty series, a series with one packet, and a full one.
use bismark_passive.Prelude.{
  ◌+◌, ◌-◌, ◌^◌, ◌<◌, ◌≡◌, refl, List, [], ◌∷◌, ◌++◌, arith, ltb, if◌then◌else◌, replicate,
  length-replicate, length,
}
use bismark_passive.Prelude.Int.{pos, negsuc, ◌-ℤ◌, FitsInt32, int_laws}
use bismark_passive.Constants.{packet_data_buffer_entries}
use bismark_passive.Constants.FlowId
use bismark_passive.Samples.{platform}
use bismark_passive.Packets.{
  PacketData, PacketSeries, Timeval, packet_series_init, add_packet, printed_flow,
}
use bismark_passive.Packets.Series.{IsValid, printed_flow_lem}
use bismark_passive.Packets.Times.{Encodes, packet_series_init-Encodes, add_packet-Encodes, stamp}

no_packet : PacketData
no_packet = record { timestamp = pos 0; size = 0; flow = 0 }

zeroed : List PacketData
zeroed = replicate packet_data_buffer_entries no_packet

length-zeroed : length zeroed ≡ packet_data_buffer_entries
unfolding zeroed
length-zeroed = length-replicate packet_data_buffer_entries no_packet

-- no packets yet
abbrev start : PacketSeries
start = packet_series_init zeroed

-- no room left
abbrev full : PacketSeries
full = record start { length = packet_data_buffer_entries; discarded_by_overflow = 2 ^ 32 - 1 }

full-IsValid : IsValid full
full-IsValid = record { width = length-zeroed; within = omega arith; counter = omega arith }

abbrev noon : Timeval
noon = record { tv_sec = 1300000000; tv_usec = 250000 }

abbrev second_later : Timeval
second_later = record { tv_sec = 1300000001; tv_usec = 125000 }

start-Encodes : Encodes start []
start-Encodes = packet_series_init-Encodes zeroed length-zeroed

abbrev one : PacketSeries
one = (add_packet platform start noon 60 (pos 9)).0

one-Encodes : Encodes one ([] ++ stamp noon ∷ [])
one-Encodes =
    add_packet-Encodes platform start [] noon 60 (pos 9) start-Encodes (omega arith) (omega arith)
      (λ ne. absurd (ne refl))

one-room : one.length < packet_data_buffer_entries
unfolding add_packet
one-room = omega arith

one-near : FitsInt32 (pos (stamp second_later) -ℤ pos one.last_time_microseconds)
unfolding add_packet
one-near = omega int_laws

add_packet-Encodes_example :
    Encodes
      (add_packet platform one second_later 1500 (pos 65530)).0
      (([] ++ stamp noon ∷ []) ++ stamp second_later ∷ [])
add_packet-Encodes_example =
    add_packet-Encodes platform one ([] ++ stamp noon ∷ []) second_later 1500 (pos 65530)
      one-Encodes one-room (omega arith) (λ _. one-near)

printed_flow_lem_example :
    printed_flow (65522 + FlowId.first_unreserved)
    ≡ (if ltb 65522 65522 then pos (65522 + FlowId.first_unreserved) else negsuc 0)
printed_flow_lem_example = printed_flow_lem 65522 (omega arith)
