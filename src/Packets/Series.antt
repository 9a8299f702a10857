-- ===== src/Packets/Series.antt =====
-- The packets that a series holds, and how a packet is added, refused and printed.
use bismark_passive.Prelude.{
  take-set, ltb, ℕ, ◌+◌, ◌%◌, ◌^◌, ◌≤◌, ◌<◌, ◌≡◌, refl, sym, ap, List, [], ◌∷◌, ◌++◌, arith, leb,
  ◌==◌, if◌then◌else◌, take, length, length-set, map,
}
use mathlib.Core.Path.{fun_ext}
use Prim.Native.Nat.{min, ◌-◌}
use mathlib.Core.Bool.{true, false}
use bismark_passive.Prelude.Int.{ℤ, pos, negsuc, ◌-ℤ◌, to_uint16, to_int32}
use bismark_passive.Prelude.Printf.{◌>>=◌, Printf, put_all, put_all-append, >>=_some, blank_line}
use bismark_passive.Constants.{packet_data_buffer_entries, flow_table_entries}
use bismark_passive.Constants.FlowId
use bismark_passive.Platform.{Platform}
use bismark_passive.Packets.{
  PacketData, PacketSeries, Timeval, microseconds, add_packet, printed_flow, packet_line,
  write_packets, write_update, series_header,
}

pub record IsValid (s : PacketSeries) : Type 0 where
  pub width : length s.packet_data ≡ packet_data_buffer_entries
  pub within : s.length ≤ packet_data_buffer_entries
  pub counter : s.discarded_by_overflow < 2 ^ 32

-- The packets since the last update, oldest first.
abbrev pub packets : PacketSeries → List PacketData
packets s = take s.length s.packet_data

-- Adding a packet, stored or not, keeps the series valid.
pub add_packet-IsValid :
    (p : Platform) (s : PacketSeries) (tv : Timeval) (size : ℕ) (flow : ℤ)
    → IsValid s
    → IsValid (add_packet p s tv size flow).0
unfolding add_packet
add_packet-IsValid p s tv size flow v = ground (
  arith,
  length-set s.packet_data s.length (record {
    timestamp =
        (if s.length == 0
          then pos 0
          else to_int32 (pos (microseconds p tv) -ℤ pos s.last_time_microseconds));
    size = size % 65536;
    flow = to_uint16 flow;
  }),
)

-- A series with room returns the packet's index and holds its old packets, then the new one, with
-- size and flow cut to 16 bits and the time as the distance from the last packet (0 for the first).
pub add_packet_lem :
    (p : Platform) (s : PacketSeries) (tv : Timeval) (size : ℕ) (flow : ℤ)
    → IsValid s
    → s.length < packet_data_buffer_entries
    → let (s', id) = add_packet p s tv size flow in
      (id ≡ pos s.length)
      × (packets s'
          ≡ packets s
            ++ record {
              timestamp =
                  (if s.length == 0
                    then pos 0
                    else to_int32 (pos (microseconds p tv) -ℤ pos s.last_time_microseconds));
              size = size % 65536;
              flow = to_uint16 flow;
            }
              ∷ [])
unfolding add_packet
add_packet_lem p s tv size flow v room =
    let full : leb packet_data_buffer_entries s.length ≡ false = ground arith in
    rw full (refl, take-set s.packet_data s.length _ (rw v.width room))

-- The lengths of a series that is full, and of one that has room.
pub add_packet-at_end :
    (p : Platform) (s : PacketSeries) (tv : Timeval) (size : ℕ) (flow : ℤ)
    → leb packet_data_buffer_entries s.length ≡ true
    → let (s', id) = add_packet p s tv size flow in (id ≡ negsuc 0) × (s'.length ≡ s.length)
unfolding add_packet
add_packet-at_end p s tv size flow full = rw full (refl, refl)

pub add_packet-behind :
    (p : Platform) (s : PacketSeries) (tv : Timeval) (size : ℕ) (flow : ℤ)
    → leb packet_data_buffer_entries s.length ≡ false
    → let (s', id) = add_packet p s tv size flow in (id ≡ pos s.length) × (s'.length ≡ s.length + 1)
unfolding add_packet
add_packet-behind p s tv size flow room = rw room (refl, refl)

-- A full series returns -1, holds what it held, and counts the packet up to the limit of 32 bits.
pub add_packet-full :
    (p : Platform) (s : PacketSeries) (tv : Timeval) (size : ℕ) (flow : ℤ)
    → IsValid s
    → s.length ≡ packet_data_buffer_entries
    → let (s', id) = add_packet p s tv size flow in
      (id ≡ negsuc 0)
      × (packets s' ≡ packets s)
      × (s'.discarded_by_overflow ≡ min (s.discarded_by_overflow + 1) (2 ^ 32 - 1))
unfolding add_packet
add_packet-full p s tv size flow v at_end =
    let full : leb packet_data_buffer_entries s.length ≡ true = ground arith in
    rw full (refl, refl, ground (arith, v.counter))

-- The flow at index `idx` of the flow table has the id idx + 7; it is printed so up to index 65521,
-- and the ids of the last seven entries are printed as -1, which stands for no flow.
pub printed_flow_lem :
    (idx : ℕ)
    → idx < flow_table_entries
    → printed_flow (idx + FlowId.first_unreserved)
      ≡ (if ltb idx 65522 then pos (idx + FlowId.first_unreserved) else negsuc 0)
unfolding printed_flow
printed_flow_lem idx h = ground arith

module _ {H : Type 0} (gzprintf : Printf H) where
  write_packets-lines :
      (ds : List PacketData) (h : H)
      → write_packets gzprintf ds h ≡ put_all gzprintf h (map packet_line ds)
  unfolding write_packets
  write_packets-lines [] h = refl
  write_packets-lines (d ∷ ds) h =
      ap (λ f. gzprintf h (packet_line d) >>= f) (fun_ext (write_packets-lines ds))

  -- An update prints the start time and the number of packets discarded, a line for each packet in
  -- order, and a blank line, up to the first call that fails.
  pub series-write_update :
      (s : PacketSeries) (h : H)
      → write_update gzprintf s h
        ≡ put_all gzprintf h (series_header s ∷ map packet_line (packets s) ++ blank_line ∷ [])
  unfolding write_update
  series-write_update s h = ap (λ f. gzprintf h (series_header s) >>= f) (fun_ext rest)
    where
      rest :
          (h' : H)
          → (write_packets gzprintf (packets s) h' >>= λ h''. gzprintf h'' blank_line)
            ≡ put_all gzprintf h' (map packet_line (packets s) ++ blank_line ∷ [])
      rest h' =
          rw
            (
              write_packets-lines (packets s) h',
              put_all-append gzprintf h' (map packet_line (packets s)) (blank_line ∷ []),
            )
            (ap (λ f. put_all gzprintf h' (map packet_line (packets s)) >>= f)
              (fun_ext λ h''. sym (>>=_some (gzprintf h'' blank_line))))
