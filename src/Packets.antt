-- ===== src/Packets.antt =====
-- src/packet_series.h and src/packet_series.c: the packets since the last update. `int64_t` times
-- are numbers without bounds, from clocks that do not run before 1970; the `double` in their
-- computation is that of the platform.
pub mod Times
mod Tests
pub mod Series
use bismark_passive.Prelude.{
  ℕ, zero, suc, ◌+◌, ◌*◌, ◌%◌, ◌^◌, Option, none, some, List, [], ◌∷◌, ltb, leb, ◌==◌,
  if◌then◌else◌, take, set,
}
use bismark_passive.Prelude.Int.{ℤ, pos, negsuc, ◌-ℤ◌, to_uint16, to_int32}
use bismark_passive.Prelude.Printf.{◌>>=◌, blank_line, Call, Printf, int, uint}
use bismark_passive.Constants.{
  packet_data_buffer_entries, flow_table_entries, num_micros_per_second,
}
use bismark_passive.Platform.{Platform}

-- `packet_data_t`
pub record PacketData : Type 0 where
  pub timestamp : ℤ
  pub size : ℕ
  pub flow : ℕ

-- `packet_series_t`
pub record PacketSeries : Type 0 where
  pub start_time_microseconds : ℕ
  pub last_time_microseconds : ℕ
  pub length : ℕ
  pub packet_data : List PacketData
  pub discarded_by_overflow : ℕ

-- `struct timeval`
pub record Timeval : Type 0 where
  pub tv_sec : ℕ
  pub tv_usec : ℕ

-- `packet_series_init`, on an array of the right width
abbrev pub packet_series_init : List PacketData → PacketSeries
packet_series_init zeroed = record {
  start_time_microseconds = 0;
  last_time_microseconds = 0;
  length = 0;
  packet_data = zeroed;
  discarded_by_overflow = 0;
}

-- `tv_sec * NUM_MICROS_PER_SECOND + tv_usec`, in `double`
abbrev pub microseconds : Platform → Timeval → ℕ
microseconds p tv = p.round (p.round (tv.tv_sec * num_micros_per_second) + tv.tv_usec)

-- `++` of a `uint32_t` that stops at its largest value
abbrev pub count_discarded : ℕ → ℕ
count_discarded n = if ltb n ((n + 1) % 2 ^ 32) then (n + 1) % 2 ^ 32 else n

-- `packet_series_add_packet`: the new series, and the index that is returned or -1.
pub add_packet : Platform → PacketSeries → Timeval → ℕ → ℤ → PacketSeries × ℤ
add_packet p s tv size flow =
    if leb packet_data_buffer_entries s.length
    then (record s { discarded_by_overflow = count_discarded s.discarded_by_overflow }, negsuc 0)
    else let current = microseconds p tv in
      let first = s.length == 0 in
      (
        record s {
          start_time_microseconds = (if first then current else s.start_time_microseconds);
          last_time_microseconds = current;
          length = s.length + 1;
          packet_data = set s.packet_data s.length (record {
            timestamp =
                (if first then pos 0 else to_int32 (pos current -ℤ pos s.last_time_microseconds));
            size = size % 65536;
            flow = to_uint16 flow;
          });
        },
        pos s.length,
      )

-- The flow id that is printed for a packet.
pub printed_flow : ℕ → ℤ
printed_flow flow = if leb flow_table_entries flow then negsuc 0 else pos flow

pub packet_line : PacketData → Call
unfolding printed_flow
packet_line d = record {
  format = "%PRId32 %PRIu16 %d\n";
  args = int d.timestamp ∷ uint d.size ∷ int (printed_flow d.flow) ∷ [];
}

abbrev pub series_header : PacketSeries → Call
series_header s = record {
  format = "%PRIu64 %PRIu32\n";
  args = uint s.start_time_microseconds ∷ uint s.discarded_by_overflow ∷ [];
}

module _ {H : Type 0} (gzprintf : Printf H) where
  -- The loop over the packets.
  pub write_packets : List PacketData → H → Option H
  write_packets [] handle = some handle
  write_packets (d ∷ ds) handle = gzprintf handle (packet_line d) >>= write_packets ds

  -- `packet_series_write_update`; `none` is its return of -1.
  pub write_update : PacketSeries → H → Option H
  unfolding write_packets
  write_update s handle = do
    handle₁ ← gzprintf handle (series_header s)
    handle₂ ← write_packets (take s.length s.packet_data) handle₁
    gzprintf handle₂ blank_line
