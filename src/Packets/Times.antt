-- ===== src/Packets/Times.antt =====
-- The times that the start time and the distances of a series stand for.
use bismark_passive.Prelude.{
  ℕ, ◌+◌, ◌*◌, ◌%◌, ◌^◌, ◌≤◌, ◌<◌, ◌≡◌, ◌≢◌, refl, sym, ap, ◌∙◌, List, [], ◌∷◌, ◌++◌, arith, ◌==◌,
  if◌then◌else◌, length, length-append, map, Bool-cases, inl, inr, ==_iff, leb,
}
use mathlib.Core.Bool.{false}
use mathlib.Core.List.{map-append}
use bismark_passive.Prelude.Int.{
  ℤ, to_uint16, pos, ◌+ℤ◌, ◌-ℤ◌, to_int32, to_int32_exact, FitsInt32, int_laws, +ℤ_parts,
  eq_of_parts,
}
use bismark_passive.Constants.{packet_data_buffer_entries, num_micros_per_second}
use bismark_passive.Platform.{Platform}
use bismark_passive.Packets.{
  PacketData, PacketSeries, Timeval, microseconds, add_packet, packet_series_init,
}
use bismark_passive.Packets.Series.{IsValid, packets, add_packet_lem, add_packet-IsValid}

-- The time after the distances, and the time after each of them.
pub final : ℤ → List PacketData → ℤ
final start [] = start
final start (d ∷ ds) = final (start +ℤ d.timestamp) ds

pub times : ℤ → List PacketData → List ℤ
times start [] = []
times start (d ∷ ds) = (start +ℤ d.timestamp) ∷ times (start +ℤ d.timestamp) ds

times-append :
    (start : ℤ) (ds : List PacketData) (d : PacketData)
    → times start (ds ++ d ∷ []) ≡ times start ds ++ (final start ds +ℤ d.timestamp) ∷ []
unfolding times final
times-append start [] d = refl
times-append start (c ∷ ds) d =
    ap (λ l. (start +ℤ c.timestamp) ∷ l) (times-append (start +ℤ c.timestamp) ds d)

final-append :
    (start : ℤ) (ds : List PacketData) (d : PacketData)
    → final start (ds ++ d ∷ []) ≡ final start ds +ℤ d.timestamp
unfolding final
final-append start [] d = refl
final-append start (c ∷ ds) d = final-append (start +ℤ c.timestamp) ds d

-- The time of a packet in microseconds.
abbrev pub stamp : Timeval → ℕ
stamp tv = tv.tv_sec * num_micros_per_second + tv.tv_usec

microseconds_exact :
    (p : Platform) (tv : Timeval) → stamp tv ≤ 2 ^ 53 → microseconds p tv ≡ stamp tv
microseconds_exact p tv h =
    ap (λ s. p.round (s + tv.tv_usec))
      (p.round_exact (tv.tv_sec * num_micros_per_second) (omega arith))
    ∙ p.round_exact (stamp tv) h

-- The series holds packets that came at the times `ts`.
pub record Encodes (s : PacketSeries) (ts : List ℕ) : Type 0 where
  pub valid : IsValid s
  pub many : s.length ≡ length ts
  pub decoded : times (pos s.start_time_microseconds) (packets s) ≡ map (λ t. pos t) ts
  pub last :
      s.length ≢ 0
      → final (pos s.start_time_microseconds) (packets s) ≡ pos s.last_time_microseconds

add_distance : (a b : ℤ) → a +ℤ (b -ℤ a) ≡ b
add_distance a b = omega int_laws

add_zero : (a : ℤ) → a +ℤ pos 0 ≡ a
add_zero a = omega (arith, +ℤ_parts a (pos 0), eq_of_parts (a +ℤ pos 0) a)

nil_of_length : (ts : List ℕ) → length ts ≡ 0 → ts ≡ []
nil_of_length [] e = refl
nil_of_length (t ∷ ts) e = absurd (omega arith)

-- A new series holds no packets.
pub packet_series_init-Encodes :
    (zeroed : List PacketData)
    → length zeroed ≡ packet_data_buffer_entries
    → Encodes (packet_series_init zeroed) []
unfolding times
packet_series_init-Encodes zeroed width = record {
  valid = record { width = width; within = omega arith; counter = omega arith };
  many = refl;
  decoded = refl;
  last = λ ne. absurd (ne refl);
}

-- The packet that is stored, and the fields of the series behind it.
module _ (p : Platform) (s : PacketSeries) (tv : Timeval) (size : ℕ) (flow : ℤ)
    (room : s.length < packet_data_buffer_entries) (exact : stamp tv ≤ 2 ^ 53) where
  distance : ℤ
  distance =
      if s.length == 0 then pos 0 else to_int32 (pos (stamp tv) -ℤ pos s.last_time_microseconds)

  stored : PacketData
  stored = record { timestamp = distance; size = size % 65536; flow = to_uint16 flow }

  not_full : leb packet_data_buffer_entries s.length ≡ false
  not_full = ground arith

  start-add_packet :
      (add_packet p s tv size flow).0.start_time_microseconds
      ≡ (if s.length == 0 then stamp tv else s.start_time_microseconds)
  unfolding add_packet
  start-add_packet = rw (not_full, microseconds_exact p tv exact)

  last-add_packet : (add_packet p s tv size flow).0.last_time_microseconds ≡ stamp tv
  unfolding add_packet
  last-add_packet = rw not_full (microseconds_exact p tv exact)

  length-add_packet : (add_packet p s tv size flow).0.length ≡ s.length + 1
  unfolding add_packet
  length-add_packet = rw not_full

  packets-add_packet :
      IsValid s → packets (add_packet p s tv size flow).0 ≡ packets s ++ stored ∷ []
  unfolding stored distance
  packets-add_packet v =
      (add_packet_lem p s tv size flow v room).1 ∙ rw (microseconds_exact p tv exact)

  -- The running time of the new series reaches the time of the packet.
  reaches :
      (ts : List ℕ)
      → Encodes s ts
      → (s.length ≢ 0 → FitsInt32 (pos (stamp tv) -ℤ pos s.last_time_microseconds))
      → (times (pos (add_packet p s tv size flow).0.start_time_microseconds) (packets s)
          ≡ map (λ t. pos t) ts)
        × (final (pos (add_packet p s tv size flow).0.start_time_microseconds) (packets s)
              +ℤ distance
            ≡ pos (stamp tv))
  unfolding distance times final
  reaches ts c near = elim (Bool-cases (s.length == 0)) [
    | inl first ↦
        let none_yet : s.length ≡ 0 = (==_iff s.length 0).0 first in
        let no_times : ts ≡ [] = nil_of_length ts (sym c.many ∙ none_yet) in
        rw (start-add_packet, first, none_yet, no_times) (refl, add_zero (pos (stamp tv)))
    | inr later ↦
        let some_yet : s.length ≢ 0 = ground arith in
        rw (start-add_packet, later)
          (
            c.decoded,
            rw (c.last some_yet, to_int32_exact _ (near some_yet))
                (add_distance (pos s.last_time_microseconds) (pos (stamp tv))),
          )
  ]

-- A packet that is stored, at a time that a `double` holds exactly and within 2^31 microseconds of
-- the packet before, extends by its time the times that the series decodes to.
pub add_packet-Encodes :
    (p : Platform) (s : PacketSeries) (ts : List ℕ) (tv : Timeval) (size : ℕ) (flow : ℤ)
    → Encodes s ts
    → s.length < packet_data_buffer_entries
    → stamp tv ≤ 2 ^ 53
    → (s.length ≢ 0 → FitsInt32 (pos (stamp tv) -ℤ pos s.last_time_microseconds))
    → Encodes (add_packet p s tv size flow).0 (ts ++ stamp tv ∷ [])
add_packet-Encodes p s ts tv size flow c room exact near =
    let s' = (add_packet p s tv size flow).0 in
    let (before, reached) = reaches p s tv size flow room exact ts c near in
    let held = packets-add_packet p s tv size flow room exact c.valid in
    record {
      valid = add_packet-IsValid p s tv size flow c.valid;
      many = omega (
        arith,
        c.many,
        length-add_packet p s tv size flow room exact,
        length-append ts (stamp tv ∷ []),
      );
      decoded =
          rw
            (
              held,
              times-append (pos s'.start_time_microseconds) (packets s)
                  (stored p s tv size flow room exact),
              before,
              map-append,
            )
            (ap (λ t. map (λ t. pos t) ts ++ t ∷ []) (unfold stored in reached));
      last = λ _.
          rw
            (
              held,
              final-append (pos s'.start_time_microseconds) (packets s)
                  (stored p s tv size flow room exact),
              last-add_packet p s tv size flow room exact,
            )
            (unfold stored in reached);
    }
