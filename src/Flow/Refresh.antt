-- ===== src/Flow/Refresh.antt =====
-- The second `if` of the probe loop: a packet of a flow that the table has.
use bismark_passive.Prelude.{ℕ, ◌≡◌, refl, ◌∙◌, arith, length-set, ◌==◌, if◌then◌else◌, ltb, ◌&&◌}
use bismark_passive.Prelude.Int.{ℤ, ◌-ℤ◌, to_int16}
use bismark_passive.Platform.{Platform}
use bismark_passive.Flow.{FlowEntry, FlowTable, is_unsent, refresh, inc4, entry_at}
use bismark_passive.Flow.Live.{live_count-set, Live, lt-length_of_live}
use bismark_passive.Flow.Valid.{
  IsValid, Keeps, KeepsEntry, Keeps-Indexed, Keeps-write_entry, entry_at-write_entry,
}

-- The entry that `refresh` writes.
abbrev pub refreshed : ℤ → FlowEntry → FlowEntry
refreshed offset e = record e {
  last_update_time_seconds = to_int16 offset;
  num_packets =
      (if is_unsent e.occupied && ltb e.num_packets 63 then inc4 e.num_packets else e.num_packets);
}

KeepsEntry-refreshed : (offset : ℤ) (e : FlowEntry) → KeepsEntry e (refreshed offset e)
KeepsEntry-refreshed offset e = record {
  live = λ h. h;
  same = λ _. record {
    ip_source = refl;
    ip_destination = refl;
    port_source = refl;
    port_destination = refl;
    transport_protocol = refl;
  };
  used = λ h. h;
}

module _ (t : FlowTable) (i : ℕ) (ts : ℤ) (live : Live t i) where
  pub entry_at-refresh :
      (j : ℕ)
      → entry_at (refresh t i ts) j ≡ (
          if i == j
          then refreshed (ts -ℤ t.base_timestamp_seconds) (entry_at t i)
          else entry_at t j)
  unfolding refresh
  entry_at-refresh j = entry_at-write_entry t i j _ (lt-length_of_live t.entries i live)

  pub base-refresh : (refresh t i ts).base_timestamp_seconds ≡ t.base_timestamp_seconds
  unfolding refresh
  base-refresh = refl

  refresh-Keeps : Keeps t (refresh t i ts)
  unfolding refresh
  refresh-Keeps =
      Keeps-write_entry t i _ (lt-length_of_live t.entries i live)
        (KeepsEntry-refreshed (ts -ℤ t.base_timestamp_seconds) (entry_at t i))

  pub refresh-IsValid : (p : Platform) → IsValid p t → IsValid p (refresh t i ts)
  unfolding refresh
  refresh-IsValid p v = record {
    width = length-set t.entries i _ ∙ v.width;
    counted = omega (
      arith,
      v.counted,
      live_count-set t.entries i (refreshed (ts -ℤ t.base_timestamp_seconds) (entry_at t i))
          (lt-length_of_live t.entries i live),
    );
    indexed = Keeps-Indexed p t (refresh t i ts) refresh-Keeps v.indexed;
  }
