-- ===== src/Flow/Expire.antt =====
-- The first `if` of the probe loop: what deleting an expired entry changes.
use bismark_passive.Prelude.{
  ℕ, ◌≡◌, refl, ◌∙◌, true, false, ◌⊎◌, arith, length, length-set, ◌==◌, Bool-cases, ==_iff, inl,
  inr,
}
use bismark_passive.Prelude.Int.{ℤ}
use bismark_passive.Constants.{flow_table_entries}
use bismark_passive.Platform.{Platform}
use bismark_passive.Flow.{FlowEntry, FlowTable, deleted, is_live, is_expired, expire, entry_at}
use bismark_passive.Flow.Live.{
  live_count, live_count-set, live_count_pos, live_count-le-length, Live, lt-length_of_live,
}
use bismark_passive.Flow.Valid.{
  IsValid, Keeps, KeepsEntry, KeepsEntry-refl, Keeps-Indexed, Keeps-write_entry,
  entry_at-write_entry,
}

abbrev pub Expired : FlowTable → ℤ → ℕ → Type 0
Expired t timestamp i = is_expired t.base_timestamp_seconds timestamp (entry_at t i) ≡ true

abbrev pub Stays : FlowTable → ℤ → ℕ → Type 0
Stays t timestamp i = is_expired t.base_timestamp_seconds timestamp (entry_at t i) ≡ false

live_of_expired :
    (base timestamp : ℤ) (e : FlowEntry)
    → is_expired base timestamp e ≡ true
    → is_live e.occupied ≡ true
unfolding is_expired
live_of_expired base timestamp e h = ground arith

pub expire-stays : (t : FlowTable) (i : ℕ) (ts : ℤ) → Stays t ts i → expire t i ts ≡ t
unfolding expire
expire-stays t i ts h = rw h

KeepsEntry-deleted : (e : FlowEntry) → KeepsEntry e (record e { occupied = deleted })
KeepsEntry-deleted e = record {
  live = λ h. cc;
  same = λ _. record {
    ip_source = refl;
    ip_destination = refl;
    port_source = refl;
    port_destination = refl;
    transport_protocol = refl;
  };
  used = λ _. refl;
}

module _ (t : FlowTable) (i : ℕ) (ts : ℤ) where
  pub expire-Keeps : Keeps t (expire t i ts)
  unfolding expire
  expire-Keeps = elim (Bool-cases (is_expired t.base_timestamp_seconds ts (entry_at t i))) [
    | inl h ↦ rw h (
        Keeps-write_entry t i (record (entry_at t i) { occupied = deleted })
          (lt-length_of_live t.entries i
            (live_of_expired t.base_timestamp_seconds ts (entry_at t i) h))
          (KeepsEntry-deleted (entry_at t i)))
    | inr h ↦ rw h (λ j. KeepsEntry-refl (entry_at t j))
  ]

  pub base-expire : (expire t i ts).base_timestamp_seconds ≡ t.base_timestamp_seconds
  unfolding expire
  base-expire = ground arith

  pub dropped-expire : (expire t i ts).num_dropped_flows ≡ t.num_dropped_flows
  unfolding expire
  dropped-expire = ground arith

  pub width-expire : length (expire t i ts).entries ≡ length t.entries
  unfolding expire
  width-expire =
      ground (arith, length-set t.entries i (record (entry_at t i) { occupied = deleted }))

  -- Deleting one expired entry takes one from the number of live entries.
  pub counted-expire :
      length t.entries ≡ flow_table_entries
      → t.num_elements ≡ live_count t.entries
      → (expire t i ts).num_elements ≡ live_count (expire t i ts).entries
  unfolding expire
  counted-expire w c = elim (Bool-cases (is_expired t.base_timestamp_seconds ts (entry_at t i))) [
    | inl h ↦
        let l = live_of_expired t.base_timestamp_seconds ts (entry_at t i) h in
        let lt = lt-length_of_live t.entries i l in
        rw h (
          ground (
            arith,
            l,
            live_count-set t.entries i (record (entry_at t i) { occupied = deleted }) lt,
            live_count_pos t.entries i l,
            live_count-le-length t.entries,
          ))
    | inr h ↦ rw h c
  ]

  pub expire-IsValid : (p : Platform) → IsValid p t → IsValid p (expire t i ts)
  expire-IsValid p v = record {
    width = width-expire ∙ v.width;
    counted = counted-expire v.width v.counted;
    indexed = Keeps-Indexed p t (expire t i ts) expire-Keeps v.indexed;
  }

  -- An entry is left as it was, or it was expired and is deleted.
  pub entry_at-expire :
      (j : ℕ)
      → (entry_at (expire t i ts) j ≡ entry_at t j)
        ⊎ (Expired t ts j
            × (entry_at (expire t i ts) j ≡ record (entry_at t j) { occupied = deleted }))
  unfolding expire
  entry_at-expire j = elim (Bool-cases (is_expired t.base_timestamp_seconds ts (entry_at t i))) [
    | inr h ↦ rw h (inl refl)
    | inl h ↦
        let lt =
          lt-length_of_live t.entries i
            (live_of_expired t.base_timestamp_seconds ts (entry_at t i) h) in
        let e = entry_at-write_entry t i j (record (entry_at t i) { occupied = deleted }) lt in
        elim (Bool-cases (i == j)) [
          | inl same ↦
              rw (h, e, same) (inr (rw (← (==_iff i j).0 same) h, rw (← (==_iff i j).0 same) refl))
          | inr other ↦ rw (h, e, other) (inl refl)
        ]
  ]

  pub expire_deletes :
      Expired t ts i → entry_at (expire t i ts) i ≡ record (entry_at t i) { occupied = deleted }
  unfolding expire
  expire_deletes h =
      let lt =
        lt-length_of_live t.entries i
          (live_of_expired t.base_timestamp_seconds ts (entry_at t i) h) in
      rw (
        h,
        entry_at-write_entry t i i (record (entry_at t i) { occupied = deleted }) lt,
        (==_iff i i).1 refl,
      )

  -- What is still live after the test is not expired.
  pub stays_of_live : Live (expire t i ts) i → Stays (expire t i ts) ts i
  stays_of_live l = elim (Bool-cases (is_expired t.base_timestamp_seconds ts (entry_at t i))) [
    | inl h ↦ let l' : is_live deleted ≡ true = rw (expire_deletes h) at l in cc
    | inr h ↦ rw (expire-stays t i ts h) h
  ]
