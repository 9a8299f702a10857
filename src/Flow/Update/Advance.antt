-- ===== src/Flow/Update/Advance.antt =====
-- `flow_table_advance_base_timestamp`: which flows it keeps, and what becomes of their times.
use bismark_passive.Prelude.{
  ℕ, ◌+◌, ◌^◌, ◌<◌, ◌≤◌, ◌≡◌, ◌≢◌, refl, ap, ◌∙◌, true, false, List, [], ◌∷◌, map, arith, length,
  get_or-map, length-map, get_or, lt→ltb, ltb,
}
use bismark_passive.Constants.{flow_table_min_update_offset}
use bismark_passive.Prelude.Int.{
  ℤ, pos, negsuc, ◌+ℤ◌, ◌-ℤ◌, ◌≤ℤ◌, ◌<ℤ◌, int_laws, to_int16, to_int16_exact, to_int16-FitsInt16,
  ltb_ℤ, pos_part, neg_part, +ℤ_parts, -ℤ_parts,
}
use bismark_passive.Platform.{Platform}
use bismark_passive.Flow.{
  FlowEntry, FlowTable, deleted, dec32, is_live, entry_at, flow_table_entry_init,
}
use bismark_passive.Flow.Live.{live_count, live_count-le-length, Live}
use bismark_passive.Flow.Valid.{IsValid, KeepsEntry, Keeps-Indexed}
use bismark_passive.Flow.Update.{too_old, advance_entry, advance_loop, advance_base_timestamp}

le→not_ltb : (a b : ℕ) → a ≤ b → ltb b a ≡ false
le→not_ltb a b h = ground arith

entries-advance_loop :
    (offset : ℤ) (es : List FlowEntry) (n : ℕ)
    → (advance_loop offset es n).0 ≡ map (advance_entry offset) es
unfolding advance_loop
entries-advance_loop offset [] n = refl
entries-advance_loop offset (e ∷ es) n =
    ap (λ l. advance_entry offset e ∷ l) (entries-advance_loop offset es _)

-- The counter goes on counting the live entries, those behind the loop included.
counted-advance_loop :
    (offset : ℤ) (es : List FlowEntry) (n k : ℕ)
    → n ≡ k + live_count es
    → n < 2 ^ 32
    → (advance_loop offset es n).1 ≡ k + live_count (map (advance_entry offset) es)
unfolding advance_loop live_count
counted-advance_loop offset [] n k e small = e
counted-advance_loop offset (x ∷ es) n k e small = ground (
  arith,
  counted-advance_loop offset es (dec32 n) k,
  counted-advance_loop offset es n (k + 1),
  counted-advance_loop offset es n k,
)

pub KeepsEntry-advance : (offset : ℤ) (e : FlowEntry) → KeepsEntry e (advance_entry offset e)
unfolding advance_entry
KeepsEntry-advance offset e = ground arith

pub entry_at-advance :
    (t : FlowTable) (ts : ℤ) (i : ℕ)
    → entry_at (advance_base_timestamp t ts) i
      ≡ advance_entry (ts -ℤ t.base_timestamp_seconds) (entry_at t i)
unfolding advance_base_timestamp advance_entry
entry_at-advance t ts i =
    ap (λ es. get_or es i flow_table_entry_init)
      (entries-advance_loop (ts -ℤ t.base_timestamp_seconds) t.entries t.num_elements)
    ∙ get_or-map (advance_entry (ts -ℤ t.base_timestamp_seconds)) t.entries i flow_table_entry_init
        refl

width-advance :
    (t : FlowTable) (ts : ℤ) → length (advance_base_timestamp t ts).entries ≡ length t.entries
unfolding advance_base_timestamp
width-advance t ts =
    ap length (entries-advance_loop (ts -ℤ t.base_timestamp_seconds) t.entries t.num_elements)
    ∙ length-map (advance_entry (ts -ℤ t.base_timestamp_seconds)) t.entries

counted-advance :
    (t : FlowTable) (ts : ℤ)
    → t.num_elements ≡ live_count t.entries
    → t.num_elements < 2 ^ 32
    → (advance_base_timestamp t ts).num_elements ≡ live_count (advance_base_timestamp t ts).entries
unfolding advance_base_timestamp
counted-advance t ts c small =
    rw (entries-advance_loop (ts -ℤ t.base_timestamp_seconds) t.entries t.num_elements) (
      omega
        (arith, counted-advance_loop (ts -ℤ t.base_timestamp_seconds) t.entries t.num_elements 0))

-- Moving the base keeps the invariant.
pub advance_base_timestamp-IsValid :
    (p : Platform) (t : FlowTable) (ts : ℤ) → IsValid p t → IsValid p (advance_base_timestamp t ts)
advance_base_timestamp-IsValid p t ts v = record {
  width = width-advance t ts ∙ v.width;
  counted =
      counted-advance t ts v.counted
        (omega (arith, v.width, v.counted, live_count-le-length t.entries));
  indexed =
      Keeps-Indexed p t (advance_base_timestamp t ts)
        (λ i. rw (entry_at-advance t ts i) (KeepsEntry-advance _ (entry_at t i))) v.indexed;
}

-- Where the flow of an entry was last seen.
abbrev pub seen_at : FlowTable → ℕ → ℤ
seen_at t i = t.base_timestamp_seconds +ℤ (entry_at t i).last_update_time_seconds

pub base-advance :
    (t : FlowTable) (ts : ℤ) → (advance_base_timestamp t ts).base_timestamp_seconds ≡ ts
unfolding advance_base_timestamp
base-advance t ts = refl

move_offset : (base last ts : ℤ) → last -ℤ (ts -ℤ base) ≡ base +ℤ last -ℤ ts
move_offset base last ts = omega int_laws

add_sub : (ts s : ℤ) → ts +ℤ (s -ℤ ts) ≡ s
add_sub ts s = omega int_laws

wrong_time : (ts s w : ℤ) → pos 32767 <ℤ s -ℤ ts → w ≤ℤ pos 32767 → ts +ℤ w ≢ s
wrong_time ts s w h k e = omega (arith, -ℤ_parts s ts, +ℤ_parts ts w, ap pos_part e, ap neg_part e)

-- The body of the loop on a live entry, by the distance of its time from the new base.
module _ (base ts : ℤ) (e : FlowEntry) (live : is_live e.occupied ≡ true) where
  distance : ℤ
  distance = base +ℤ e.last_update_time_seconds -ℤ ts

  too_old-distance : too_old (ts -ℤ base) e ≡ ltb_ℤ distance flow_table_min_update_offset
  unfolding too_old distance
  too_old-distance = rw (live, move_offset base e.last_update_time_seconds ts)

  advance_deletes : distance <ℤ negsuc 32767 → (advance_entry (ts -ℤ base) e).occupied ≡ deleted
  unfolding advance_entry
  advance_deletes h = rw (too_old-distance, lt→ltb _ _ h)

  advance_stays :
      negsuc 32767 ≤ℤ distance
      → advance_entry (ts -ℤ base) e ≡ record e { last_update_time_seconds = to_int16 distance }
  unfolding advance_entry
  advance_stays h =
      rw (too_old-distance, le→not_ltb _ _ h, live)
        (ap (λ (d : ℤ). record e { last_update_time_seconds = to_int16 d })
          (unfold distance in move_offset base e.last_update_time_seconds ts))

-- A live flow that was last seen more than 32768 s before the new base is deleted.
pub advance_base_timestamp-deletes :
    (t : FlowTable) (ts : ℤ) (i : ℕ)
    → Live t i
    → seen_at t i -ℤ ts <ℤ negsuc 32767
    → (entry_at (advance_base_timestamp t ts) i).occupied ≡ deleted
unfolding distance
advance_base_timestamp-deletes t ts i l h =
    rw (entry_at-advance t ts i) (advance_deletes t.base_timestamp_seconds ts (entry_at t i) l h)

-- A live flow that was last seen at most 32768 s before the new base and at most 32767 s after it
-- stays, last seen at the same time.
pub advance_base_timestamp-seen_at :
    (t : FlowTable) (ts : ℤ) (i : ℕ)
    → Live t i
    → negsuc 32767 ≤ℤ seen_at t i -ℤ ts
    → seen_at t i -ℤ ts ≤ℤ pos 32767
    → let t' = advance_base_timestamp t ts in Live t' i × (seen_at t' i ≡ seen_at t i)
unfolding distance
advance_base_timestamp-seen_at t ts i l low high =
    rw
      (
        entry_at-advance t ts i,
        base-advance t ts,
        advance_stays t.base_timestamp_seconds ts (entry_at t i) l low,
      )
      (l, rw (to_int16_exact _ (low, high)) (add_sub ts (seen_at t i)))

-- A live flow that was last seen more than 32767 s after the new base, which takes a clock that was
-- set back, stays, and is last seen at another time.
pub advance_base_timestamp-set_back :
    (t : FlowTable) (ts : ℤ) (i : ℕ)
    → Live t i
    → pos 32767 <ℤ seen_at t i -ℤ ts
    → let t' = advance_base_timestamp t ts in Live t' i × (seen_at t' i ≢ seen_at t i)
unfolding distance
advance_base_timestamp-set_back t ts i l high =
    rw
      (
        entry_at-advance t ts i,
        base-advance t ts,
        advance_stays t.base_timestamp_seconds ts (entry_at t i) l (omega arith),
      )
      (l, wrong_time ts (seen_at t i) _ high (to_int16-FitsInt16 _).1)
