-- ===== src/Flow/Process.antt =====
-- `flow_table_process_flow` as a whole: the invariant, the id that it returns, and the other flows.
use bismark_passive.Prelude.{
  ℕ, ◌+◌, ◌<◌, ◌≡◌, ◌≢◌, refl, ◌∙◌, true, false, ◌⊎◌, arith, length, set, length-set, ◌==◌,
  if◌then◌else◌, Bool-cases, ==_iff, inl, inr, Option, none, some,
}
use bismark_passive.Prelude.Int.{ℤ, ◌+ℤ◌, ◌-ℤ◌, to_int16, to_int16_exact, FitsInt16, int_laws}
use bismark_passive.Constants.{flow_table_entries, ht_num_probes}
use bismark_passive.Constants.FlowId
use bismark_passive.Platform.{Platform}
use bismark_passive.Flow.{
  inc32, FlowEntry, FlowTable, deleted, is_live, entry_at, write_entry, insert_flow, refresh,
  process_flow, out_of_bounds, finish, Probed, matched, ended, probe_loop,
}
use bismark_passive.Flow.Live.{
  live_count_pos, live_of_count, SameFlow, Live, SameFlow-symm, SameFlow-trans, lt-length_of_live,
}
use bismark_passive.Flow.Valid.{
  IsValid, Indexed, Keeps-Indexed, KeepsEntry-refl, slot-lt, entry_at-write_entry,
}
use bismark_passive.Flow.Refresh.{refreshed, entry_at-refresh, base-refresh, refresh-IsValid}
use bismark_passive.Flow.Scan.{Aged, Aged-refl}
use bismark_passive.Flow.Expire.{Expired}
use bismark_passive.Flow.Loop.{Matched, Ended, Outcome, probe_loop-Outcome}
use bismark_passive.Flow.Insert.{new_flow, SameFlow-new_flow, Indexed-insert, counted-insert}

-- The flow of `e` stands in the table under the id, last seen at `ts`.
pub record Recorded (t : FlowTable) (e : FlowEntry) (ts : ℤ) (id : ℕ) : Type 0 where
  pub index : ℕ
  pub in_table : index < flow_table_entries
  pub id_of_index : id ≡ index + FlowId.first_unreserved
  pub live : Live t index
  pub same : SameFlow e (entry_at t index)
  pub seen : t.base_timestamp_seconds +ℤ (entry_at t index).last_update_time_seconds ≡ ts

-- What is live after some deletions was live before, with the same entry.
pub live_before :
    (ts : ℤ) (s t : FlowTable) (i : ℕ)
    → Aged ts s t
    → Live t i
    → Live s i × (entry_at t i ≡ entry_at s i)
live_before ts s t i a l = elim (a.entry i) [
  | inl e ↦ (rw e at l, e)
  | inr (x, e) ↦ let l' : is_live deleted ≡ true = rw e at l in cc
]

fits_of_bounds :
    (t : FlowTable) (ts : ℤ)
    → out_of_bounds t ts ≡ false
    → 0 < t.num_elements
    → FitsInt16 (ts -ℤ t.base_timestamp_seconds)
unfolding out_of_bounds
fits_of_bounds t ts h n = ground arith

add_sub_cancel : (a b : ℤ) → a +ℤ (b -ℤ a) ≡ b
add_sub_cancel a b = omega int_laws

-- `base + (int16_t)(ts - base)` is `ts` again, where the difference fits.
seen_of_fits : (base ts : ℤ) → FitsInt16 (ts -ℤ base) → base +ℤ to_int16 (ts -ℤ base) ≡ ts
seen_of_fits base ts h = rw (to_int16_exact (ts -ℤ base) h) (add_sub_cancel base ts)

sub_self_fits : (ts : ℤ) → FitsInt16 (ts -ℤ ts)
sub_self_fits ts = omega int_laws

ne_test : (a j : ℕ) → j + FlowId.first_unreserved ≢ a + FlowId.first_unreserved → (a == j) ≡ false
ne_test a j ne = ground arith

module _ (p : Platform) (t : FlowTable) (e : FlowEntry) (ts : ℤ) where
  positive_before :
      (t' : FlowTable)
      → IsValid p t
      → IsValid p t'
      → Aged ts t t'
      → 0 < t'.num_elements
      → 0 < t.num_elements
  positive_before t' v v' a n =
      let (i, l) = live_of_count t'.entries (omega (arith, v'.counted)) in
      omega (arith, v.counted, live_count_pos t.entries i (live_before ts t t' i a l).0)

  -- what a call leaves behind, when it returns `id`
  pub record Processed (t' : FlowTable) (id : ℕ) : Type 0 where
    pub valid : IsValid p t'
    pub recorded : id ≢ FlowId.error → Recorded t' e ts id
    pub others :
        (j : ℕ)
        → j + FlowId.first_unreserved ≢ id
        → (entry_at t' j ≡ entry_at t j)
          ⊎ (Expired t ts j × (entry_at t' j ≡ record (entry_at t j) { occupied = deleted }))

  drop-Processed :
      (u : FlowTable)
      → IsValid p u
      → Aged ts t u
      → Processed (record u { num_dropped_flows = u.num_dropped_flows + 1 }) FlowId.error
  drop-Processed u v a = record {
    valid = record {
      width = v.width;
      counted = v.counted;
      indexed = Keeps-Indexed p u _ (λ i. KeepsEntry-refl (entry_at u i)) v.indexed;
    };
    recorded = λ ne. absurd (ne refl);
    others = λ j _. a.entry j;
  }

  Matched-Processed :
      (u : FlowTable) (idx : ℕ)
      → IsValid p t
      → out_of_bounds t ts ≡ false
      → Matched p e ts t u idx
      → Processed u (idx + FlowId.first_unreserved)
  Matched-Processed u idx v inside m = rw m.after (record {
    valid = refresh-IsValid m.found idx ts m.live p m.valid;
    recorded = λ _. record {
      index = idx;
      in_table = rw m.valid.width at (lt-length_of_live m.found.entries idx m.live);
      id_of_index = refl;
      live = rw here m.live;
      same = rw here (
          SameFlow-trans m.same (record {
            ip_source = refl;
            ip_destination = refl;
            port_source = refl;
            port_destination = refl;
            transport_protocol = refl;
          }));
      seen =
          rw (here, base-refresh m.found idx ts m.live)
            (seen_of_fits m.found.base_timestamp_seconds ts fits);
    };
    others = λ j ne. rw (there j ne) (m.aged.entry j);
  })
    where
      here :
          entry_at (refresh m.found idx ts) idx
          ≡ refreshed (ts -ℤ m.found.base_timestamp_seconds) (entry_at m.found idx)
      here = entry_at-refresh m.found idx ts m.live idx ∙ rw ((==_iff idx idx).1 refl)

      there :
          (j : ℕ)
          → j + FlowId.first_unreserved ≢ idx + FlowId.first_unreserved
          → entry_at (refresh m.found idx ts) j ≡ entry_at m.found j
      there j ne = entry_at-refresh m.found idx ts m.live j ∙ ground arith

      fits : FitsInt16 (ts -ℤ m.found.base_timestamp_seconds)
      fits = rw m.aged.base (
          fits_of_bounds t ts inside (
            omega (
              arith,
              v.counted,
              live_count_pos t.entries idx (live_before ts t m.found idx m.aged m.live).0,
            )))

  stored-Processed :
      (u : FlowTable) (a : ℕ) (base : ℤ)
      → Ended p e ts t u (some a)
      → FitsInt16 (ts -ℤ base)
      → Processed
          (record u {
            entries = set u.entries a (new_flow (ts -ℤ base) e);
            base_timestamp_seconds = base;
            num_elements = inc32 u.num_elements;
          })
          (a + FlowId.first_unreserved)
  stored-Processed u a base m fits =
      let (q, few, is, dead, before) = m.free a refl in
      let lt : a < length u.entries = rw (is, m.valid.width) (slot-lt p e q) in
      let at_write = λ (j : ℕ). entry_at-write_entry u a j (new_flow (ts -ℤ base) e) lt in
      let here : entry_at (write_entry u a (new_flow (ts -ℤ base) e)) a ≡ new_flow (ts -ℤ base) e =
        at_write a ∙ rw ((==_iff a a).1 refl) in
      let same = SameFlow-new_flow (ts -ℤ base) e in
      let indexed : Indexed p (write_entry u a (new_flow (ts -ℤ base) e)) = rw is (
        Indexed-insert p u e (new_flow (ts -ℤ base) e) q (rw is at lt) few m.valid.indexed m.absent
          before same refl refl) in
      record {
        valid = record {
          width = length-set u.entries a (new_flow (ts -ℤ base) e) ∙ m.valid.width;
          counted =
              counted-insert u a (new_flow (ts -ℤ base) e) m.valid.width lt m.valid.counted dead
                refl;
          indexed = Keeps-Indexed p _ _ (λ i. KeepsEntry-refl _) indexed;
        };
        recorded = λ _. record {
          index = a;
          in_table = rw m.valid.width at lt;
          id_of_index = refl;
          live = rw here refl;
          same = rw here (SameFlow-symm same);
          seen = rw here (seen_of_fits base ts fits);
        };
        others = λ j ne. rw (at_write j, ne_test a j ne) (m.aged.entry j);
      }

  insert-Processed :
      (u : FlowTable) (available : Option ℕ)
      → IsValid p t
      → out_of_bounds t ts ≡ false
      → Ended p e ts t u available
      → let (t', id) = insert_flow e ts u available in Processed t' id
  unfolding insert_flow
  insert-Processed u none v inside m = drop-Processed u m.valid m.aged
  insert-Processed u (some a) v inside m =
      stored-Processed u a (if u.num_elements == 0 then ts else u.base_timestamp_seconds) m
        (elim (Bool-cases (u.num_elements == 0)) [
          | inl unused ↦ rw unused (sub_self_fits ts)
          | inr more ↦
              rw (more, m.aged.base)
                (fits_of_bounds t ts inside (positive_before u v m.valid m.aged (ground arith)))
        ])

  pub process_flow-Processed : IsValid p t → let (t', id) = process_flow p t e ts in Processed t' id
  unfolding process_flow
  process_flow-Processed v = elim (Bool-cases (out_of_bounds t ts)) [
    | inl far ↦ rw far (drop-Processed t v (Aged-refl ts t))
    | inr inside ↦
        rw inside (
          finished inside (probe_loop p e ts ht_num_probes 0 t none)
            (probe_loop-Outcome p t e ts v))
  ]
    where
      finished :
          out_of_bounds t ts ≡ false
          → (r : Probed) → Outcome p e ts t r
          → let (t', id) = finish e ts r in Processed t' id
      finished inside (matched u idx) m = Matched-Processed u idx v inside m
      finished inside (ended u available) m = insert-Processed u available v inside m
