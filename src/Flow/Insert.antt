-- ===== src/Flow/Insert.antt =====
-- What `process_flow` does after its loop, when the flow is new.
use bismark_passive.Prelude.{
  ℕ, ◌+◌, ◌^◌, ◌%◌, ◌<◌, ◌≡◌, refl, sym, ap, ◌∙◌, true, false, arith, length, set, ◌==◌, Bool-cases,
  ==_iff, inl, inr,
}
use bismark_passive.Prelude.Int.{ℤ, to_int16}
use bismark_passive.Constants.{flow_table_entries, ht_num_probes}
use bismark_passive.Platform.{Platform}
use bismark_passive.Flow.{
  FlowEntry, FlowTable, occupied_but_unsent, is_live, is_empty, flow_hash, entry_at, write_entry,
  probe_index,
}
use bismark_passive.Flow.Live.{
  live_count, live_count-set, live_count-le-length, SameFlow, Live, Used, SameFlow-symm,
  SameFlow-trans, flow_hash-SameFlow,
}
use bismark_passive.Flow.Valid.{Indexed, Reachable, slot, entry_at-write_entry}
use bismark_passive.Flow.Scan.{Absent}

-- The entry that is stored for a new flow.
abbrev pub new_flow : ℤ → FlowEntry → FlowEntry
new_flow offset e = record e {
  occupied = occupied_but_unsent;
  num_packets = 1;
  last_update_time_seconds = to_int16 offset;
}

pub SameFlow-new_flow : (offset : ℤ) (e : FlowEntry) → SameFlow (new_flow offset e) e
SameFlow-new_flow offset e = record {
  ip_source = refl;
  ip_destination = refl;
  port_source = refl;
  port_destination = refl;
  transport_protocol = refl;
}

-- Storing a flow that is absent, at a free probe behind used ones.
module _ (p : Platform) (t : FlowTable) (e e' : FlowEntry) (q : ℕ)
    (lt : slot p e q < length t.entries) (few : q < ht_num_probes) (indexed : Indexed p t)
    (absent : Absent t e) (before : (r : ℕ) → r < q → Used t (slot p e r)) (same : SameFlow e' e)
    (live : is_live e'.occupied ≡ true) (used : is_empty e'.occupied ≡ false) where
  abbrev t' : FlowTable
  t' = write_entry t (slot p e q) e'

  at_new : (j : ℕ) → (slot p e q == j) ≡ true → entry_at t' j ≡ e'
  at_new j h = entry_at-write_entry t (slot p e q) j e' lt ∙ rw h

  at_old : (j : ℕ) → (slot p e q == j) ≡ false → entry_at t' j ≡ entry_at t j
  at_old j h = entry_at-write_entry t (slot p e q) j e' lt ∙ rw h

  Used-after : (j : ℕ) → Used t j → Used t' j
  Used-after j u = elim (Bool-cases (slot p e q == j)) [
    | inl h ↦ rw (at_new j h) used
    | inr h ↦ rw (at_old j h) u
  ]

  Reachable-new : (j : ℕ) → (slot p e q == j) ≡ true → Reachable p t' j
  Reachable-new j h =
      let at_slot : (r : ℕ) → slot p (entry_at t' j) r ≡ slot p e r = λ r.
        ap (λ u. probe_index p (flow_hash p u) r) (at_new j h)
        ∙ ap (λ k. probe_index p k r) (flow_hash-SameFlow p same) in
      record {
        probe = q;
        few = few;
        here = sym ((==_iff _ j).0 h) ∙ sym (at_slot q);
        before = λ r below. rw (at_slot r) (Used-after (slot p e r) (before r below));
      }

  Reachable-old : (j : ℕ) → (slot p e q == j) ≡ false → Live t' j → Reachable p t' j
  Reachable-old j h l =
      let r = indexed.reachable j (rw (at_old j h) at l) in
      record {
        probe = r.probe;
        few = r.few;
        here = rw (at_old j h) r.here;
        before =
            λ k below. rw (at_old j h) (Used-after (slot p (entry_at t j) k) (r.before k below));
      }

  clash :
      (i j : ℕ)
      → (slot p e q == i) ≡ true
      → (slot p e q == j) ≡ false
      → Live t' j
      → SameFlow (entry_at t' i) (entry_at t' j)
      → ⊥
  clash i j hi hj l s =
      let s' : SameFlow e' (entry_at t j) = rw (at_new i hi, at_old j hj) at s in
      absent j (rw (at_old j hj) at l) (SameFlow-trans (SameFlow-symm same) s')

  unique_after :
      (i j : ℕ) → Live t' i → Live t' j → SameFlow (entry_at t' i) (entry_at t' j) → i ≡ j
  unique_after i j li lj s = elim (Bool-cases (slot p e q == i)) [
    | inl hi ↦ elim (Bool-cases (slot p e q == j)) [
      | inl hj ↦ sym ((==_iff _ i).0 hi) ∙ (==_iff _ j).0 hj
      | inr hj ↦ absurd (clash i j hi hj lj s)
    ]
    | inr hi ↦ elim (Bool-cases (slot p e q == j)) [
      | inl hj ↦ absurd (clash j i hj hi li (SameFlow-symm s))
      | inr hj ↦
          indexed.unique i j (rw (at_old i hi) at li) (rw (at_old j hj) at lj)
            (rw (at_old i hi, at_old j hj) at s)
    ]
  ]

  pub Indexed-insert : Indexed p t'
  Indexed-insert = record {
    reachable = λ j l. elim (Bool-cases (slot p e q == j)) [
      | inl h ↦ Reachable-new j h
      | inr h ↦ Reachable-old j h l
    ];
    unique = unique_after;
  }

-- The count after a dead entry becomes live.
pub counted-insert :
    (t : FlowTable) (i : ℕ) (e : FlowEntry)
    → length t.entries ≡ flow_table_entries
    → i < length t.entries
    → t.num_elements ≡ live_count t.entries
    → is_live (entry_at t i).occupied ≡ false
    → is_live e.occupied ≡ true
    → (t.num_elements + 1) % 2 ^ 32 ≡ live_count (set t.entries i e)
counted-insert t i e w lt c dead live =
    ground (arith, live_count-set t.entries i e lt, live_count-le-length t.entries)
