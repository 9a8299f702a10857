-- ===== src/Flow/Loop.antt =====
-- How the probe loop ends: at the flow, or with the proof that the table does not have it.
use bismark_passive.Prelude.{
  ℕ, zero, suc, ◌+◌, ◌<◌, ◌≡◌, refl, sym, ap, ◌∙◌, Bool, true, false, ◌⊎◌, ◌&&◌, arith,
  if◌then◌else◌, subst, Bool-cases, Option-cases, inl, inr, Option, none, some,
}
use native.Mathlib.Decide.{dec_lt, ℕ_discrete}
use bismark_passive.Prelude.Int.{ℤ}
use bismark_passive.Constants.{ht_num_probes}
use bismark_passive.Platform.{Platform}
use bismark_passive.Flow.{
  FlowEntry, FlowTable, Occupied, is_live, expire, flow_entry_compare, refresh, is_empty, entry_at,
  probe_index, Probed, matched, ended, probe_loop, or_first,
}
use bismark_passive.Flow.Live.{
  SameFlow, Live, Used, SameFlow-of_compare, compare_of_SameFlow, flow_hash-SameFlow,
}
use bismark_passive.Flow.Valid.{IsValid, slot}
use bismark_passive.Flow.Expire.{Stays, stays_of_live}
use bismark_passive.Flow.Scan.{Aged, Absent, Differs, Scanned, Aged-refl, Scanned-expire}

-- The `return` in the loop: `found` is the table before the entry is refreshed.
pub record Matched (p : Platform) (e : FlowEntry) (ts : ℤ) (s : FlowTable) (t : FlowTable) (idx : ℕ)
    : Type 0 where
  pub found : FlowTable
  pub valid : IsValid p found
  pub aged : Aged ts s found
  pub live : Live found idx
  pub stays : Stays found ts idx
  pub same : SameFlow e (entry_at found idx)
  pub after : t ≡ refresh found idx ts

pub record Ended (p : Platform) (e : FlowEntry) (ts : ℤ) (s : FlowTable) (t : FlowTable)
    (available : Option ℕ) : Type 0 where
  pub valid : IsValid p t
  pub aged : Aged ts s t
  pub absent : Absent t e
  pub free :
      (a : ℕ)
      → available ≡ some a
      → (q : ℕ) × (q < ht_num_probes)
        × (a ≡ slot p e q)
        × (is_live (entry_at t a).occupied ≡ false)
        × ((r : ℕ) → r < q → Used t (slot p e r))
  pub full :
      available ≡ none → (q : ℕ) → q < ht_num_probes → Live t (slot p e q) × Stays t ts (slot p e q)

abbrev pub Outcome : Platform → FlowEntry → ℤ → FlowTable → Probed → Type 0
Outcome p e ts s (matched t idx) = Matched p e ts s t idx
Outcome p e ts s (ended t available) = Ended p e ts s t available

lt_suc_cases : (q n : ℕ) → q < n + 1 → (q < n) ⊎ (q ≡ n)
lt_suc_cases q n h = grind arith

not_live_empty : (o : Occupied) → is_live o ≡ true → is_empty o ≡ true → ⊥
not_live_empty o l e = ground arith

and_true : (a b : Bool) → (a && b) ≡ true → (a ≡ true) × (b ≡ true)
and_true a b h = ground arith

module _ (p : Platform) (e : FlowEntry) (ts : ℤ) (s t : FlowTable) where
  -- A flow in the table would have been met at one of its probes.
  Absent-of :
      (probe : ℕ) (available : Option ℕ)
      → Scanned p e ts s probe t available
      → (probe ≡ ht_num_probes) ⊎ (is_empty (entry_at t (slot p e probe)).occupied ≡ true)
      → Absent t e
  Absent-of probe available v stop i l same =
      let r = v.valid.indexed.reachable i l in
      let at_slot : (q : ℕ) → slot p (entry_at t i) q ≡ slot p e q =
        λ q. ap (λ h. probe_index p h q) (sym (flow_hash-SameFlow p same)) in
      let here : i ≡ slot p e r.probe = r.here ∙ at_slot r.probe in
      let before : (q : ℕ) → q < r.probe → Used t (slot p e q) =
        λ q lt. rw at_slot at (r.before q lt) in
      elim (dec_lt r.probe probe) [
        | yes lt ↦
            v.differs r.probe lt (subst (λ x. Live t x) here l)
              (subst (λ x. SameFlow e (entry_at t x)) here same)
        | no ge ↦ elim stop [
          | inl done ↦ omega (arith, r.few)
          | inr emp ↦ elim (ℕ_discrete r.probe probe) [
            | yes eq ↦
                not_live_empty (entry_at t (slot p e probe)).occupied
                  (subst (λ x. Live t (slot p e x)) eq (subst (λ x. Live t x) here l)) emp
            | no ne ↦ cc (emp, before probe (omega arith))
          ]
        ]
      ]

  abbrev available_after : ℕ → Option ℕ → Option ℕ
  available_after i available =
      (if is_live (entry_at t i).occupied then available else or_first available i)

  free_after :
      (probe : ℕ) (available : Option ℕ)
      → Scanned p e ts s probe t available
      → (a : ℕ) → available_after (slot p e probe) available ≡ some a
      → (q : ℕ) × (q < probe + 1) × (a ≡ slot p e q) × (is_live (entry_at t a).occupied ≡ false)
  free_after probe available v a h =
      elim (Bool-cases (is_live (entry_at t (slot p e probe)).occupied)) [
        | inl l ↦ earlier (v.free a (rw l at h))
        | inr d ↦ elim (Option-cases available) [
          | inl n ↦
              let h' : some (slot p e probe) ≡ some a = rw (d, n) at h in
              let same : slot p e probe ≡ a = cc in
              (
                probe,
                omega arith,
                sym same,
                subst (λ x. is_live (entry_at t x).occupied ≡ false) same d,
              )
          | inr (b, sb) ↦ let h' : some b ≡ some a = rw (d, sb) at h in earlier (v.free a (sb ∙ h'))
        ]
      ]
    where
      earlier :
          (q : ℕ) × (q < probe) × (a ≡ slot p e q) × (is_live (entry_at t a).occupied ≡ false)
          → (q : ℕ) × (q < probe + 1) × (a ≡ slot p e q) × (is_live (entry_at t a).occupied ≡ false)
      earlier (q, lt, is, dead) = (q, omega arith, is, dead)

  full_after :
      (probe : ℕ) (available : Option ℕ)
      → available_after (slot p e probe) available ≡ none
      → Live t (slot p e probe) × (available ≡ none)
  full_after probe available h =
      elim (Bool-cases (is_live (entry_at t (slot p e probe)).occupied)) [
        | inl l ↦ (l, rw l at h)
        | inr d ↦ absurd (never available (slot p e probe) (rw d at h))
      ]
    where
      never : (o : Option ℕ) (i : ℕ) → or_first o i ≡ none → ⊥
      never none i h = cc
      never (some a) i h = cc

  Scanned-next :
      (probe : ℕ) (available : Option ℕ)
      → Scanned p e ts s probe t available
      → (is_live (entry_at t (slot p e probe)).occupied
          && flow_entry_compare e (entry_at t (slot p e probe)))
        ≡ false
      → Used t (slot p e probe)
      → (Live t (slot p e probe) → Stays t ts (slot p e probe))
      → Scanned p e ts s (probe + 1) t (available_after (slot p e probe) available)
  Scanned-next probe available v m u st = record {
    valid = v.valid;
    aged = v.aged;
    used = λ q lt. elim (lt_suc_cases q probe lt) [ inl h ↦ v.used q h | inr h ↦ rw h u ];
    differs = λ q lt. elim (lt_suc_cases q probe lt) [
      | inl h ↦ v.differs q h
      | inr h ↦ rw h differs_here
    ];
    free = free_after probe available v;
    full = λ h q lt.
        let (l, n) = full_after probe available h in
        elim (lt_suc_cases q probe lt) [ inl h ↦ v.full n q h | inr h ↦ rw h (l, st l) ];
  }
    where
      differs_here : Differs t e (slot p e probe)
      differs_here l same =
          let m' : (true && true) ≡ false =
            rw (l, compare_of_SameFlow e (entry_at t (slot p e probe)) same) at m in
          cc

  -- The loop leaves at an empty entry.
  Ended-break :
      (probe : ℕ) (available : Option ℕ)
      → probe < ht_num_probes
      → Scanned p e ts s probe t available
      → is_empty (entry_at t (slot p e probe)).occupied ≡ true
      → Ended p e ts s t (available_after (slot p e probe) available)
  Ended-break probe available few v emp = record {
    valid = v.valid;
    aged = v.aged;
    absent = Absent-of probe available v (inr emp);
    free = λ a h.
        let (q, lt, is, dead) = free_after probe available v a h in
        (q, omega arith, is, dead, λ r below. v.used r (omega arith));
    full = λ h. absurd (
        not_live_empty (entry_at t (slot p e probe)).occupied (full_after probe available h).0 emp);
  }

  -- The loop runs out of probes.
  Ended-done :
      (available : Option ℕ)
      → Scanned p e ts s ht_num_probes t available
      → Ended p e ts s t available
  Ended-done available v = record {
    valid = v.valid;
    aged = v.aged;
    absent = Absent-of ht_num_probes available v (inl refl);
    free = λ a h.
        let (q, lt, is, dead) = v.free a h in (q, lt, is, dead, λ r below. v.used r (omega arith));
    full = v.full;
  }

module _ (p : Platform) (e : FlowEntry) (ts : ℤ) (s : FlowTable) where
  -- The loop ends in one of its two ways, from any round on.
  loop-Outcome :
      (rounds probe : ℕ) (t : FlowTable) (available : Option ℕ)
      → probe + rounds ≡ ht_num_probes
      → Scanned p e ts s probe t available
      → Outcome p e ts s (probe_loop p e ts rounds probe t available)
  unfolding probe_loop
  loop-Outcome zero probe t available sum v =
      Ended-done p e ts s t available (let k : probe ≡ ht_num_probes = omega arith in rw k at v)
  loop-Outcome (suc rounds) probe t available sum v =
      let i = slot p e probe in
      let t' = expire t i ts in
      let v' = Scanned-expire p e ts s probe i t available v in
      elim (Bool-cases (is_live (entry_at t' i).occupied && flow_entry_compare e (entry_at t' i))) [
        | inl m ↦ rw m (record {
          found = t';
          valid = v'.valid;
          aged = v'.aged;
          live = (and_true _ _ m).0;
          stays = stays_of_live t i ts (and_true _ _ m).0;
          same = SameFlow-of_compare e (entry_at t' i) (and_true _ _ m).1;
          after = refl;
        })
        | inr m ↦ elim (Bool-cases (is_empty (entry_at t' i).occupied)) [
          | inl emp ↦ rw (m, emp) (Ended-break p e ts s t' probe available (omega arith) v' emp)
          | inr u ↦
              rw (m, u)
                (loop-Outcome rounds (probe + 1) t' _ (omega arith)
                  (Scanned-next p e ts s t' probe available v' m u (stays_of_live t i ts)))
        ]
      ]

-- The loop of `process_flow`, started on a valid table.
pub probe_loop-Outcome :
    (p : Platform) (t : FlowTable) (e : FlowEntry) (ts : ℤ)
    → IsValid p t
    → Outcome p e ts t (probe_loop p e ts ht_num_probes 0 t none)
probe_loop-Outcome p t e ts v = loop-Outcome p e ts t ht_num_probes 0 t none refl (record {
  valid = v;
  aged = Aged-refl ts t;
  used = λ q lt. absurd (omega arith);
  differs = λ q lt. absurd (omega arith);
  free = λ a h. cc;
  full = λ h q lt. absurd (omega arith);
})
