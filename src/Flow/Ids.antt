-- ===== src/Flow/Ids.antt =====
-- What a caller may rely on of the ids of `flow_table_process_flow`.
use bismark_passive.Prelude.{
  ℕ, ◌+◌, ◌<◌, ◌≤◌, ◌≡◌, ◌≢◌, ◌↔◌, refl, sym, ap, ◌∙◌, true, false, ◌⊎◌, arith, inl, inr,
  Bool-cases, none, some, subst,
}
use native.Mathlib.Decide.{ℕ_discrete}
use bismark_passive.Prelude.Int.{ℤ, ◌+ℤ◌, ◌≤ℤ◌}
use bismark_passive.Constants.{ht_num_probes, flow_table_expiration_seconds}
use bismark_passive.Constants.FlowId
use bismark_passive.Platform.{Platform}
use bismark_passive.Flow.{
  FlowEntry, FlowTable, deleted, entry_at, insert_flow, is_live, is_expired, process_flow,
  out_of_bounds, finish, Probed, matched, ended, probe_loop, probe_index,
}
use bismark_passive.Flow.Live.{SameFlow, Live, SameFlow-symm, SameFlow-trans, flow_hash-SameFlow}
use bismark_passive.Flow.Valid.{IsValid, slot}
use bismark_passive.Flow.Expire.{Expired, Stays}
use bismark_passive.Flow.Scan.{Aged}
use bismark_passive.Flow.Loop.{Outcome, probe_loop-Outcome}
use bismark_passive.Flow.Process.{Recorded, process_flow-Processed, live_before}

-- Processing a packet keeps the invariant: the table has its width, counts its live entries, finds
-- each of them by its probes, and holds no flow twice.
pub process_flow-IsValid :
    (p : Platform) (t : FlowTable) (e : FlowEntry) (ts : ℤ)
    → IsValid p t
    → IsValid p (process_flow p t e ts).0
process_flow-IsValid p t e ts v = (process_flow-Processed p t e ts v).valid

-- An id other than the error id is 7 above the index of a live entry of the new table which has the
-- packet's addresses, ports and protocol, and whose base plus offset is exactly the packet's time.
pub process_flow-Recorded :
    (p : Platform) (t : FlowTable) (e : FlowEntry) (ts : ℤ)
    → IsValid p t
    → (process_flow p t e ts).1 ≢ FlowId.error
    → let (t', id) = process_flow p t e ts in Recorded t' e ts id
process_flow-Recorded p t e ts v = (process_flow-Processed p t e ts v).recorded

-- Every entry but the one of the returned id stays as it was, unless it was sent and had no packet
-- for more than 30 minutes: then it may be marked deleted, and nothing else of it changes.
pub process_flow-others :
    (p : Platform) (t : FlowTable) (e : FlowEntry) (ts : ℤ) (j : ℕ)
    → IsValid p t
    → j + FlowId.first_unreserved ≢ (process_flow p t e ts).1
    → (entry_at (process_flow p t e ts).0 j ≡ entry_at t j)
      ⊎ (Expired t ts j
          × (entry_at (process_flow p t e ts).0 j ≡ record (entry_at t j) { occupied = deleted }))
process_flow-others p t e ts j v = (process_flow-Processed p t e ts v).others j

-- On a valid table the returned id is at most 65535: it fits the `uint16_t` of the caller.
pub process_flow-lt :
    (p : Platform) (t : FlowTable) (e : FlowEntry) (ts : ℤ)
    → IsValid p t
    → (process_flow p t e ts).1 ≤ FlowId.last_unreserved
process_flow-lt p t e ts v = elim (ℕ_discrete (process_flow p t e ts).1 FlowId.error) [
  | yes z ↦ omega arith
  | no n ↦ let r = process_flow-Recorded p t e ts v n in omega (arith, r.in_table, r.id_of_index)
]

-- A live entry that is not expired is there after any deletions.
pub live_after :
    (ts : ℤ) (s t : FlowTable) (i : ℕ)
    → Aged ts s t
    → Live s i
    → Stays s ts i
    → entry_at t i ≡ entry_at s i
live_after ts s t i a l st = elim (a.entry i) [ inl e ↦ e | inr (x, _) ↦ cc ]

module _ (p : Platform) (t : FlowTable) (e : FlowEntry) (ts : ℤ) (i : ℕ) (v : IsValid p t)
    (l : Live t i) (st : Stays t ts i) (same : SameFlow e (entry_at t i)) where
  found_again : (r : Probed) → Outcome p e ts t r → (finish e ts r).1 ≡ i + FlowId.first_unreserved
  found_again (matched u idx) m =
      let k = live_after ts t m.found i m.aged l st in
      let is : idx ≡ i =
        m.valid.indexed.unique idx i m.live (rw k l)
          (SameFlow-trans (SameFlow-symm m.same) (rw k same)) in
      rw is
  found_again (ended u available) m =
      let k = live_after ts t u i m.aged l st in absurd (m.absent i (rw k l) (rw k same))

  -- A flow that the table has, and that has not expired, keeps its id.
  pub process_flow-known :
      out_of_bounds t ts ≡ false → (process_flow p t e ts).1 ≡ i + FlowId.first_unreserved
  unfolding process_flow
  process_flow-known inside =
      rw inside
        (found_again (probe_loop p e ts ht_num_probes 0 t none) (probe_loop-Outcome p t e ts v))

pub not_expired :
    (base ts : ℤ) (ts' : ℤ) (e : FlowEntry)
    → base +ℤ e.last_update_time_seconds ≡ ts
    → ts' ≤ℤ ts +ℤ flow_table_expiration_seconds
    → is_expired base ts' e ≡ false
unfolding is_expired
not_expired base ts ts' e seen near = rw seen (ground arith)

-- The three probes of a flow are taken, for good, by other flows.
abbrev pub Crowded : Platform → FlowTable → FlowEntry → ℤ → Type 0
Crowded p t e ts =
    (q : ℕ)
    → q < ht_num_probes
    → Live t (slot p e q) × Stays t ts (slot p e q) × (SameFlow e (entry_at t (slot p e q)) → ⊥)

module _ (p : Platform) (t : FlowTable) (e : FlowEntry) (ts : ℤ) (v : IsValid p t) where
  Crowded-of_error :
      (r : Probed) → Outcome p e ts t r → (finish e ts r).1 ≡ FlowId.error → Crowded p t e ts
  unfolding insert_flow
  Crowded-of_error (matched u idx) m h = absurd (omega arith)
  Crowded-of_error (ended u (some a)) m h = absurd (omega arith)
  Crowded-of_error (ended u none) m h = λ q lt.
      let (l, st) = m.full refl q lt in
      let (l', k) = live_before ts t u (slot p e q) m.aged l in
      (l', rw (m.aged.base, k) at st, λ s. m.absent (slot p e q) l (rw k s))

  error_of_Crowded :
      (r : Probed) → Outcome p e ts t r → Crowded p t e ts → (finish e ts r).1 ≡ FlowId.error
  unfolding insert_flow
  error_of_Crowded (matched u idx) m c =
      let r = m.valid.indexed.reachable idx m.live in
      let here : idx ≡ slot p e r.probe =
        r.here ∙ ap (λ h. probe_index p h r.probe) (sym (flow_hash-SameFlow p m.same)) in
      let (l, st, other) = c r.probe r.few in
      let k = (live_before ts t m.found idx m.aged m.live).1 in
      absurd (other (subst (λ i. SameFlow e (entry_at t i)) here (rw k at m.same)))
  error_of_Crowded (ended u none) m c = refl
  error_of_Crowded (ended u (some a)) m c =
      let (q, few, is, dead, _) = m.free a refl in
      let (l, st, other) = c q few in
      let k = live_after ts t u (slot p e q) m.aged l st in
      let d : is_live (entry_at u (slot p e q)).occupied ≡ false = rw is at dead in
      let l' : is_live (entry_at u (slot p e q)).occupied ≡ true = rw k l in cc

  pub process_flow-error_iff :
      ((process_flow p t e ts).1 ≡ FlowId.error) ↔ ((out_of_bounds t ts ≡ true) ⊎ Crowded p t e ts)
  unfolding process_flow
  process_flow-error_iff = (forth, back)
    where
      forth :
          (process_flow p t e ts).1 ≡ FlowId.error → (out_of_bounds t ts ≡ true) ⊎ Crowded p t e ts
      forth h = elim (Bool-cases (out_of_bounds t ts)) [
        | inl far ↦ inl far
        | inr inside ↦ inr (
            Crowded-of_error (probe_loop p e ts ht_num_probes 0 t none)
              (probe_loop-Outcome p t e ts v) (rw inside at h))
      ]

      back :
          (out_of_bounds t ts ≡ true) ⊎ Crowded p t e ts → (process_flow p t e ts).1 ≡ FlowId.error
      back (inl far) = rw far
      back (inr c) = elim (Bool-cases (out_of_bounds t ts)) [
        | inl far ↦ rw far
        | inr inside ↦ rw inside (
            error_of_Crowded (probe_loop p e ts ht_num_probes 0 t none)
              (probe_loop-Outcome p t e ts v) c)
      ]
