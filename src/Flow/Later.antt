-- ===== src/Flow/Later.antt =====
-- A flow over several calls of `flow_table_process_flow`.
use bismark_passive.Flow.Update.{advance_base_timestamp}
use bismark_passive.Flow.Update.Advance.{
  entry_at-advance, KeepsEntry-advance, advance_base_timestamp-IsValid,
  advance_base_timestamp-seen_at,
}
use bismark_passive.Flow.Update.Writes.{sent, sent-IsValid, KeepsEntry-sent}
use bismark_passive.Prelude.{
  map, get_or-map, ℕ, ◌+◌, ◌≡◌, ◌≢◌, ◌<◌, refl, sym, ◌∙◌, true, false, Bool-cases, inl, inr, none,
  some, List, [], ◌∷◌, ◌==◌, arith,
}
use bismark_passive.Prelude.All.{All}
use bismark_passive.Prelude.Int.{pos, negsuc, ◌-ℤ◌, ℤ, ◌+ℤ◌, ◌≤ℤ◌}
use bismark_passive.Constants.{ht_num_probes, flow_table_expiration_seconds}
use bismark_passive.Constants.FlowId
use bismark_passive.Platform.{Platform}
use bismark_passive.Flow.{
  flow_table_entry_init, FlowEntry, FlowTable, entry_at, insert_flow, is_live, process_flow,
  out_of_bounds, finish, Probed, matched, ended, probe_loop,
}
use bismark_passive.Flow.Live.{SameFlow, Live, SameFlow-symm, SameFlow-trans, live_count_pos}
use bismark_passive.Flow.Valid.{IsValid}
use bismark_passive.Flow.Expire.{Stays}
use bismark_passive.Flow.Refresh.{base-refresh}
use bismark_passive.Flow.Loop.{Outcome, probe_loop-Outcome}
use bismark_passive.Flow.Process.{Recorded}
use bismark_passive.Flow.Ids.{
  process_flow-IsValid, process_flow-Recorded, process_flow-others, process_flow-known, live_after,
  not_expired,
}

-- What changes the table between two packets of a flow: a packet of its own time, or an update, which
-- marks the flows as sent and moves the base to its time.
pub data Event : Type 0 where
  packet : FlowEntry → ℤ → Event
  update : ℤ → Event

-- The table behind an event, and behind a sequence of them.
unfoldable pub behind : Platform → FlowTable → Event → FlowTable
behind p t (packet e ts) = (process_flow p t e ts).0
behind p t (update ts) = advance_base_timestamp (record t { entries = map sent t.entries }) ts

abbrev pub behind_all : Platform → FlowTable → List Event → FlowTable
behind_all p t [] = t
behind_all p t (x ∷ events) = behind_all p (behind p t x) events

-- A packet of another flow than `e`, at most 30 minutes after `ts`; or an update whose time differs
-- from `ts` by what an `int16_t` holds.
abbrev pub Elsewhere : FlowEntry → ℤ → Event → Type 0
Elsewhere e ts (packet e' ts') = (SameFlow e' e → ⊥) × (ts' ≤ℤ ts +ℤ flow_table_expiration_seconds)
Elsewhere e ts (update ts') = (negsuc 32767 ≤ℤ ts -ℤ ts') × (ts -ℤ ts' ≤ℤ pos 32767)

module _ (p : Platform) (t : FlowTable) (e : FlowEntry) (ts : ℤ) (i : ℕ) (v : IsValid p t)
    (l : Live t i) (st : Stays t ts i) (other : SameFlow e (entry_at t i) → ⊥) where
  elsewhere :
      (r : Probed)
      → Outcome p e ts t r
      → (i + FlowId.first_unreserved ≢ (finish e ts r).1)
        × ((finish e ts r).0.base_timestamp_seconds ≡ t.base_timestamp_seconds)
  unfolding insert_flow
  elsewhere (matched u idx) m = (
    λ is.
        let at_i : idx ≡ i = omega arith in
        let k = live_after ts t m.found i m.aged l st in other (rw (at_i, k) at m.same),
    rw m.after (base-refresh m.found idx ts m.live ∙ m.aged.base),
  )
  elsewhere (ended u none) m = (λ is. absurd (omega arith), m.aged.base)
  elsewhere (ended u (some a)) m =
      let k = live_after ts t u i m.aged l st in
      let many : 0 < u.num_elements =
        omega (arith, m.valid.counted, live_count_pos u.entries i (rw k l)) in
      let used : (u.num_elements == 0) ≡ false = ground arith in
      (
        λ is.
            let at_i : a ≡ i = omega arith in
            let (q, few, at_q, dead, _) = m.free a refl in
            let dead' : is_live (entry_at u i).occupied ≡ false = rw at_i at dead in
            let l' : is_live (entry_at u i).occupied ≡ true = rw k l in cc,
        rw used m.aged.base,
      )

  stays_elsewhere :
      (i + FlowId.first_unreserved ≢ (process_flow p t e ts).1)
      × ((process_flow p t e ts).0.base_timestamp_seconds ≡ t.base_timestamp_seconds)
  unfolding process_flow
  stays_elsewhere = elim (Bool-cases (out_of_bounds t ts)) [
    | inl far ↦ rw far (λ is. absurd (omega arith), refl)
    | inr inside ↦
        rw inside
          (elsewhere (probe_loop p e ts ht_num_probes 0 t none) (probe_loop-Outcome p t e ts v))
  ]

sent-empty : sent flow_table_entry_init ≡ flow_table_entry_init
unfolding sent
sent-empty = refl

live-sent : (e : FlowEntry) → is_live e.occupied ≡ true → is_live (sent e).occupied ≡ true
unfolding sent
live-sent e l = ground arith

last_update-sent : (e : FlowEntry) → (sent e).last_update_time_seconds ≡ e.last_update_time_seconds
unfolding sent
last_update-sent e = ground arith

module _ (p : Platform) (e : FlowEntry) (ts : ℤ) (id : ℕ) where
  Recorded-process_flow :
      (t : FlowTable) (e' : FlowEntry) (ts' : ℤ)
      → IsValid p t
      → Elsewhere e ts (packet e' ts')
      → Recorded t e ts id
      → Recorded (process_flow p t e' ts').0 e ts id
  Recorded-process_flow t e' ts' v (other, near) r =
      let stays : Stays t ts' r.index = not_expired _ ts ts' _ r.seen near in
      let (elsewhere_to, base) =
        stays_elsewhere p t e' ts' r.index v r.live stays
          λ same. other (SameFlow-trans same (SameFlow-symm r.same)) in
      elim (process_flow-others p t e' ts' r.index v elsewhere_to) [
        | inl same ↦ record {
          index = r.index;
          in_table = r.in_table;
          id_of_index = r.id_of_index;
          live = rw same r.live;
          same = rw same r.same;
          seen = rw (base, same) r.seen;
        }
        | inr (expired, _) ↦ cc
      ]

  Recorded-sent :
      (t : FlowTable)
      → Recorded t e ts id
      → Recorded (record t { entries = map sent t.entries }) e ts id
  Recorded-sent t r =
      let at_index = get_or-map sent t.entries r.index flow_table_entry_init sent-empty in
      record {
        index = r.index;
        in_table = r.in_table;
        id_of_index = r.id_of_index;
        live = rw at_index (live-sent (entry_at t r.index) r.live);
        same = rw at_index (
            SameFlow-trans r.same (
              SameFlow-symm (
                (KeepsEntry-sent (entry_at t r.index)).same
                  (live-sent (entry_at t r.index) r.live))));
        seen = rw (at_index, last_update-sent (entry_at t r.index)) r.seen;
      }

  Recorded-advance :
      (t : FlowTable) (ts' : ℤ)
      → Elsewhere e ts (update ts')
      → Recorded t e ts id
      → Recorded (advance_base_timestamp t ts') e ts id
  Recorded-advance t ts' (low, high) r =
      let (live, seen) =
        advance_base_timestamp-seen_at t ts' r.index r.live (rw r.seen low) (rw r.seen high) in
      let at_index = entry_at-advance t ts' r.index in
      record {
        index = r.index;
        in_table = r.in_table;
        id_of_index = r.id_of_index;
        live = live;
        same = rw at_index (
            SameFlow-trans r.same (
              SameFlow-symm
                ((KeepsEntry-advance _ (entry_at t r.index)).same (rw at_index at live))));
        seen = seen ∙ r.seen;
      }

  Recorded-behind :
      (t : FlowTable) (x : Event)
      → IsValid p t
      → Elsewhere e ts x
      → Recorded t e ts id
      → IsValid p (behind p t x) × Recorded (behind p t x) e ts id
  unfolding behind
  Recorded-behind t (packet e' ts') v other r =
      (process_flow-IsValid p t e' ts' v, Recorded-process_flow t e' ts' v other r)
  Recorded-behind t (update ts') v near r = (
    advance_base_timestamp-IsValid p (record t { entries = map sent t.entries }) ts'
        (sent-IsValid p t v),
    Recorded-advance (record t { entries = map sent t.entries }) ts' near (Recorded-sent t r),
  )

  Recorded-behind_all :
      (t : FlowTable) (events : List Event)
      → IsValid p t
      → All (Elsewhere e ts) events
      → Recorded t e ts id
      → IsValid p (behind_all p t events) × Recorded (behind_all p t events) e ts id
  Recorded-behind_all t [] v others r = (v, r)
  Recorded-behind_all t (x ∷ events) v (other, others) r =
      let (v', r') = Recorded-behind t x v other r in
      Recorded-behind_all (behind p t x) events v' others r'

-- If a valid table gives a packet an id other than the error id, then the next packet of the same
-- flow is given that id again, whatever packets of other flows and updates come in between, if
-- those packets and the next one of the flow come at most 30 minutes after it, the updates at most
-- 32768 seconds after and 32767 seconds before it, and the table then takes the time of the next
-- packet. An update is what it does to the table once it has succeeded.
pub process_flow-again :
    (p : Platform) (t : FlowTable) (e e' : FlowEntry) (ts ts' : ℤ) (between : List Event)
    → IsValid p t
    → SameFlow e' e
    → (process_flow p t e ts).1 ≢ FlowId.error
    → All (Elsewhere e ts) between
    → out_of_bounds (behind_all p (process_flow p t e ts).0 between) ts' ≡ false
    → ts' ≤ℤ ts +ℤ flow_table_expiration_seconds
    → (process_flow p (behind_all p (process_flow p t e ts).0 between) e' ts').1
      ≡ (process_flow p t e ts).1
process_flow-again p t e e' ts ts' between v same ne others inside near =
    let (v', r) =
      Recorded-behind_all p e ts (process_flow p t e ts).1 (process_flow p t e ts).0 between
        (process_flow-IsValid p t e ts v) others (process_flow-Recorded p t e ts v ne) in
    process_flow-known p (behind_all p (process_flow p t e ts).0 between) e' ts' r.index v' r.live
      (not_expired _ ts ts' _ r.seen near) (SameFlow-trans same r.same) inside
    ∙ sym r.id_of_index
