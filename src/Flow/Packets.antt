-- ===== src/Flow/Packets.antt =====
-- The packet counter of a flow: `num_packets` has 4 bits, and the guard of its increment tests for
-- the largest value of 6 bits.
use bismark_passive.Prelude.{
  ℕ, leb, ltb, ◌&&◌, ◌+◌, ◌%◌, ◌<◌, ◌≡◌, refl, ◌∙◌, false, arith, none, ==_iff,
}
use bismark_passive.Prelude.Int.{ℤ, ◌-ℤ◌}
use bismark_passive.Constants.{ht_num_probes}
use bismark_passive.Platform.{Platform}
use bismark_passive.Flow.{
  FlowEntry, FlowTable, is_expired, occupied_but_unsent, entry_at, process_flow, out_of_bounds,
  finish, Probed, matched, ended, probe_loop,
}
use bismark_passive.Flow.Live.{SameFlow, Live, SameFlow-symm, SameFlow-trans}
use bismark_passive.Flow.Valid.{IsValid}
use bismark_passive.Flow.Refresh.{refreshed, entry_at-refresh}
use bismark_passive.Flow.Expire.{Stays}
use bismark_passive.Flow.Loop.{Outcome, probe_loop-Outcome}
use bismark_passive.Flow.Ids.{live_after}
use bismark_passive.Flow.Update.{over_threshold}

module _ (p : Platform) (t : FlowTable) (e : FlowEntry) (ts : ℤ) (i : ℕ) (v : IsValid p t)
    (l : Live t i) (st : Stays t ts i) (same : SameFlow e (entry_at t i)) where
  entry_again :
      (r : Probed)
      → Outcome p e ts t r
      → entry_at (finish e ts r).0 i ≡ refreshed (ts -ℤ t.base_timestamp_seconds) (entry_at t i)
  entry_again (matched u idx) m =
      let k = live_after ts t m.found i m.aged l st in
      let is : idx ≡ i =
        m.valid.indexed.unique idx i m.live (rw k l)
          (SameFlow-trans (SameFlow-symm m.same) (rw k same)) in
      rw m.after
        (entry_at-refresh m.found idx ts m.live i ∙ rw ((==_iff idx i).1 is, is, k, m.aged.base))
  entry_again (ended u available) m =
      let k = live_after ts t u i m.aged l st in absurd (m.absent i (rw k l) (rw k same))

  -- The entry of a flow that the table has, after a packet of it.
  pub process_flow-known_entry :
      out_of_bounds t ts ≡ false
      → entry_at (process_flow p t e ts).0 i
        ≡ refreshed (ts -ℤ t.base_timestamp_seconds) (entry_at t i)
  unfolding process_flow
  process_flow-known_entry inside =
      rw inside
        (entry_again (probe_loop p e ts ht_num_probes 0 t none) (probe_loop-Outcome p t e ts v))

pub stays_of_unsent :
    (t : FlowTable) (ts : ℤ) (i : ℕ) → (entry_at t i).occupied ≡ occupied_but_unsent → Stays t ts i
unfolding is_expired
stays_of_unsent t ts i u = rw u

-- In a valid table that takes the time of the packet, a packet of a flow that is not sent yet adds
-- one to the flow's counter of 4 bits, modulo 16. The flow is in the log of flows over the
-- threshold from its 10th packet on, with 10 counted packets and not only with more, and the 16th
-- packet takes it from the log again.
pub process_flow-num_packets :
    (p : Platform) (t : FlowTable) (e : FlowEntry) (ts : ℤ) (i : ℕ)
    → IsValid p t
    → (entry_at t i).occupied ≡ occupied_but_unsent
    → (entry_at t i).num_packets < 16
    → SameFlow e (entry_at t i)
    → out_of_bounds t ts ≡ false
    → let t' = (process_flow p t e ts).0 in
      ((entry_at t' i).num_packets ≡ ((entry_at t i).num_packets + 1) % 16)
      × (over_threshold (entry_at t' i)
          ≡ (leb 9 (entry_at t i).num_packets && ltb (entry_at t i).num_packets 15))
unfolding over_threshold
process_flow-num_packets p t e ts i v u small same inside =
    rw (process_flow-known_entry p t e ts i v (rw u refl) (stays_of_unsent t ts i u) same inside, u)
      (ground arith, ground arith)
