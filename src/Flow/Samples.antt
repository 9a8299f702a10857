-- ===== src/Flow/Samples.antt =====
-- A first flow in an empty table, for the tests.
use bismark_passive.Prelude.{
  ℕ, ◌+◌, ◌≡◌, ◌≢◌, inl, inr, refl, sym, ◌∙◌, true, false, some, arith, get_or-replicate,
  length-replicate, get_or-set, ==_iff,
}
use bismark_passive.Prelude.Int.{ℤ, pos, ◌+ℤ◌, ◌-ℤ◌, to_int16}
use bismark_passive.Constants.{flow_table_entries}
use bismark_passive.Constants.FlowId
use bismark_passive.Platform.{Platform}
use bismark_passive.Samples.{platform}
use bismark_passive.Flow.{
  FlowEntry, FlowTable, occupied_but_unsent, flow_table_entry_init, flow_table_init, is_live,
  entry_at, process_flow, out_of_bounds, insert_flow, probe_loop, expire, is_expired, probe_index,
  flow_hash,
}
use bismark_passive.Flow.Live.{SameFlow, Live}
use bismark_passive.Flow.Valid.{IsValid, flow_table_init-IsValid, slot, slot-lt}
use bismark_passive.Flow.Ids
use bismark_passive.Flow.Update.Advance.{seen_at}

-- 192.168.1.2:40000 to 8.8.8.8:53, UDP
abbrev pub query : FlowEntry
query = record flow_table_entry_init {
  ip_source = 0xc0a80102;
  ip_destination = 0x08080808;
  port_source = 40000;
  port_destination = 53;
  transport_protocol = 17;
}

unfoldable pub first : Platform → FlowEntry → ℤ → FlowTable × ℕ
first p e ts = process_flow p flow_table_init e ts

pub nothing_at : (i : ℕ) → entry_at flow_table_init i ≡ flow_table_entry_init
unfolding flow_table_init
nothing_at i = get_or-replicate flow_table_entries i flow_table_entry_init

pub in_bounds : (ts : ℤ) → out_of_bounds flow_table_init ts ≡ false
unfolding out_of_bounds flow_table_init
in_bounds ts = refl

pub accepted : (p : Platform) (e : FlowEntry) (ts : ℤ) → (first p e ts).1 ≢ FlowId.error
unfolding first
accepted p e ts h =
    elim ((Ids.process_flow-error_iff p flow_table_init e ts (flow_table_init-IsValid p)).0 h) [
      | inl out ↦ let same : true ≡ false = sym out ∙ in_bounds ts in cc
      | inr crowded ↦
          let l = (crowded 0 (omega arith)).0 in
          let l' : is_live flow_table_entry_init.occupied ≡ true =
            rw (nothing_at (slot p e 0)) at l in
          cc
    ]

-- An empty table takes the flow at its first probe.
pub home : Platform → FlowEntry → ℕ
home p e = probe_index p (flow_hash p e) 0

pub first-insert_flow :
    (p : Platform) (e : FlowEntry) (ts : ℤ)
    → first p e ts ≡ insert_flow e ts flow_table_init (some (home p e))
unfolding first process_flow probe_loop expire is_expired home
first-insert_flow p e ts =
    rw (in_bounds ts, nothing_at (probe_index p (flow_hash p e) 0))
      (rw (nothing_at (probe_index p (flow_hash p e) 0)) refl)

pub first-out_of_bounds :
    (p : Platform) (e : FlowEntry) → out_of_bounds (first p e (pos 1000)).0 (pos 1600) ≡ false
unfolding out_of_bounds insert_flow flow_table_init ◌-ℤ◌
first-out_of_bounds p e = rw (first-insert_flow p e (pos 1000)) refl

-- The entry of the new flow.
pub home_entry :
    (p : Platform) (e : FlowEntry) (ts : ℤ)
    → entry_at (first p e ts).0 (home p e) ≡ record e {
      occupied = occupied_but_unsent;
      num_packets = 1;
      last_update_time_seconds = to_int16 (ts -ℤ ts);
    }
unfolding insert_flow flow_table_init home
home_entry p e ts = rw (first-insert_flow p e ts) (
    get_or-set flow_table_init.entries (home p e) (home p e) _ flow_table_entry_init
      (rw (length-replicate flow_table_entries flow_table_entry_init) (slot-lt p e 0))
    ∙ rw ((==_iff (home p e) (home p e)).1 refl))

pub home_unsent :
    (p : Platform) (e : FlowEntry) (ts : ℤ)
    → (entry_at (first p e ts).0 (home p e)).occupied ≡ occupied_but_unsent
home_unsent p e ts = rw (home_entry p e ts) refl

pub home_live : (p : Platform) (e : FlowEntry) (ts : ℤ) → Live (first p e ts).0 (home p e)
home_live p e ts = rw (home_entry p e ts) refl

pub home_same :
    (p : Platform) (e : FlowEntry) (ts : ℤ) → SameFlow e (entry_at (first p e ts).0 (home p e))
home_same p e ts = rw (home_entry p e ts) record {
  ip_source = refl;
  ip_destination = refl;
  port_source = refl;
  port_destination = refl;
  transport_protocol = refl;
}

pub home_id :
    (p : Platform) (e : FlowEntry) (ts : ℤ) → (first p e ts).1 ≡ home p e + FlowId.first_unreserved
unfolding insert_flow
home_id p e ts = rw (first-insert_flow p e ts) refl

pub first-IsValid : (p : Platform) (e : FlowEntry) (ts : ℤ) → IsValid p (first p e ts).0
unfolding first
first-IsValid p e ts = Ids.process_flow-IsValid p flow_table_init e ts (flow_table_init-IsValid p)

-- The time of the entry.
pub home_seen : seen_at (first platform query (pos 1000)).0 (home platform query) ≡ pos 1000
unfolding insert_flow flow_table_init to_int16 ◌-ℤ◌ ◌+ℤ◌
home_seen =
    rw (home_entry platform query (pos 1000), first-insert_flow platform query (pos 1000)) refl
