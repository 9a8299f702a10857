-- ===== src/Flow/Valid.antt =====
-- The invariant of the flow table, and the changes to entries that keep it.
use bismark_passive.Prelude.{
  ℕ, ◌<◌, ◌≡◌, sym, ap, ◌∙◌, true, false, arith, length, length-replicate, get_or-replicate,
  get_or-set, ◌==◌, if◌then◌else◌, Bool-cases, ==_iff, inl, inr,
}
use bismark_passive.Constants.{flow_table_entries, ht_num_probes}
use bismark_passive.Platform.{Platform}
use bismark_passive.Flow.{
  FlowEntry, FlowTable, flow_table_entry_init, flow_table_init, is_live, is_empty, flow_hash,
  entry_at, write_entry, probe_index,
}
use bismark_passive.Flow.Live.{
  live_count, live_count-replicate, SameFlow, SameFlow-refl, SameFlow-trans, SameFlow-symm,
  flow_hash-SameFlow, Live, Used,
}

-- the index that the flow of `e` is looked for at in round `q`
abbrev pub slot : Platform → FlowEntry → ℕ → ℕ
slot p e q = probe_index p (flow_hash p e) q

-- Every live entry can be found: it stands at one of its probes, and no earlier probe is empty.
pub record Reachable (p : Platform) (t : FlowTable) (i : ℕ) : Type 0 where
  pub probe : ℕ
  pub few : probe < ht_num_probes
  pub here : i ≡ slot p (entry_at t i) probe
  pub before : (r : ℕ) → r < probe → Used t (slot p (entry_at t i) r)

pub record Indexed (p : Platform) (t : FlowTable) : Type 0 where
  pub reachable : (i : ℕ) → Live t i → Reachable p t i
  pub unique : (i j : ℕ) → Live t i → Live t j → SameFlow (entry_at t i) (entry_at t j) → i ≡ j

pub record IsValid (p : Platform) (t : FlowTable) : Type 0 where
  pub width : length t.entries ≡ flow_table_entries
  pub counted : t.num_elements ≡ live_count t.entries
  pub indexed : Indexed p t

-- A change of one entry that keeps its flow or deletes it, and never empties it.
pub record KeepsEntry (e e' : FlowEntry) : Type 0 where
  pub live : is_live e'.occupied ≡ true → is_live e.occupied ≡ true
  pub same : is_live e'.occupied ≡ true → SameFlow e' e
  pub used : is_empty e.occupied ≡ false → is_empty e'.occupied ≡ false

abbrev pub Keeps : FlowTable → FlowTable → Type 0
Keeps t t' = (i : ℕ) → KeepsEntry (entry_at t i) (entry_at t' i)

pub Keeps-Indexed : (p : Platform) (t t' : FlowTable) → Keeps t t' → Indexed p t → Indexed p t'
Keeps-Indexed p t t' k v = record {
  reachable = λ i l.
      let s = (k i).same l in
      let r = v.reachable i ((k i).live l) in
      let e : (q : ℕ) → slot p (entry_at t' i) q ≡ slot p (entry_at t i) q =
        λ q. ap (λ h. probe_index p h q) (flow_hash-SameFlow p s) in
      record {
        probe = r.probe;
        few = r.few;
        here = r.here ∙ sym (e r.probe);
        before = λ q lt. rw (e q) ((k (slot p (entry_at t i) q)).used (r.before q lt));
      };
  unique = λ i j li lj s.
      v.unique i j ((k i).live li) ((k j).live lj)
        (SameFlow-trans (SameFlow-symm ((k i).same li)) (SameFlow-trans s ((k j).same lj)));
}

pub KeepsEntry-refl : (e : FlowEntry) → KeepsEntry e e
KeepsEntry-refl e = record { live = λ h. h; same = λ _. SameFlow-refl e; used = λ h. h }

pub Keeps-trans : (t u w : FlowTable) → Keeps t u → Keeps u w → Keeps t w
Keeps-trans t u w k l i = record {
  live = λ h. (k i).live ((l i).live h);
  same = λ h. SameFlow-trans ((l i).same h) ((k i).same ((l i).live h));
  used = λ h. (l i).used ((k i).used h);
}

pub entry_at-write_entry :
    (t : FlowTable) (i j : ℕ) (e : FlowEntry)
    → i < length t.entries
    → entry_at (write_entry t i e) j ≡ (if i == j then e else entry_at t j)
entry_at-write_entry t i j e h = get_or-set t.entries i j e flow_table_entry_init h

pub Keeps-write_entry :
    (t : FlowTable) (i : ℕ) (e : FlowEntry)
    → i < length t.entries
    → KeepsEntry (entry_at t i) e
    → Keeps t (write_entry t i e)
Keeps-write_entry t i e h k j = elim (Bool-cases (i == j)) [
  | inl same ↦ rw (entry_at-write_entry t i j e h, same, ← (==_iff i j).0 same) k
  | inr other ↦ rw (entry_at-write_entry t i j e h, other) (KeepsEntry-refl (entry_at t j))
]

probe_index-lt : (p : Platform) (hash probe : ℕ) → probe_index p hash probe < flow_table_entries
unfolding probe_index
probe_index-lt p hash probe = omega arith

pub slot-lt : (p : Platform) (e : FlowEntry) (q : ℕ) → slot p e q < flow_table_entries
slot-lt p e q = probe_index-lt p (flow_hash p e) q

-- `flow_table_init` makes a valid table, with no live entry.
pub flow_table_init-IsValid : (p : Platform) → IsValid p flow_table_init
unfolding flow_table_init
flow_table_init-IsValid p = record {
  width = length-replicate flow_table_entries flow_table_entry_init;
  counted = sym (live_count-replicate flow_table_entries);
  indexed = record {
    reachable = λ i l. absurd (no_live i l);
    unique = λ i j l _ _. absurd (no_live i l);
  };
}
  where
    no_live : (i : ℕ) → Live flow_table_init i → ⊥
    no_live i l =
        let l' : is_live flow_table_entry_init.occupied ≡ true =
          rw (get_or-replicate flow_table_entries i flow_table_entry_init) at l in
        cc
