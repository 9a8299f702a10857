-- ===== src/Flow/Live.antt =====
-- Entries of the flow table that hold a flow: how many there are, and when two hold the same flow.
use bismark_passive.Prelude.{
  ℕ, zero, suc, ◌+◌, ◌<◌, ◌≤◌, ◌≡◌, refl, Bool, true, false, List, [], ◌∷◌, arith, length, get_or,
  set, replicate, Bool-cases, inl, inr,
}
use bismark_passive.Platform.{Platform}
use bismark_passive.Flow.{
  FlowEntry, FlowTable, flow_entry_compare, flow_table_entry_init, is_live, is_empty, flow_hash,
  entry_at,
}

abbrev pub to_nat : Bool → ℕ
to_nat true = 1
to_nat false = 0

unfoldable pub live_count : List FlowEntry → ℕ
live_count [] = 0
live_count (e ∷ es) = to_nat (is_live e.occupied) + live_count es

pub live_count-le-length : (es : List FlowEntry) → live_count es ≤ length es
unfolding live_count
live_count-le-length [] = omega arith
live_count-le-length (e ∷ es) = ground (arith, live_count-le-length es)

pub live_count-replicate : (n : ℕ) → live_count (replicate n flow_table_entry_init) ≡ 0
unfolding live_count replicate
live_count-replicate zero = refl
live_count-replicate (suc n) = omega (arith, live_count-replicate n)

pub live_count-set :
    (es : List FlowEntry) (i : ℕ) (v : FlowEntry)
    → i < length es
    → live_count (set es i v) + to_nat (is_live (get_or es i flow_table_entry_init).occupied)
      ≡ live_count es + to_nat (is_live v.occupied)
unfolding live_count
live_count-set [] i v h = absurd (omega arith)
live_count-set (e ∷ es) zero v h = omega arith
live_count-set (e ∷ es) (suc i) v h = omega (arith, live_count-set es i v (omega arith))

-- No entry outside the array is live.
pub lt-length_of_live :
    (es : List FlowEntry) (i : ℕ)
    → is_live (get_or es i flow_table_entry_init).occupied ≡ true
    → i < length es
lt-length_of_live [] i h = cc
lt-length_of_live (e ∷ es) zero h = omega arith
lt-length_of_live (e ∷ es) (suc i) h = omega (arith, lt-length_of_live es i h)

-- some entry is live, so the count is positive
pub live_count_pos :
    (es : List FlowEntry) (i : ℕ)
    → is_live (get_or es i flow_table_entry_init).occupied ≡ true
    → 0 < live_count es
unfolding live_count
live_count_pos [] i h = ground arith
live_count_pos (e ∷ es) zero h = ground arith
live_count_pos (e ∷ es) (suc i) h = omega (arith, live_count_pos es i h)

pub live_of_count :
    (es : List FlowEntry)
    → 0 < live_count es
    → (i : ℕ) × (is_live (get_or es i flow_table_entry_init).occupied ≡ true)
unfolding live_count
live_of_count [] h = absurd (omega arith)
live_of_count (e ∷ es) h = elim (Bool-cases (is_live e.occupied)) [
  | inl l ↦ (0, l)
  | inr d ↦ let (i, l) = live_of_count es (ground arith) in (suc i, l)
]

-- The five fields that make a flow agree.
pub record SameFlow (a b : FlowEntry) : Type 0 where
  pub ip_source : a.ip_source ≡ b.ip_source
  pub ip_destination : a.ip_destination ≡ b.ip_destination
  pub port_source : a.port_source ≡ b.port_source
  pub port_destination : a.port_destination ≡ b.port_destination
  pub transport_protocol : a.transport_protocol ≡ b.transport_protocol

pub SameFlow-of_compare : (a b : FlowEntry) → flow_entry_compare a b ≡ true → SameFlow a b
unfolding flow_entry_compare
SameFlow-of_compare a b h = ground arith

pub compare_of_SameFlow : (a b : FlowEntry) → SameFlow a b → flow_entry_compare a b ≡ true
unfolding flow_entry_compare
compare_of_SameFlow a b h = ground arith

pub SameFlow-refl : (a : FlowEntry) → SameFlow a a
SameFlow-refl a = ground arith

pub SameFlow-symm : {a b : FlowEntry} → SameFlow a b → SameFlow b a
SameFlow-symm h = ground arith

pub SameFlow-trans : {a b c : FlowEntry} → SameFlow a b → SameFlow b c → SameFlow a c
SameFlow-trans h k = ground arith

pub flow_hash-SameFlow :
    (p : Platform) {a b : FlowEntry} → SameFlow a b → flow_hash p a ≡ flow_hash p b
unfolding flow_hash
flow_hash-SameFlow p h = cc

abbrev pub Live : FlowTable → ℕ → Type 0
Live t i = is_live (entry_at t i).occupied ≡ true

abbrev pub Used : FlowTable → ℕ → Type 0
Used t i = is_empty (entry_at t i).occupied ≡ false
