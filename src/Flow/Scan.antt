-- ===== src/Flow/Scan.antt =====
-- The probe loop: what is known after each round, and how the loop ends.
use bismark_passive.Prelude.{
  ℕ, ◌<◌, ◌≡◌, refl, ap, ◌∙◌, true, false, ◌⊎◌, Bool-cases, inl, inr, Option, none, some,
}
use bismark_passive.Prelude.Int.{ℤ}
use bismark_passive.Platform.{Platform}
use bismark_passive.Flow.{FlowEntry, FlowTable, deleted, is_live, is_expired, expire, entry_at}
use bismark_passive.Flow.Live.{SameFlow, Live, Used, SameFlow-trans}
use bismark_passive.Flow.Valid.{IsValid, Keeps, slot}
use bismark_passive.Flow.Expire.{
  Expired, Stays, expire-Keeps, base-expire, dropped-expire, expire-IsValid, entry_at-expire,
}

-- From `s` to `t` nothing but deletions of expired entries.
pub record Aged (ts : ℤ) (s t : FlowTable) : Type 0 where
  pub base : t.base_timestamp_seconds ≡ s.base_timestamp_seconds
  pub dropped : t.num_dropped_flows ≡ s.num_dropped_flows
  pub entry :
      (j : ℕ)
      → (entry_at t j ≡ entry_at s j)
        ⊎ (Expired s ts j × (entry_at t j ≡ record (entry_at s j) { occupied = deleted }))

pub Aged-refl : (ts : ℤ) (s : FlowTable) → Aged ts s s
Aged-refl ts s = record { base = refl; dropped = refl; entry = λ j. inl refl }

stays_deleted :
    (base ts : ℤ) (e : FlowEntry) → is_expired base ts (record e { occupied = deleted }) ≡ true → ⊥
unfolding is_expired
stays_deleted base ts e h = cc

Aged-expire : (ts : ℤ) (s t : FlowTable) (i : ℕ) → Aged ts s t → Aged ts s (expire t i ts)
Aged-expire ts s t i a = record {
  base = base-expire t i ts ∙ a.base;
  dropped = dropped-expire t i ts ∙ a.dropped;
  entry = λ j. join j (entry_at-expire t i ts j) (a.entry j);
}
  where
    join :
        (j : ℕ)
        → (entry_at (expire t i ts) j ≡ entry_at t j)
          ⊎ (Expired t ts j
              × (entry_at (expire t i ts) j ≡ record (entry_at t j) { occupied = deleted }))
        → (entry_at t j ≡ entry_at s j)
          ⊎ (Expired s ts j × (entry_at t j ≡ record (entry_at s j) { occupied = deleted }))
        → (entry_at (expire t i ts) j ≡ entry_at s j)
          ⊎ (Expired s ts j
              × (entry_at (expire t i ts) j ≡ record (entry_at s j) { occupied = deleted }))
    join j (inl e) (inl f) = inl (e ∙ f)
    join j (inl e) (inr (x, f)) = inr (x, e ∙ f)
    join j (inr (x, e)) (inl f) =
        inr (rw (a.base, f) at x, e ∙ ap (λ (u : FlowEntry). record u { occupied = deleted }) f)
    join j (inr (x, e)) (inr (y, f)) =
        absurd (stays_deleted t.base_timestamp_seconds ts (entry_at s j) (rw f at x))

-- The flow of `e` is not in the table.
abbrev pub Absent : FlowTable → FlowEntry → Type 0
Absent t e = (i : ℕ) → Live t i → SameFlow e (entry_at t i) → ⊥

abbrev pub Differs : FlowTable → FlowEntry → ℕ → Type 0
Differs t e i = Live t i → SameFlow e (entry_at t i) → ⊥

-- What the rounds before `probe` have seen.
pub record Scanned (p : Platform) (e : FlowEntry) (ts : ℤ) (s : FlowTable) (probe : ℕ)
    (t : FlowTable) (available : Option ℕ) : Type 0 where
  pub valid : IsValid p t
  pub aged : Aged ts s t
  pub used : (q : ℕ) → q < probe → Used t (slot p e q)
  pub differs : (q : ℕ) → q < probe → Differs t e (slot p e q)
  pub free :
      (a : ℕ)
      → available ≡ some a
      → (q : ℕ) × (q < probe) × (a ≡ slot p e q) × (is_live (entry_at t a).occupied ≡ false)
  pub full : available ≡ none → (q : ℕ) → q < probe → Live t (slot p e q) × Stays t ts (slot p e q)

Differs-Keeps :
    (t u : FlowTable) (e : FlowEntry) (i : ℕ) → Keeps t u → Differs t e i → Differs u e i
Differs-Keeps t u e i k d l s = d ((k i).live l) (SameFlow-trans s ((k i).same l))

dead-Keeps :
    (t u : FlowTable) (i : ℕ)
    → Keeps t u
    → is_live (entry_at t i).occupied ≡ false
    → is_live (entry_at u i).occupied ≡ false
dead-Keeps t u i k d = elim (Bool-cases (is_live (entry_at u i).occupied)) [
  | inl l ↦ cc (d, (k i).live l)
  | inr n ↦ n
]

module _ (p : Platform) (e : FlowEntry) (ts : ℤ) (s : FlowTable) where
  stays-expire :
      (t : FlowTable) (i j : ℕ)
      → Live t j × Stays t ts j
      → Live (expire t i ts) j × Stays (expire t i ts) ts j
  stays-expire t i j (l, st) = elim (entry_at-expire t i ts j) [
    | inl same ↦ rw (base-expire t i ts, same) (l, st)
    | inr (x, _) ↦ cc
  ]

  pub Scanned-expire :
      (probe i : ℕ) (t : FlowTable) (available : Option ℕ)
      → Scanned p e ts s probe t available
      → Scanned p e ts s probe (expire t i ts) available
  Scanned-expire probe i t available v =
      let k = expire-Keeps t i ts in
      record {
        valid = expire-IsValid t i ts p v.valid;
        aged = Aged-expire ts s t i v.aged;
        used = λ q lt. (k (slot p e q)).used (v.used q lt);
        differs = λ q lt. Differs-Keeps t (expire t i ts) e (slot p e q) k (v.differs q lt);
        free = λ a h.
            let (q, lt, is, dead) = v.free a h in
            (q, lt, is, dead-Keeps t (expire t i ts) a k dead);
        full = λ h q lt. stays-expire t i (slot p e q) (v.full h q lt);
      }
