-- ===== src/Address/Ring.antt =====
-- The ring of mappings: indices, the invariant, and the mappings from the newest to the oldest.
use bismark_passive.Prelude.{
  ℕ, zero, suc, ◌+◌, ◌-◌, ◌%◌, ◌≤◌, ◌<◌, ◌≡◌, refl, ap, ap₂, false, List, [], ◌∷◌, ◌==◌,
  if◌then◌else◌, arith, length, get_or, set, length-replicate, get_or-set, take,
}
use bismark_passive.Prelude.Int.{pos, negsuc, ◌+ℤ◌, ◌-ℤ◌, c_rem}
use bismark_passive.Constants.{mac_table_entries}
use bismark_passive.Address.{Mapping, AddressTable, no_mapping, address_table_init, norm}

-- `k` steps back from index `last`
abbrev pub back : ℕ → ℕ → ℕ
back last k = (last + mac_table_entries - k) % mac_table_entries

norm-pos : (n : ℕ) → norm (pos n) ≡ n % mac_table_entries
unfolding norm c_rem ◌+ℤ◌
norm-pos n = ground arith

norm-negsuc :
    (n : ℕ)
    → n < mac_table_entries
    → norm (negsuc n) ≡ (mac_table_entries - (n + 1)) % mac_table_entries
unfolding norm c_rem ◌+ℤ◌
norm-negsuc n h = ground arith

pub norm-back : (last k : ℕ) → k ≤ last + mac_table_entries → norm (pos last -ℤ pos k) ≡ back last k
unfolding ◌-ℤ◌
norm-back last k h = ground (arith, norm-pos (last - k), norm-negsuc (k - last - 1))

pub norm-next : (last : ℕ) → norm (pos last +ℤ pos 1) ≡ (last + 1) % mac_table_entries
unfolding ◌+ℤ◌
norm-next last = ground (arith, norm-pos (last + 1))

pub record IsValid (t : AddressTable) : Type 0 where
  pub width : length t.entries ≡ mac_table_entries
  pub within : t.length ≤ mac_table_entries
  pub last_in : t.last < mac_table_entries
  pub start : t.length ≡ 0 → t.last ≡ 0
  pub oldest : t.first ≡ (if t.length == 0 then 0 else back t.last (t.length - 1))
  pub added : t.added_since_last_update ≤ t.length

pub address_table_init-IsValid : IsValid address_table_init
unfolding address_table_init
address_table_init-IsValid = record {
  width = length-replicate mac_table_entries no_mapping;
  within = omega arith;
  last_in = omega arith;
  start = λ _. refl;
  oldest = refl;
  added = omega arith;
}

-- `n` entries from the one `k` steps before the last on, going back
unfoldable pub recent : List Mapping → ℕ → ℕ → ℕ → List Mapping
recent es last k zero = []
recent es last k (suc n) = get_or es (back last k) no_mapping ∷ recent es last (k + 1) n

-- All mappings, newest first.
unfoldable pub mappings : AddressTable → List Mapping
unfolding recent
mappings t = recent t.entries t.last 0 t.length

pub length-recent : (es : List Mapping) (last k n : ℕ) → length (recent es last k n) ≡ n
unfolding recent
length-recent es last k zero = refl
length-recent es last k (suc n) = ap suc (length-recent es last (k + 1) n)

pub take-recent :
    (es : List Mapping) (last k n m : ℕ) → m ≤ n → take m (recent es last k n) ≡ recent es last k m
unfolding recent
take-recent es last k n zero h = refl
take-recent es last k zero (suc m) h = absurd (omega arith)
take-recent es last k (suc n) (suc m) h =
    ap (λ l. get_or es (back last k) no_mapping ∷ l) (take-recent es last (k + 1) n m (omega arith))

-- Writing at the next index leaves the `n` entries before it in place, one step further back.
pub recent-set :
    (es : List Mapping) (m : Mapping) (last k n : ℕ)
    → length es ≡ mac_table_entries
    → last < mac_table_entries
    → k + n < mac_table_entries
    → recent (set es ((last + 1) % mac_table_entries) m) ((last + 1) % mac_table_entries) (k + 1) n
      ≡ recent es last k n
unfolding recent
recent-set es m last k zero w h lt = refl
recent-set es m last k (suc n) w h lt =
    ap₂ ◌∷◌ head (recent-set es m last (k + 1) n w h (omega arith))
  where
    next : ℕ
    next = (last + 1) % mac_table_entries

    step : back next (k + 1) ≡ back last k
    step = omega arith

    apart : (next == back last k) ≡ false
    apart = ground arith

    head :
        get_or (set es next m) (back next (k + 1)) no_mapping ≡ get_or es (back last k) no_mapping
    head = rw (step, get_or-set es next (back last k) m no_mapping (omega arith), apart)

pub take_all {ℓ} : {A : Type ℓ} (n : ℕ) (xs : List A) → length xs ≤ n → take n xs ≡ xs
take_all zero [] h = refl
take_all zero (x ∷ xs) h = absurd (omega arith)
take_all (suc n) [] h = refl
take_all (suc n) (x ∷ xs) h = ap (λ l. x ∷ l) (take_all n xs (omega arith))
