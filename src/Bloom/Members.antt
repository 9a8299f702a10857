-- ===== src/Bloom/Members.antt =====
-- Filters that are built with `SETBIT` of src/bloom-whitelist.c: none misses a name.
use mathlib.Core.List.{append-nil}
use bismark_passive.Prelude.{
  ℕ, ◌*◌, ◌%◌, ◌<◌, ◌≤◌, ◌≡◌, refl, ◌∙◌, ◌==◌, true, some, List, [], ◌∷◌, ◌++◌, arith, length,
  replicate, take-append,
}
use bismark_passive.Prelude.Int.{pos}
use bismark_passive.Prelude.All.{All}
use bismark_passive.Bloom.{Bloom, get_bit, sax_hash, sdbm_hash, bloom_whitelist_init, load, lookup}
use bismark_passive.Bloom.Bits.{set_bit, IsByte, get_bit-set_bit, set_bit-IsByte, length-set_bit}
use bismark_passive.Bloom.Hashes.{bloom_lookup-load}

-- The array of a filter with `size` bits.
pub record IsArray (size : ℕ) (a : List ℕ) : Type 0 where
  pub bytes : All IsByte a
  pub room : size ≤ 8 * length a

set_bit-IsArray : (size : ℕ) (a : List ℕ) (n : ℕ) → IsArray size a → IsArray size (set_bit a n)
set_bit-IsArray size a n h = record {
  bytes = set_bit-IsByte a n h.bytes;
  room = omega (arith, h.room, length-set_bit a n);
}

set_bit_keeps :
    (size : ℕ) (a : List ℕ) (n m : ℕ)
    → IsArray size a
    → n < size
    → get_bit a m ≡ true
    → get_bit (set_bit a n) m ≡ true
set_bit_keeps size a n m h inside is =
    get_bit-set_bit a n m h.bytes (omega (arith, h.room)) ∙ rw is (ground arith)

set_bit_sets :
    (size : ℕ) (a : List ℕ) (n : ℕ) → IsArray size a → n < size → get_bit (set_bit a n) n ≡ true
set_bit_sets size a n h inside =
    let itself : (n == n) ≡ true = ground arith in
    get_bit-set_bit a n n h.bytes (omega (arith, h.room)) ∙ rw itself refl

module _ (size : ℕ) where
  -- The bits of both hashes of a name are set, for one name and for several.
  unfoldable pub add_name : List ℕ → List ℕ → List ℕ
  add_name a name = set_bit (set_bit a (sax_hash name % size)) (sdbm_hash name % size)

  pub add_names : List (List ℕ) → List ℕ → List ℕ
  add_names [] a = a
  add_names (name ∷ names) a = add_names names (add_name a name)

  abbrev pub Found : List ℕ → List ℕ → Type 0
  Found name a =
      (get_bit a (sax_hash name % size) ≡ true) × (get_bit a (sdbm_hash name % size) ≡ true)

  module _ (positive : 0 < size) where
    add_name-IsArray : (a name : List ℕ) → IsArray size a → IsArray size (add_name a name)
    unfolding add_name
    add_name-IsArray a name h = set_bit-IsArray size _ _ (set_bit-IsArray size a _ h)

    add_name_keeps :
        (a name : List ℕ) (m : ℕ)
        → IsArray size a
        → get_bit a m ≡ true
        → get_bit (add_name a name) m ≡ true
    unfolding add_name
    add_name_keeps a name m h is =
        set_bit_keeps size (set_bit a (sax_hash name % size)) _ m (set_bit-IsArray size a _ h)
          (omega arith) (set_bit_keeps size a _ m h (omega arith) is)

    add_name-Found : (a name : List ℕ) → IsArray size a → Found name (add_name a name)
    unfolding add_name
    add_name-Found a name h = (
      set_bit_keeps size _ _ _ (set_bit-IsArray size a _ h) (omega arith)
          (set_bit_sets size a _ h (omega arith)),
      set_bit_sets size _ _ (set_bit-IsArray size a _ h) (omega arith),
    )

    add_names-Found :
        (names : List (List ℕ)) (a name : List ℕ)
        → IsArray size a
        → Found name a
        → Found name (add_names names a)
    unfolding add_names
    add_names-Found [] a name h found = found
    add_names-Found (other ∷ names) a name h (sax, sdbm) =
        add_names-Found names (add_name a other) name (add_name-IsArray a other h)
          (add_name_keeps a other _ h sax, add_name_keeps a other _ h sdbm)

    add_names-member :
        (before behind : List (List ℕ)) (a name : List ℕ)
        → IsArray size a
        → Found name (add_names (before ++ name ∷ behind) a)
    unfolding add_names
    add_names-member [] behind a name h =
        add_names-Found behind (add_name a name) name (add_name-IsArray a name h)
          (add_name-Found a name h)
    add_names-member (other ∷ before) behind a name h =
        add_names-member before behind (add_name a other) name (add_name-IsArray a other h)

    length-add_names : (names : List (List ℕ)) (a : List ℕ) → length (add_names names a) ≡ length a
    unfolding add_names add_name
    length-add_names [] a = refl
    length-add_names (name ∷ names) a =
        length-add_names names (add_name a name)
        ∙ length-set_bit (set_bit a (sax_hash name % size)) _
        ∙ length-set_bit a _

-- A filter file of the full size to which names were added with `SETBIT` contains each of them once it
-- is loaded, whatever else was added before or behind, and whatever the bits of the file were.
pub lookup-add_names :
    (b : Bloom) (before behind : List (List ℕ)) (a name : List ℕ)
    → All IsByte a
    → length a ≡ 312500
    → lookup
        (load (bloom_whitelist_init b) (some (add_names 2500000 (before ++ name ∷ behind) a))).0
        name
      ≡ some (pos 0)
unfolding load
lookup-add_names b before behind a name bytes full =
    let file : List ℕ = add_names 2500000 (before ++ name ∷ behind) a in
    let h : IsArray 2500000 a = record { bytes = bytes; room = omega (arith, full) } in
    let found = add_names-member 2500000 (omega arith) before behind a name h in
    let size : length file ≡ 312500 =
      length-add_names 2500000 (omega arith) (before ++ name ∷ behind) a ∙ full in
    let loaded : (load (bloom_whitelist_init b) (some file)).0.a ≡ file =
      take-append file (replicate 312500 0) 312500 0 (omega (arith, size)) ∙ append-nil file in
    rw (bloom_lookup-load b file name, loaded, found.0, found.1) refl
