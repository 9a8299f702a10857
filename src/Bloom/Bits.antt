-- ===== src/Bloom/Bits.antt =====
-- `SETBIT` of src/bloom-whitelist.c, as `GETBIT` reads it back.
use Prim.Native.Nat.{bit_and, bit_or}
use bismark_passive.Prelude.{
  ℕ, zero, suc, ◌+◌, ◌*◌, ◌/◌, ◌%◌, ◌^◌, ◌<◌, ◌≡◌, refl, sym, Bool, true, false, not, ◌||◌, List,
  [], ◌∷◌, arith, length, get_or, set, get_or-set, length-set, ◌==◌, if◌then◌else◌, ltb, Bool-cases,
  inl, inr,
}
use native.Mathlib.Decide.{ℕ_discrete}
use bismark_passive.Prelude.All.{All}
use bismark_passive.Bloom.{get_bit}

-- `SETBIT(a, n)`
pub set_bit : List ℕ → ℕ → List ℕ
set_bit a n = set a (n / 8) (bit_or (get_or a (n / 8) 0) (2 ^ (n % 8)))

-- One bit of a byte behind the write of one bit, at all values: a test that no number under a bound
-- fails.
passes : (ℕ → Bool) → ℕ → Bool
passes test zero = true
passes test (suc bound) = if test bound then passes test bound else false

passed : (test : ℕ → Bool) (bound k : ℕ) → k < bound → passes test bound ≡ true → test k ≡ true
unfolding passes
passed test zero k under h = elim under [ ]
passed test (suc bound) k under h = elim (Bool-cases (test bound)) [
  | inr fails ↦ let h' : false ≡ true = rw fails at h in cc
  | inl holds ↦ elim (ℕ_discrete k bound) [
    | yes last ↦ rw last holds
    | no earlier ↦ passed test bound k (omega arith) (rw holds at h)
  ]
]

abbrev bit : ℕ → ℕ → Bool
bit byte i = not (bit_and byte (2 ^ i) == 0)

same : Bool → Bool → Bool
same true b = b
same false b = not b

same_sound : (a b : Bool) → same a b ≡ true → a ≡ b
unfolding same
same_sound true b h = sym h
same_sound false b h = ground arith

written : ℕ → Bool
unfolding same
written k =
    same (bit (bit_or (k / 64) (2 ^ (k / 8 % 8))) (k % 8))
      (k / 8 % 8 == k % 8 || bit (k / 64) (k % 8))

table : passes written 16384 ≡ true
unfolding passes written
table = refl

bit_written : (v i j : ℕ) → v < 256 → i < 8 → j < 8 → bit (bit_or v (2 ^ i)) j ≡ (i == j || bit v j)
unfolding written
bit_written v i j hv hi hj =
    let k : ℕ = v * 64 + i * 8 + j in
    let first : k / 64 ≡ v = omega arith in
    let second : k / 8 % 8 ≡ i = omega arith in
    let third : k % 8 ≡ j = omega arith in
    let checked = passed written 16384 k (omega arith) table in
    same_sound _ _ (rw (first, second, third) at checked)

kept : ℕ → Bool
kept k = ltb (bit_or (k / 8) (2 ^ (k % 8))) 256

kept_table : passes kept 2048 ≡ true
unfolding passes kept
kept_table = refl

byte_kept : (v i : ℕ) → v < 256 → i < 8 → bit_or v (2 ^ i) < 256
unfolding kept
byte_kept v i hv hi =
    let first : (v * 8 + i) / 8 ≡ v = omega arith in
    let second : (v * 8 + i) % 8 ≡ i = omega arith in
    let checked : kept (v * 8 + i) ≡ true = passed kept 2048 (v * 8 + i) (omega arith) kept_table in
    let checked' : ltb (bit_or v (2 ^ i)) 256 ≡ true = rw (first, second) at checked in ground arith

abbrev pub IsByte : ℕ → Type 0
IsByte b = b < 256

get_or-IsByte : (a : List ℕ) (i : ℕ) → All IsByte a → get_or a i 0 < 256
get_or-IsByte [] i h = omega arith
get_or-IsByte (b ∷ a) zero (hb, h) = hb
get_or-IsByte (b ∷ a) (suc i) (hb, h) = get_or-IsByte a i h

set-IsByte : (a : List ℕ) (i v : ℕ) → All IsByte a → v < 256 → All IsByte (set a i v)
set-IsByte [] i v h hv = tt
set-IsByte (b ∷ a) zero v (hb, h) hv = (hv, h)
set-IsByte (b ∷ a) (suc i) v (hb, h) hv = (hb, set-IsByte a i v h hv)

-- The bit that is written is set, and the others are as they were.
pub get_bit-set_bit :
    (a : List ℕ) (n m : ℕ)
    → All IsByte a
    → n < 8 * length a
    → get_bit (set_bit a n) m ≡ (n == m || get_bit a m)
unfolding get_bit set_bit
get_bit-set_bit a n m h inside =
    let v : ℕ = get_or a (n / 8) 0 in
    let new =
      bit_written v (n % 8) (m % 8) (get_or-IsByte a (n / 8) h) (omega arith) (omega arith) in
    let read = get_or-set a (n / 8) (m / 8) (bit_or v (2 ^ (n % 8))) 0 (omega arith) in
    elim (Bool-cases (n / 8 == m / 8)) [
      | inl e ↦
          let e' : n / 8 ≡ m / 8 = ground arith in
          let same_bit : (n % 8 == m % 8) ≡ (n == m) = ground arith in
          rw (read, e, new, same_bit, e') refl
      | inr e ↦ let other : (n == m) ≡ false = ground arith in rw (read, e, other) refl
    ]

pub set_bit-IsByte : (a : List ℕ) (n : ℕ) → All IsByte a → All IsByte (set_bit a n)
unfolding set_bit
set_bit-IsByte a n h =
    set-IsByte a (n / 8) _ h (byte_kept _ (n % 8) (get_or-IsByte a (n / 8) h) (omega arith))

pub length-set_bit : (a : List ℕ) (n : ℕ) → length (set_bit a n) ≡ length a
unfolding set_bit
length-set_bit a n = length-set a (n / 8) _
