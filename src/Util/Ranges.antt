-- ===== src/Util/Ranges.antt =====
-- The private IPv4 addresses as ranges.
use Prim.Native.Nat.{bit_and, bit_and-bitwise, digits, min}
use native.Mathlib.Nat.{pow-suc, one-le-pow}
use bismark_passive.Prelude.{
  ℕ, zero, suc, ◌+◌, ◌-◌, ◌*◌, ◌/◌, ◌%◌, ◌^◌, ◌≤◌, ◌<◌, ◌≡◌, refl, sym, ap, ◌∙◌, Bool, ◌&&◌, ◌||◌,
  arith, leb,
}
use bismark_passive.Util.{is_address_private}

-- The bits that two numbers share, among so many.
shared : ℕ → ℕ → ℕ → ℕ
shared zero a b = 0
shared (suc width) a b = shared width (a / 2) (b / 2) * 2 + min (a % 2) (b % 2)

shared-zero : (width b : ℕ) → shared width 0 b ≡ 0
unfolding shared
shared-zero zero b = refl
shared-zero (suc width) b = omega (arith, shared-zero width (b / 2))

digits-shared :
    (width fuel a b : ℕ)
    → a < 2 ^ width
    → a ≤ fuel
    → digits (λ c. zero) min fuel a b ≡ shared width a b
unfolding shared
digits-shared width zero zero b small enough = sym (shared-zero width b)
digits-shared width (suc fuel) zero b small enough = sym (shared-zero width b)
digits-shared zero fuel (suc a) b small enough = absurd (omega arith)
digits-shared (suc width) zero (suc a) b small enough = absurd (omega arith)
digits-shared (suc width) (suc fuel) (suc a) b small enough =
    rw (digits-shared width fuel (suc a / 2) (b / 2) (omega (arith, pow-suc 2 width)) (omega arith))
      refl

bit_and-shared : (width a b : ℕ) → a < 2 ^ width → bit_and a b ≡ shared width a b
bit_and-shared width a b small = bit_and-bitwise a b ∙ digits-shared width a a b small (omega arith)

halved : ℕ → ℕ → ℕ
halved zero a = a
halved (suc k) a = halved k (a / 2)

-- A mask whose low bits are 0.
shared-high :
    (k width a m : ℕ) → shared (k + width) a (m * 2 ^ k) ≡ shared width (halved k a) m * 2 ^ k
unfolding shared halved
shared-high zero width a m =
    let whole : m * 2 ^ 0 ≡ m = omega arith in
    let none_more : 0 + width ≡ width = omega arith in rw (whole, none_more) (omega arith)
shared-high (suc k) width a m =
    let more : suc k + width ≡ suc (k + width) = omega arith in
    let twice : m * 2 ^ suc k ≡ 2 * (m * 2 ^ k) =
      omega (arith, ap (λ (t : ℕ). m * t) (pow-suc 2 k)) in
    let half : 2 * (m * 2 ^ k) / 2 ≡ m * 2 ^ k = omega arith in
    let even : 2 * (m * 2 ^ k) % 2 ≡ 0 = omega arith in
    let found = shared-high k width (a / 2) m in
    rw (more, twice, half, even, found)
      (omega (arith, ap (λ (t : ℕ). shared width (halved k (a / 2)) m * t) (pow-suc 2 k)))

-- A mask of ones.
shared-ones : (width a : ℕ) → a < 2 ^ width → shared width a (2 ^ width - 1) ≡ a
unfolding shared
shared-ones zero a small = omega arith
shared-ones (suc width) a small =
    let half : (2 ^ suc width - 1) / 2 ≡ 2 ^ width - 1 = omega (arith, pow-suc 2 width) in
    let odd : (2 ^ suc width - 1) % 2 ≡ 1 = omega (arith, pow-suc 2 width, one-le-pow width 2) in
    rw (half, odd, shared-ones width (a / 2) (omega (arith, pow-suc 2 width))) (omega arith)

masked :
    (k width a : ℕ)
    → a < 2 ^ (k + width)
    → halved k a < 2 ^ width
    → bit_and a ((2 ^ width - 1) * 2 ^ k) ≡ halved k a * 2 ^ k
masked k width a small part =
    bit_and-shared (k + width) a ((2 ^ width - 1) * 2 ^ k) small
    ∙ shared-high k width a (2 ^ width - 1)
    ∙ ap (λ t. t * 2 ^ k) (shared-ones width (halved k a) part)

module _ (a : ℕ) (small : a < 2 ^ 32) where
  first_byte : bit_and a 0xff00_0000 ≡ a / 16777216 * 16777216
  unfolding halved
  first_byte = masked 24 8 a small (omega arith) ∙ omega arith

  first_twelve : bit_and a 0xfff0_0000 ≡ a / 1048576 * 1048576
  unfolding halved
  first_twelve = masked 20 12 a small (omega arith) ∙ omega arith

  first_two : bit_and a 0xffff_0000 ≡ a / 65536 * 65536
  unfolding halved
  first_two = masked 16 16 a small (omega arith) ∙ omega arith

abbrev pub between : ℕ → ℕ → ℕ → Bool
between low high a = leb low a && leb a high

-- An address of 32 bits is private exactly if it lies in 10.0.0.0 to 10.255.255.255, in 172.16.0.0 to
-- 172.31.255.255 or in 192.168.0.0 to 192.168.255.255.
pub is_address_private-ranges :
    (a : ℕ)
    → a < 2 ^ 32
    → is_address_private a ≡ (
        between 0x0a00_0000 0x0aff_ffff a
        || between 0xac10_0000 0xac1f_ffff a
        || between 0xc0a8_0000 0xc0a8_ffff a)
unfolding is_address_private
is_address_private-ranges a small =
    rw (first_byte a small, first_twelve a small, first_two a small) (ground arith)
