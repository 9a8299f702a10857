-- ===== src/Hashing.antt =====
-- src/hashing.h: the 32-bit FNV-1 hash by shifts.
use Prim.Native.Nat.{bit_xor}
use bismark_passive.Prelude.{ℕ, ◌+◌, ◌*◌, ◌%◌, ◌^◌, ◌≡◌, List, [], ◌∷◌, refl, ap, ◌∙◌, arith}

abbrev pub fnv_offset_basis : ℕ
fnv_offset_basis = 0x811c9dc5

-- `x << k` in `uint32_t`
abbrev shl32 : ℕ → ℕ → ℕ
shl32 x k = x * 2 ^ k % 2 ^ 32

-- one round of the loop
pub fnv_round : ℕ → ℕ → ℕ
fnv_round hval byte =
    bit_xor
      ((hval + (shl32 hval 1 + shl32 hval 4 + shl32 hval 7 + shl32 hval 8 + shl32 hval 24) % 2 ^ 32)
        % 2 ^ 32)
      byte

fnv_from : ℕ → List ℕ → ℕ
fnv_from hval [] = hval
fnv_from hval (byte ∷ rest) = fnv_from (fnv_round hval byte) rest

pub fnv_hash_32 : List ℕ → ℕ
unfolding fnv_from fnv_round
fnv_hash_32 bytes = fnv_from fnv_offset_basis bytes

abbrev pub fnv_prime : ℕ
fnv_prime = 16777619

-- The published FNV-1: multiply by the prime, then exclusive or.
pub fnv_1 : ℕ → List ℕ → ℕ
fnv_1 hval [] = hval
fnv_1 hval (byte ∷ rest) = fnv_1 (bit_xor (hval * fnv_prime % 2 ^ 32) byte) rest

fnv_round-prime : (hval byte : ℕ) → fnv_round hval byte ≡ bit_xor (hval * fnv_prime % 2 ^ 32) byte
unfolding fnv_round
fnv_round-prime hval byte = ground arith

fnv_from-fnv_1 : (hval : ℕ) (bytes : List ℕ) → fnv_from hval bytes ≡ fnv_1 hval bytes
unfolding fnv_from fnv_1
fnv_from-fnv_1 hval [] = refl
fnv_from-fnv_1 hval (byte ∷ rest) =
    fnv_from-fnv_1 (fnv_round hval byte) rest ∙ ap (λ h. fnv_1 h rest) (fnv_round-prime hval byte)

-- The loop of shifts and sums computes FNV-1 of its input, from the offset basis.
pub fnv_hash_32-fnv_1 : (bytes : List ℕ) → fnv_hash_32 bytes ≡ fnv_1 fnv_offset_basis bytes
unfolding fnv_hash_32
fnv_hash_32-fnv_1 bytes = fnv_from-fnv_1 fnv_offset_basis bytes
