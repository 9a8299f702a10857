-- ===== src/Bloom.antt =====
-- src/bloom-whitelist.h and src/bloom-whitelist.c: a Bloom filter of domain names, loaded from a
-- file. `char` has 8 bits; the calls of `calloc` and `malloc` succeed.
pub mod Hashes
pub mod Bits
pub mod Members
mod Tests
use Prim.Native.Nat.{bit_and, bit_xor}
use bismark_passive.Prelude.{
  ℕ, zero, suc, ◌+◌, ◌-◌, ◌*◌, ◌/◌, ◌%◌, ◌^◌, Bool, not, Option, none, some, List, [], ◌∷◌, ◌++◌,
  if◌then◌else◌, ◌==◌, get_or, take, replicate,
}
use bismark_passive.Prelude.Int.{ℤ, pos, negsuc}
use bismark_passive.Constants.{bloomsize, numhash}

-- one round of `sax_hash` and of `sdbm_hash`, in `unsigned int`
pub sax_round : ℕ → ℕ → ℕ
sax_round h c = bit_xor h ((h * 2 ^ 5 % 2 ^ 32 + h / 2 ^ 2 + c) % 2 ^ 32)

pub sdbm_round : ℕ → ℕ → ℕ
sdbm_round h c = (c + h * 2 ^ 6 % 2 ^ 32 + h * 2 ^ 16 % 2 ^ 32 + (2 ^ 32 - h)) % 2 ^ 32

-- The loop of a hash function over the characters of a string.
pub hash_loop : (ℕ → ℕ → ℕ) → ℕ → List ℕ → ℕ
hash_loop round h [] = h
hash_loop round h (c ∷ key) = hash_loop round (round h c) key

pub sax_hash : List ℕ → ℕ
unfolding sax_round hash_loop
sax_hash key = hash_loop sax_round 0 key

pub sdbm_hash : List ℕ → ℕ
unfolding sdbm_round hash_loop
sdbm_hash key = hash_loop sdbm_round 0 key

-- `bloom_whitelist_t`; `none` for a pointer that is NULL
pub record Bloom : Type 0 where
  pub asize : ℕ
  pub a : List ℕ
  pub nfuncs : ℕ
  pub funcs : Option (List (List ℕ → ℕ))

-- `GETBIT(a, n)`
pub get_bit : List ℕ → ℕ → Bool
get_bit a n = not (bit_and (get_or a (n / 8) 0) (2 ^ (n % 8)) == 0)

abbrev pub bloom_whitelist_init : Bloom → Bloom
bloom_whitelist_init b = record b { asize = bloomsize; nfuncs = numhash }

-- `bloom_whitelist_load`, on the bytes of the file or `none` if it cannot be opened. What the file
-- does not fill stays 0.
pub load : Bloom → Option (List ℕ) → Bloom × ℤ
load b none = (record b { a = replicate ((b.asize + 7) / 8) 0 }, negsuc 0)
load b (some bytes) =
    let size = (b.asize + 7) / 8 in
    (
      record b {
        a = take size (bytes ++ replicate size 0);
        funcs = some (sax_hash ∷ sdbm_hash ∷ []);
      },
      pos 0,
    )

-- The loop of the lookup; `none` is a function behind the end of the array.
pub lookup_loop : Bloom → List ℕ → ℕ → List (List ℕ → ℕ) → Option ℤ
unfolding get_bit
lookup_loop b domain zero fs = some (pos 0)
lookup_loop b domain (suc rounds) [] = none
lookup_loop b domain (suc rounds) (f ∷ fs) =
    let rest = lookup_loop b domain rounds fs in
    if get_bit b.a (f domain % b.asize) then rest else some (negsuc 0)

abbrev array : Option (List (List ℕ → ℕ)) → List (List ℕ → ℕ)
array none = []
array (some fs) = fs

-- `bloom_whitelist_lookup`; `none` if it calls a function that is not there.
pub lookup : Bloom → List ℕ → Option ℤ
unfolding lookup_loop
lookup b domain = lookup_loop b domain b.nfuncs (array b.funcs)
