-- ===== src/Samples.antt =====
-- A little-endian platform, a keyed hash and an anonymizer, on which the tests run the theorems.
use bismark_passive.Prelude.{
  ℕ, ◌+◌, ◌*◌, ◌/◌, ◌%◌, ◌^◌, ◌≡◌, refl, true, List, [], ◌∷◌, arith, length, replicate,
}
use bismark_passive.Platform.{Platform, Pointed, alive, dead}
use bismark_passive.Anonymization.{Hmac, Anonymizer}

abbrev word : List ℕ → ℕ
word [] = 0
word (b ∷ bs) = b + 256 * word bs

-- All dead arrays lie in the same place of the stack.
abbrev last_of : List Pointed → ℕ → List ℕ
last_of [] k = []
last_of (alive _ ∷ strings) k = last_of strings k
last_of (dead s ∷ []) k = s
last_of (dead s ∷ q ∷ strings) k = last_of (q ∷ strings) k

abbrev pub platform : Platform
platform = record {
  bytes16 = λ n. n % 256 ∷ n / 256 % 256 ∷ [];
  bytes32 = λ n. n % 256 ∷ n / 256 % 256 ∷ n / 65536 % 256 ∷ n / 16777216 % 256 ∷ [];
  double_to_uint32 = λ n. n % 2 ^ 32;
  double_to_uint32_exact = λ n h. omega arith;
  round = λ n. n;
  round_exact = λ n h. refl;
  word64 = word;
  pointer_size = 8;
  left_of = last_of;
}

-- a digest of 20 bytes that depends on the data
abbrev pub hmac : Hmac
hmac key [] = replicate 20 0
hmac key (b ∷ bytes) = b ∷ replicate 19 7

pub length-hmac : (key bytes : List ℕ) → length (hmac key bytes) ≡ 20
unfolding replicate
length-hmac key [] = refl
length-hmac key (b ∷ bytes) = refl

abbrev pub anonymizer : Anonymizer
anonymizer = record { seed = replicate 16 1; seed_hex_digest = []; initialized = true }
