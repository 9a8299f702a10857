-- ===== src/Platform.antt =====
-- What C leaves to the compiler and the machine, as a parameter of the components that use it: how
-- numbers lie in memory, the arithmetic of `double`, and what is left of an array behind its block.
use bismark_passive.Prelude.{ℕ, ◌^◌, ◌<◌, ◌≤◌, ◌≡◌, List}

-- A string that a pointer leads to: one that is there, or the last text of an array whose block has
-- ended.
pub data Pointed : Type 0 where
  alive dead : List ℕ → Pointed

pub record Platform : Type 0 where
  -- the bytes of a `uint16_t` and of a `uint32_t` in memory, in the order of their addresses
  pub bytes16 : ℕ → List ℕ
  pub bytes32 : ℕ → List ℕ
  -- the conversion of a `double` with an integral value to `uint32_t`, undefined out of range
  pub double_to_uint32 : ℕ → ℕ
  pub double_to_uint32_exact : (n : ℕ) → n < 2 ^ 32 → double_to_uint32 n ≡ n
  -- the `double` that a sum or product of integral values is rounded to, exact below 2 ^ 53
  pub round : ℕ → ℕ
  pub round_exact : (n : ℕ) → n ≤ 2 ^ 53 → round n ≡ n
  -- the `uint64_t` that eight bytes in memory stand for
  pub word64 : List ℕ → ℕ
  -- `sizeof` of a pointer
  pub pointer_size : ℕ
  -- what is read of the dead array at a position of the strings of one line: undefined in C, and
  -- taken to be some text
  pub left_of : List Pointed → ℕ → List ℕ

-- What a conversion `%s` reads, for the string at a position of the strings of its line.
unfoldable pub read : Platform → List Pointed → ℕ → Pointed → List ℕ
read p strings k (alive s) = s
read p strings k (dead s) = p.left_of strings k
