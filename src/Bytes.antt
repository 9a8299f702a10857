-- ===== src/Bytes.antt =====
-- Memory that holds a captured packet: reads of numbers in network byte order and of arrays. `none`
-- is a read behind the end.
use bismark_passive.Prelude.{
  ℕ, zero, suc, ◌+◌, ◌*◌, ◌≤◌, ◌<◌, ◌≡◌, refl, true, Option, none, some, List, [], ◌∷◌, arith,
  length, take, drop, leb, if◌then◌else◌,
}
use bismark_passive.Prelude.Printf.{◌>>=◌}

unfoldable pub byte_at : List ℕ → ℕ → Option ℕ
byte_at [] i = none
byte_at (b ∷ bs) zero = some b
byte_at (b ∷ bs) (suc i) = byte_at bs i

-- `ntohs(*(uint16_t*)p)` and `ntohl(*(uint32_t*)p)`
unfoldable pub read16 : List ℕ → ℕ → Option ℕ
unfolding byte_at
read16 bs off = do hi ← byte_at bs off; lo ← byte_at bs (off + 1); some (hi * 256 + lo)

unfoldable pub read32 : List ℕ → ℕ → Option ℕ
unfolding read16
read32 bs off = do hi ← read16 bs off; lo ← read16 bs (off + 2); some (hi * 65536 + lo)

-- the `n` bytes from an offset on
pub array_at : List ℕ → ℕ → ℕ → Option (List ℕ)
array_at bs off n = if leb (off + n) (length bs) then some (take n (drop off bs)) else none

pub byte_at-some : (bs : List ℕ) (i : ℕ) → i < length bs → (b : ℕ) × (byte_at bs i ≡ some b)
unfolding byte_at
byte_at-some [] i h = absurd (omega arith)
byte_at-some (b ∷ bs) zero h = (b, refl)
byte_at-some (b ∷ bs) (suc i) h = byte_at-some bs i (omega arith)

pub read16-some : (bs : List ℕ) (i : ℕ) → i + 2 ≤ length bs → (v : ℕ) × (read16 bs i ≡ some v)
unfolding read16
read16-some bs i h =
    let (hi, first) = byte_at-some bs i (omega arith) in
    let (lo, second) = byte_at-some bs (i + 1) (omega arith) in
    (hi * 256 + lo, rw (first, second) refl)

pub read32-some : (bs : List ℕ) (i : ℕ) → i + 4 ≤ length bs → (v : ℕ) × (read32 bs i ≡ some v)
unfolding read32
read32-some bs i h =
    let (hi, first) = read16-some bs i (omega arith) in
    let (lo, second) = read16-some bs (i + 2) (omega arith) in
    (hi * 65536 + lo, rw (first, second) refl)

pub array_at-some :
    (bs : List ℕ) (i n : ℕ) → i + n ≤ length bs → (a : List ℕ) × (array_at bs i n ≡ some a)
unfolding array_at
array_at-some bs i n h =
    let inside : leb (i + n) (length bs) ≡ true = ground arith in
    (take n (drop i bs), rw inside refl)

byte_at-none : (bs : List ℕ) (i : ℕ) → length bs ≤ i → byte_at bs i ≡ none
unfolding byte_at
byte_at-none [] i h = refl
byte_at-none (b ∷ bs) zero h = absurd (omega arith)
byte_at-none (b ∷ bs) (suc i) h = byte_at-none bs i (omega arith)

none_behind :
    {A B C : Type 0} (o : Option A) (q : Option B) (f : A → B → Option C)
    → q ≡ none
    → (o >>= λ a. q >>= λ b. f a b) ≡ none
none_behind none q f h = refl
none_behind (some a) q f h = rw h refl

pub read16-none : (bs : List ℕ) (i : ℕ) → length bs < i + 2 → read16 bs i ≡ none
unfolding read16
read16-none bs i h =
    none_behind (byte_at bs i) (byte_at bs (i + 1)) (λ hi lo. some (hi * 256 + lo))
      (byte_at-none bs (i + 1) (omega arith))

pub read32-none : (bs : List ℕ) (i : ℕ) → length bs < i + 4 → read32 bs i ≡ none
unfolding read32
read32-none bs i h =
    none_behind (read16 bs i) (read16 bs (i + 2)) (λ hi lo. some (hi * 65536 + lo))
      (read16-none bs (i + 2) (omega arith))
