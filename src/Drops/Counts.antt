-- ===== src/Drops/Counts.antt =====
-- What is counted, cleared and printed.
use bismark_passive.Prelude.{
  ℕ, zero, suc, ◌+◌, ◌/◌, ◌%◌, ◌^◌, ◌≤◌, ◌<◌, ◌≡◌, refl, sym, ap, ◌∙◌, List, [], ◌∷◌, ◌++◌, arith,
  ltb, if◌then◌else◌, get_or, take, length, get_or-set, length-set, Bool-cases, inl, inr, ◌==◌,
  ==_iff, ltb→lt,
}
use Prim.Native.Nat.{min}
use mathlib.Core.Path.{fun_ext}
use bismark_passive.Prelude.Printf.{
  ◌>>=◌, >>=_some, blank_line, Call, Printf, put_all, put_all-append,
}
use bismark_passive.Constants.{drop_statistics_maximum_packet_size}
use bismark_passive.Platform.{Platform}
use bismark_passive.Drops.{
  DropStatistics, clear, drop_statistics_init, process_packet, count_line, write_counts,
  write_update,
}

abbrev pub IsValid : DropStatistics → Type 0
IsValid s = length s.packet_sizes ≡ drop_statistics_maximum_packet_size + 1

-- the counter of a size
abbrev pub counter : DropStatistics → ℕ → ℕ
counter s i = get_or s.packet_sizes i 0

-- A dropped packet adds one, modulo 2^32, to the counter of its size, or of 1500 if it is larger, and
-- to no other; the array keeps its width.
pub process_packet_lem :
    (s : DropStatistics) (size i : ℕ)
    → IsValid s
    → IsValid (process_packet s size)
      × (counter (process_packet s size) i ≡ (
          if min size drop_statistics_maximum_packet_size == i
          then (counter s i + 1) % 2 ^ 32
          else counter s i))
unfolding process_packet
process_packet_lem s size i v =
    let idx : ℕ =
      if ltb drop_statistics_maximum_packet_size size
      then drop_statistics_maximum_packet_size
      else size in
    let is : idx ≡ min size drop_statistics_maximum_packet_size = ground arith in
    let n : ℕ = (get_or s.packet_sizes idx 0 + 1) % 2 ^ 32 in
    (
      length-set s.packet_sizes idx n ∙ v,
      get_or-set s.packet_sizes idx i n 0 (omega arith) ∙ at_index idx is,
    )
  where
    at_index :
        (j : ℕ)
        → j ≡ min size drop_statistics_maximum_packet_size
        → (if j == i then (counter s j + 1) % 2 ^ 32 else counter s i) ≡ (
            if min size drop_statistics_maximum_packet_size == i
            then (counter s i + 1) % 2 ^ 32
            else counter s i)
    at_index j e = rw (sym e) (elim (Bool-cases (j == i)) [
      | inl y ↦ rw y (ap (λ k. (counter s k + 1) % 2 ^ 32) ((==_iff j i).0 y))
      | inr n ↦ rw n
    ])

get_or-clear_below : (k i : ℕ) (ns : List ℕ) → i < k → get_or (clear k ns) i 0 ≡ 0
unfolding clear
get_or-clear_below zero i ns h = absurd (omega arith)
get_or-clear_below (suc k) i [] h = refl
get_or-clear_below (suc k) zero (n ∷ ns) h = refl
get_or-clear_below (suc k) (suc i) (n ∷ ns) h = get_or-clear_below k i ns (omega arith)

get_or-clear_above : (k i : ℕ) (ns : List ℕ) → k ≤ i → get_or (clear k ns) i 0 ≡ get_or ns i 0
unfolding clear
get_or-clear_above zero i ns h = refl
get_or-clear_above (suc k) i [] h = refl
get_or-clear_above (suc k) zero (n ∷ ns) h = absurd (omega arith)
get_or-clear_above (suc k) (suc i) (n ∷ ns) h = get_or-clear_above k i ns (omega arith)

length-clear : (k : ℕ) (ns : List ℕ) → length (clear k ns) ≡ length ns
unfolding clear
length-clear zero ns = refl
length-clear (suc k) [] = refl
length-clear (suc k) (n ∷ ns) = ap suc (length-clear k ns)

pub drop_statistics_init-IsValid :
    (p : Platform) (s : DropStatistics) → IsValid s → IsValid (drop_statistics_init p s)
unfolding drop_statistics_init
drop_statistics_init-IsValid p s v = length-clear (p.pointer_size / 4) s.packet_sizes ∙ v

-- Initialization clears the counters that fit the bytes of a pointer, and leaves all others as they
-- were: with 8 bytes only those of sizes 0 and 1.
pub drop_statistics_init_lem :
    (p : Platform) (s : DropStatistics) (i : ℕ)
    → counter (drop_statistics_init p s) i ≡ (if ltb i (p.pointer_size / 4) then 0 else counter s i)
unfolding drop_statistics_init
drop_statistics_init_lem p s i = elim (Bool-cases (ltb i (p.pointer_size / 4))) [
  | inl below ↦
      rw below (get_or-clear_below (p.pointer_size / 4) i s.packet_sizes (ltb→lt _ _ below))
  | inr above ↦ rw above (get_or-clear_above (p.pointer_size / 4) i s.packet_sizes (ground arith))
]

-- The counters that are not 0, by size.
pub count_lines : ℕ → List ℕ → List Call
count_lines idx [] = []
count_lines idx (n ∷ ns) =
    let rest = count_lines (idx + 1) ns in if ltb 0 n then count_line idx n ∷ rest else rest

module _ {H : Type 0} (gzprintf : Printf H) where
  write_counts-lines :
      (idx : ℕ) (ns : List ℕ) (h : H)
      → write_counts gzprintf idx ns h ≡ put_all gzprintf h (count_lines idx ns)
  unfolding write_counts count_lines
  write_counts-lines idx [] h = refl
  write_counts-lines idx (n ∷ ns) h = elim (Bool-cases (ltb 0 n)) [
    | inl some_dropped ↦
        rw some_dropped (
          ap (λ f. gzprintf h (count_line idx n) >>= f) (fun_ext (write_counts-lines (idx + 1) ns)))
    | inr nothing ↦ rw nothing (write_counts-lines (idx + 1) ns h)
  ]

  -- An update prints the counters below index 1500 that are not 0, by size, and a blank line, up to
  -- the first call that fails: the packets of 1500 bytes and more are counted and never printed.
  pub drops-write_update :
      (s : DropStatistics) (h : H)
      → write_update gzprintf s h
        ≡ put_all gzprintf h (
            count_lines 0 (take drop_statistics_maximum_packet_size s.packet_sizes)
            ++ blank_line ∷ [])
  unfolding write_update
  drops-write_update s h =
      let ns = take drop_statistics_maximum_packet_size s.packet_sizes in
      rw (write_counts-lines 0 ns h, put_all-append gzprintf h (count_lines 0 ns) (blank_line ∷ []))
        (ap (λ f. put_all gzprintf h (count_lines 0 ns) >>= f)
          (fun_ext λ h'. sym (>>=_some (gzprintf h' blank_line))))
