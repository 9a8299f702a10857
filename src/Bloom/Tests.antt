-- ===== src/Bloom/Tests.antt =====
-- A filter with two names.
use bismark_passive.Prelude.{
  ℕ, zero, suc, ◌≡◌, some, [], ◌∷◌, ◌++◌, arith, length-replicate, replicate,
}
use bismark_passive.Prelude.Int.{pos}
use bismark_passive.Prelude.All.{All}
use bismark_passive.Bloom.{bloom_whitelist_init, load, lookup}
use bismark_passive.Bloom.Bits.{IsByte}
use bismark_passive.Bloom.Members.{add_names, lookup-add_names}
use bismark_passive.Main.Start.{static_bloom}

replicate-IsByte : (n : ℕ) → All IsByte (replicate n 0)
unfolding replicate
replicate-IsByte zero = tt
replicate-IsByte (suc n) = (omega arith, replicate-IsByte n)

lookup-add_names_example :
    lookup
      (load
        (bloom_whitelist_init static_bloom)
        (some (add_names 2500000 ((97 ∷ []) ∷ [] ++ (98 ∷ 46 ∷ []) ∷ []) (replicate 312500 0)))).0
      (98 ∷ 46 ∷ [])
    ≡ some (pos 0)
lookup-add_names_example =
    lookup-add_names static_bloom ((97 ∷ []) ∷ []) [] (replicate 312500 0) (98 ∷ 46 ∷ [])
      (replicate-IsByte 312500) (length-replicate {A = ℕ} 312500 0)
