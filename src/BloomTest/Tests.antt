-- ===== src/BloomTest/Tests.antt =====
-- Two lines, with an empty one between them.
use bismark_passive.Prelude.{ℕ, ◌≡◌, refl, some, List, [], ◌∷◌, map, arith}
use bismark_passive.Bloom.{bloom_whitelist_init, load}
use bismark_passive.Main.Start.{static_bloom}
use bismark_passive.BloomTest.{main, enter_domains_to_check}
use bismark_passive.BloomTest.Lines.{unlines, expected, main-unlines}

abbrev names : List (List ℕ)
names = (97 ∷ 46 ∷ []) ∷ [] ∷ (98 ∷ []) ∷ []

main-unlines_example :
    main static_bloom (some (255 ∷ 1 ∷ [])) (unlines names)
    ≡ some (
      0,
      enter_domains_to_check
          ∷ map (expected (load (bloom_whitelist_init static_bloom) (some (255 ∷ 1 ∷ []))).0) names,
    )
main-unlines_example = main-unlines static_bloom (255 ∷ 1 ∷ []) names (
  (((refl, refl, refl), ((refl, refl, refl), tt)), omega arith),
  ((tt, omega arith), ((((refl, refl, refl), tt), omega arith), tt)),
)
