-- ===== src/Main/Identity/Tests.antt =====
-- The ID OW28C68EABCDef.
use bismark_passive.Prelude.{
  ℕ, ◌≡◌, refl, none, some, List, [], ◌∷◌, ◌++◌, replicate, if◌then◌else◌,
}
use bismark_passive.Scanning.{is_space, is_hex, scan_bytes}
use bismark_passive.Scanning.Digits.{Digits, pair_bytes}
use bismark_passive.Main.Samples.{full_build}
use bismark_passive.Main.Identity.{initialize_bismark_id}
use bismark_passive.Main.Identity.Address.{initialize_bismark_id_lem}

abbrev digits : List ℕ
digits = 50 ∷ 56 ∷ 67 ∷ 54 ∷ 56 ∷ 69 ∷ 65 ∷ 66 ∷ 67 ∷ 68 ∷ 101 ∷ 102 ∷ []

digits-Digits : Digits 6 digits
unfolding is_hex
digits-Digits =
    (refl, refl, (refl, refl, (refl, refl, (refl, refl, (refl, refl, (refl, refl, refl))))))

initialize_bismark_id_lem_example :
    initialize_bismark_id full_build (some ((32 ∷ 10 ∷ []) ++ 79 ∷ (87 ∷ digits ++ 10 ∷ [])))
    ≡ some (record {
      bismark_id = 79 ∷ 87 ∷ digits;
      bismark_mac = if full_build.frequent_updates then pair_bytes digits else replicate 6 0;
    })
unfolding is_space
initialize_bismark_id_lem_example =
    initialize_bismark_id_lem digits digits-Digits 79 87 ((refl, refl), ((refl, refl), tt))
      full_build (32 ∷ 10 ∷ []) (10 ∷ []) (refl, (refl, tt))

bytes_of_digits : pair_bytes digits ≡ 40 ∷ 198 ∷ 142 ∷ 171 ∷ 205 ∷ 239 ∷ []
unfolding pair_bytes
bytes_of_digits = refl

-- A sign, and a conversion that fails, behind which no byte is stored.
signs : scan_bytes 2 none 6 (45 ∷ 49 ∷ 49 ∷ 50 ∷ 120 ∷ 49 ∷ []) ≡ 255 ∷ 18 ∷ []
unfolding scan_bytes
signs = refl
