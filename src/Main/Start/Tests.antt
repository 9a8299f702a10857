-- ===== src/Main/Start/Tests.antt =====
-- A whitelist behind whose buffer other characters stand.
use bismark_passive.Prelude.{◌≡◌, refl, some, [], ◌∷◌}
use bismark_passive.Prelude.Int.{pos}
use bismark_passive.Whitelist
use bismark_passive.Main.Start.{initialize_domain_whitelist, static_whitelist}
use bismark_passive.Main.Start.Lists.{initialize_domain_whitelist_lem}

initialize_domain_whitelist_lem_example :
    initialize_domain_whitelist (98 ∷ 0 ∷ 7 ∷ []) (some (97 ∷ 46 ∷ [])) static_whitelist
    ≡ some (Whitelist.load (97 ∷ 46 ∷ 98 ∷ []), pos 0)
initialize_domain_whitelist_lem_example =
    initialize_domain_whitelist_lem 97 (46 ∷ []) (98 ∷ []) (7 ∷ []) static_whitelist
      (refl, (refl, tt)) (refl, tt)
