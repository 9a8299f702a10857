-- ===== src/Whitelist/Tests.antt =====
-- A file of two names.
use bismark_passive.Prelude.{List, [], ◌∷◌, ℕ}
use bismark_passive.Whitelist.{load, lookup}
use bismark_passive.Whitelist.Entries.{LineOf}
use bismark_passive.Whitelist.Names.{Covers, Decides, lookup-load}

-- "a.b", an empty line, "c"
abbrev file : List ℕ
file = 97 ∷ 46 ∷ 98 ∷ 10 ∷ 10 ∷ 99 ∷ []

-- "x.c"
abbrev subdomain_name : List ℕ
subdomain_name = 120 ∷ 46 ∷ 99 ∷ []

lookup-load_example :
    Decides
      (lookup (load file) subdomain_name)
      ((entry : List ℕ) × LineOf file entry × Covers entry subdomain_name)
lookup-load_example = lookup-load file subdomain_name
