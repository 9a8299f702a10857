-- ===== src/Main/Start/Lists.antt =====
-- The whitelist that `main` loads.
use bismark_passive.Prelude.{ℕ, ◌≡◌, refl, sym, ap, ◌∙◌, false, some, List, [], ◌∷◌, ◌++◌, ◌==◌}
use mathlib.Core.List.{append_assoc}
use bismark_passive.Prelude.Int.{pos}
use bismark_passive.Prelude.Printf.{◌>>=◌}
use bismark_passive.Prelude.All.{All, All-append}
use bismark_passive.Whitelist.{Whitelist}
use bismark_passive.Whitelist
use bismark_passive.Main.Start.{c_string, initialize_domain_whitelist}

-- Characters other than 0.
abbrev pub Nonzero : ℕ → Type 0
Nonzero c = (c == 0) ≡ false

c_string-append : (s rest : List ℕ) → All Nonzero s → c_string (s ++ 0 ∷ rest) ≡ some s
unfolding c_string
c_string-append [] rest h = refl
c_string-append (c ∷ s) rest (nonzero, h) = rw (nonzero, c_string-append s rest h) refl

-- The buffer of the whitelist has no final 0: a file without one is loaded together with whatever
-- stands behind the buffer in memory, up to the next 0.
pub initialize_domain_whitelist_lem :
    (c : ℕ) (contents behind rest : List ℕ) (w : Whitelist)
    → All Nonzero (c ∷ contents)
    → All Nonzero behind
    → initialize_domain_whitelist (behind ++ 0 ∷ rest) (some (c ∷ contents)) w
      ≡ some (Whitelist.load (c ∷ contents ++ behind), pos 0)
unfolding initialize_domain_whitelist
initialize_domain_whitelist_lem c contents behind rest w h h' =
    let found : c_string (c ∷ contents ++ (behind ++ 0 ∷ rest)) ≡ some (c ∷ contents ++ behind) =
      ap c_string (sym (append_assoc (c ∷ contents) behind (0 ∷ rest)))
      ∙ c_string-append (c ∷ contents ++ behind) rest
          (All-append Nonzero (c ∷ contents) behind h h') in
    ap (λ o. o >>= λ s. some (Whitelist.load s, pos 0)) found
