-- ===== src/Whitelist/Lines.antt =====
-- The whitelist as text, printed and loaded.
use bismark_passive.Prelude.{
  ℕ, ◌≡◌, ◌≢◌, refl, sym, ap, false, List, [], ◌∷◌, ◌++◌, map, ◌==◌, Bool-cases, inl, inr, take,
}
use mathlib.Core.Path.{fun_ext}
use bismark_passive.Prelude.Printf.{◌>>=◌, >>=_some, blank_line, Printf, put_all, put_all-append}
use bismark_passive.Whitelist.{
  Whitelist, newline, keep, scan, tokens, load, domain_line, write_domains, write_update,
}

-- The characters of an update: each name with a newline, and a last newline.
pub text_of : List (List ℕ) → List ℕ
text_of [] = newline ∷ []
text_of (d ∷ ds) = d ++ newline ∷ text_of ds

abbrev pub OneLine : List ℕ → Type 0
OneLine [] = Unit {0}
OneLine (c ∷ cs) = ((c == newline) ≡ false) × OneLine cs

abbrev Lines : List (List ℕ) → Type 0
Lines [] = Unit {0}
Lines (d ∷ ds) = (d ≢ []) × OneLine d × Lines ds

keep-Lines : (w : List ℕ) (ws : List (List ℕ)) → OneLine w → Lines ws → Lines (keep w ws)
keep-Lines [] ws o l = l
keep-Lines (c ∷ w) ws o l = (λ e. cc, o, l)

pub scan-Lines : (cs : List ℕ) → OneLine (scan cs).0 × Lines (scan cs).1
unfolding scan
scan-Lines [] = (tt, tt)
scan-Lines (c ∷ cs) =
    let (o, l) = scan-Lines cs in
    elim (Bool-cases (c == newline)) [
      | inl ends ↦ rw ends (tt, keep-Lines (scan cs).0 (scan cs).1 o l)
      | inr more ↦ rw more ((more, o), l)
    ]

pub scan-append : (d rest : List ℕ) → OneLine d → scan (d ++ newline ∷ rest) ≡ (d, tokens rest)
unfolding scan tokens
scan-append [] rest o = refl
scan-append (c ∷ d) rest (more, o) = rw (scan-append d rest o, more) refl

tokens-text_of : (ds : List (List ℕ)) → Lines ds → tokens (text_of ds) ≡ ds
unfolding tokens text_of scan
tokens-text_of [] l = refl
tokens-text_of ([] ∷ ds) (some_of_it, o, l) = absurd (some_of_it refl)
tokens-text_of ((c ∷ d) ∷ ds) (some_of_it, o, l) =
    rw (scan-append (c ∷ d) (text_of ds) o) (ap (λ ws. (c ∷ d) ∷ ws) (tokens-text_of ds l))

-- The text that an update prints of a loaded whitelist loads as the same whitelist.
pub load-text_of : (contents : List ℕ) → load (text_of (load contents).domains) ≡ load contents
unfolding load tokens
load-text_of contents =
    let (o, l) = scan-Lines contents in
    rw (tokens-text_of (tokens contents) (keep-Lines (scan contents).0 (scan contents).1 o l)) refl

module _ {H : Type 0} (gzprintf : Printf H) where
  write_domains-lines :
      (ds : List (List ℕ)) (h : H)
      → write_domains gzprintf ds h ≡ put_all gzprintf h (map domain_line ds)
  unfolding write_domains
  write_domains-lines [] h = refl
  write_domains-lines (d ∷ ds) h =
      ap (λ f. gzprintf h (domain_line d) >>= f) (fun_ext (write_domains-lines ds))

  -- An update prints the names in order, each on its line, and a blank line, up to the first call
  -- that fails.
  pub whitelist-write_update :
      (w : Whitelist) (h : H)
      → write_update gzprintf w h
        ≡ put_all gzprintf h (map domain_line (take w.size w.domains) ++ blank_line ∷ [])
  unfolding write_update
  whitelist-write_update w h =
      let ds = take w.size w.domains in
      rw
        (write_domains-lines ds h, put_all-append gzprintf h (map domain_line ds) (blank_line ∷ []))
        (ap (λ f. put_all gzprintf h (map domain_line ds) >>= f)
          (fun_ext λ h'. sym (>>=_some (gzprintf h' blank_line))))
