-- ===== src/Http/Digests.antt =====
-- Digests of URLs, which are bytes, are copied as if they were strings.
use bismark_passive.Prelude.{
  ℕ, suc, ◌≤◌, ◌≡◌, subst, refl, sym, ap, Bool, true, false, not, ◌&&◌, Bool-cases, inl, inr, none,
  some, List, [], ◌∷◌, arith, if◌then◌else◌, leb, ◌==◌, length, take, Option-cases,
}
use bismark_passive.Prelude.Printf.{◌>>=◌}
use bismark_passive.Util.Encoding.{hex_digits, buffer_to_hex-hex_digits}
use bismark_passive.Anonymization.{anonymization_digest_length}
use bismark_passive.Http.{strdup, url_text}

-- The last byte is 0, and no other.
pub zero_only_last : List ℕ → Bool
zero_only_last [] = false
zero_only_last (c ∷ []) = c == 0
zero_only_last (c ∷ d ∷ cs) = let rest = zero_only_last (d ∷ cs) in not (c == 0) && rest

strdup-whole : (d : List ℕ) → zero_only_last d ≡ true → strdup d ≡ some d
unfolding strdup zero_only_last
strdup-whole [] h = cc
strdup-whole (c ∷ []) h = rw h refl
strdup-whole (c ∷ d ∷ cs) h =
    let head : (c == 0) ≡ false = ground arith in
    rw (head, strdup-whole (d ∷ cs) (ground arith)) refl

strdup-short :
    (d s : List ℕ) → zero_only_last d ≡ false → strdup d ≡ some s → suc (length s) ≤ length d
unfolding strdup zero_only_last
strdup-short [] s h e = cc
strdup-short (c ∷ []) s h e = let e' : none ≡ some s = rw h at e in cc
strdup-short (c ∷ d ∷ cs) s h e = elim (Bool-cases (c == 0)) [
  | inl ends ↦
      let e' : some (c ∷ []) ≡ some s = rw ends at e in
      let is : c ∷ [] ≡ s = cc in rw (sym is) (omega arith)
  | inr more ↦
      let h' : zero_only_last (d ∷ cs) ≡ false = rw more at h in
      elim (Option-cases (strdup (d ∷ cs))) [
        | inl failed ↦ let e' : none ≡ some s = rw (more, failed) at e in cc
        | inr (s', copied) ↦
            let e' : some (c ∷ s') ≡ some s = rw (more, copied) at e in
            let is : c ∷ s' ≡ s = cc in
            let shorter = strdup-short (d ∷ cs) s' h' copied in rw (sym is) (omega (arith, shorter))
      ]
]

take-all : (xs : List ℕ) → take (length xs) xs ≡ xs
take-all [] = refl
take-all (x ∷ xs) = ap (λ l. x ∷ l) (take-all xs)

-- The text of a digest of 20 bytes that `add_url` has copied is right if its last byte is 0 and no
-- other is; with any other digest the copy, or the update that prints it, reads out of bounds.
pub url_text-strdup :
    (d : List ℕ)
    → length d ≡ anonymization_digest_length
    → (strdup d >>= url_text) ≡ (if zero_only_last d then some (hex_digits d) else none)
unfolding url_text
url_text-strdup d width = elim (Bool-cases (zero_only_last d)) [
  | inl whole ↦
      let all : take 20 d ≡ d = subst (λ k. take k d ≡ d) width (take-all d) in
      let enough : leb 20 (length d) ≡ true = ground arith in
      rw (strdup-whole d whole, enough, all, buffer_to_hex-hex_digits d (omega arith), whole) refl
  | inr cut ↦ elim (Option-cases (strdup d)) [
    | inl failed ↦ rw (failed, cut) refl
    | inr (s, copied) ↦
        let shorter = strdup-short d s cut copied in
        let short : leb 20 (length s) ≡ false = ground arith in rw (copied, short, cut) refl
  ]
]
