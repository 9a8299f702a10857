-- ===== src/Scanning/Words.antt =====
-- Words and strings behind and before other characters.
use bismark_passive.Prelude.{
  ℕ, zero, suc, ◌≡◌, refl, ap, false, true, List, [], ◌∷◌, ◌++◌, ◌==◌, arith, length,
}
use bismark_passive.Prelude.All.{All}
use bismark_passive.Scanning.{is_space, is_hex, skip_spaces, word, up_to_zero}
use bismark_passive.Scanning.Digits.{Digits}

-- White space, and a character that a word can have in a string.
abbrev pub White : ℕ → Type 0
White c = is_space c ≡ true

abbrev pub Visible : ℕ → Type 0
Visible c = (is_space c ≡ false) × ((c == 0) ≡ false)

pub skip_spaces-append :
    (spaces : List ℕ) (c : ℕ) (rest : List ℕ)
    → All White spaces
    → Visible c
    → skip_spaces (spaces ++ c ∷ rest) ≡ c ∷ rest
unfolding skip_spaces
skip_spaces-append [] c rest h v = rw v.0 refl
skip_spaces-append (b ∷ spaces) c rest (hb, h) v = rw hb (skip_spaces-append spaces c rest h v)

pub word-append : (s rest : List ℕ) (n : ℕ) → length s ≡ n → All Visible s → word n (s ++ rest) ≡ s
unfolding word
word-append [] rest zero e h = refl
word-append [] rest (suc n) e h = absurd (omega arith)
word-append (c ∷ s) rest zero e h = absurd (omega arith)
word-append (c ∷ s) rest (suc n) e (hc, h) =
    rw hc.0 (ap (λ t. c ∷ t) (word-append s rest n (omega arith) h))

pub up_to_zero-append : (s rest : List ℕ) → All Visible s → up_to_zero (s ++ 0 ∷ rest) ≡ s
unfolding up_to_zero
up_to_zero-append [] rest h = refl
up_to_zero-append (c ∷ s) rest (hc, h) = rw hc.1 (ap (λ t. c ∷ t) (up_to_zero-append s rest h))

is_hex-Visible : (c : ℕ) → is_hex c ≡ true → Visible c
unfolding is_hex is_space
is_hex-Visible c h = (ground arith, ground arith)

pub Digits-Visible : (n : ℕ) (digits : List ℕ) → Digits n digits → All Visible digits
Digits-Visible zero [] h = tt
Digits-Visible zero (c ∷ digits) h = cc
Digits-Visible (suc n) [] h = absurd h
Digits-Visible (suc n) (c ∷ []) h = absurd h
Digits-Visible (suc n) (c ∷ d ∷ digits) (hc, hd, h) =
    (is_hex-Visible c hc, (is_hex-Visible d hd, Digits-Visible n digits h))
