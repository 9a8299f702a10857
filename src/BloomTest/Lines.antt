-- ===== src/BloomTest/Lines.antt =====
-- Every line is read and looked up.
use bismark_passive.Prelude.{
  ℕ, zero, suc, ◌%◌, ◌<◌, ◌≤◌, ◌≡◌, refl, ap, ◌∙◌, false, ◌&&◌, some, List, [], ◌∷◌, ◌++◌, map,
  arith, length, length-append, ◌==◌, if◌then◌else◌,
}
use bismark_passive.Prelude.Int.{ℤ, pos, negsuc}
use bismark_passive.Prelude.Printf.{◌>>=◌}
use bismark_passive.Prelude.All.{All}
use bismark_passive.Scanning.{up_to_zero}
use bismark_passive.Bloom.{Bloom, bloom_whitelist_init, load, lookup, get_bit, sax_hash, sdbm_hash}
use bismark_passive.Bloom.Hashes.{bloom_lookup-load, load-status}
use bismark_passive.BloomTest.{
  Report, enter_domains_to_check, found_word, not_found, fgets, cut_at, name_of_line, line_room,
  report, report_line, loop, run_if, main,
}

-- A character inside a line.
abbrev pub Inside : ℕ → Type 0
Inside c = ((c == 10) ≡ false) × ((c == 13) ≡ false) × ((c == 0) ≡ false)

-- A name that fits the buffer with its newline.
abbrev pub Line : List ℕ → Type 0
Line name = All Inside name × (length name < line_room)

fgets-append :
    (room : ℕ) (name rest : List ℕ)
    → All Inside name
    → length name < room
    → fgets room (name ++ 10 ∷ rest) ≡ (name ++ 10 ∷ [], rest)
unfolding fgets
fgets-append zero name rest h fits = absurd (omega arith)
fgets-append (suc room) [] rest h fits = refl
fgets-append (suc room) (c ∷ name) rest (hc, h) fits =
    rw (hc.0, fgets-append room name rest h (omega arith)) refl

up_to_zero-line : (name : List ℕ) → All Inside name → up_to_zero (name ++ 10 ∷ []) ≡ name ++ 10 ∷ []
unfolding up_to_zero
up_to_zero-line [] h = refl
up_to_zero-line (c ∷ name) (hc, h) = rw hc.2 (ap (λ l. c ∷ l) (up_to_zero-line name h))

cut_at-return : (name : List ℕ) → All Inside name → cut_at 13 (name ++ 10 ∷ []) ≡ name ++ 10 ∷ []
unfolding cut_at
cut_at-return [] h = refl
cut_at-return (c ∷ name) (hc, h) = rw hc.1 (ap (λ l. c ∷ l) (cut_at-return name h))

cut_at-newline : (name : List ℕ) → All Inside name → cut_at 10 (name ++ 10 ∷ []) ≡ name
unfolding cut_at
cut_at-newline [] h = refl
cut_at-newline (c ∷ name) (hc, h) = rw hc.0 (ap (λ l. c ∷ l) (cut_at-newline name h))

name_of_line-newline : (name : List ℕ) → All Inside name → name_of_line (name ++ 10 ∷ []) ≡ name
unfolding name_of_line
name_of_line-newline name h =
    rw (up_to_zero-line name h, cut_at-return name h) (cut_at-newline name h)

pub unlines : List (List ℕ) → List ℕ
unlines [] = []
unlines (name ∷ names) = name ++ 10 ∷ unlines names

length-unlines : (names : List (List ℕ)) → length names ≤ length (unlines names)
unfolding unlines
length-unlines [] = omega arith
length-unlines (name ∷ names) =
    omega (arith, length-append name (10 ∷ unlines names), length-unlines names)

-- What a filter answers that was loaded.
abbrev answer : Bloom → List ℕ → ℤ
answer b name =
    if get_bit b.a (sax_hash name % 2500000) && get_bit b.a (sdbm_hash name % 2500000)
    then pos 0
    else negsuc 0

-- A name is found if the bits of both hashes are set.
pub expected : Bloom → List ℕ → Report
expected b name =
    if get_bit b.a (sax_hash name % 2500000) && get_bit b.a (sdbm_hash name % 2500000)
    then found_word name
    else not_found name

module _ (b : Bloom) (answers : (name : List ℕ) → lookup b name ≡ some (answer b name)) where
  answered : (name : List ℕ) → report (answer b name) name ≡ expected b name
  unfolding expected
  answered name = ground arith

  by_line :
      (fuel : ℕ) (name rest : List ℕ)
      → loop b (suc fuel) (name ++ 10 ∷ rest)
        ≡ report_line b (fgets line_room (name ++ 10 ∷ rest)) (loop b fuel)
  unfolding loop
  by_line fuel [] rest = refl
  by_line fuel (c ∷ name) rest = refl

  next_round :
      (fuel : ℕ) (name rest : List ℕ)
      → Line name
      → loop b (suc fuel) (name ++ 10 ∷ rest)
        ≡ (loop b fuel rest >>= λ reports. some (expected b name ∷ reports))
  unfolding report_line
  next_round fuel name rest (h, fits) =
      by_line fuel name rest
      ∙ ap (λ line. report_line b line (loop b fuel)) (fgets-append line_room name rest h fits)
      ∙ rw (name_of_line-newline name h, answers name, answered name) refl

  reports_of_lines :
      (fuel : ℕ) (names : List (List ℕ))
      → All Line names
      → length names < fuel
      → loop b fuel (unlines names) ≡ some (map (expected b) names)
  unfolding unlines loop
  reports_of_lines zero names h enough = absurd (omega arith)
  reports_of_lines (suc fuel) [] h enough = refl
  reports_of_lines (suc fuel) (name ∷ names) (hn, h) enough =
      next_round fuel name (unlines names) hn
      ∙ ap (λ o. o >>= λ reports. some (expected b name ∷ reports))
          (reports_of_lines fuel names h (omega arith))

-- For lines that fit the buffer, without returns or zeros in them, the program asks for domains and
-- then reports on every line, in order: that the filter contains it if the bits of both its hashes
-- are set, and otherwise not.
pub main-unlines :
    (static : Bloom) (bytes : List ℕ) (names : List (List ℕ))
    → All Line names
    → main static (some bytes) (unlines names)
      ≡ some (
        0,
        enter_domains_to_check
            ∷ map (expected (load (bloom_whitelist_init static) (some bytes)).0) names,
      )
unfolding main run_if
main-unlines static bytes names h =
    let b = (load (bloom_whitelist_init static) (some bytes)).0 in
    let reported =
      reports_of_lines b (bloom_lookup-load static bytes) (suc (length (unlines names))) names h
        (omega (arith, length-unlines names)) in
    rw (load-status static bytes, reported) refl
