-- ===== src/BloomTest.antt =====
-- src/bloom-test.c: a program that reads lines and says of each whether the Bloom filter contains it.
pub mod Lines
mod Tests
use bismark_passive.Prelude.{
  ℕ, zero, suc, ◌+◌, Option, none, some, List, [], ◌∷◌, length, if◌then◌else◌, ◌==◌,
}
use bismark_passive.Prelude.Int.{ℤ, pos, negsuc}
use bismark_passive.Prelude.Printf.{◌>>=◌}
use bismark_passive.Scanning.{up_to_zero}
use bismark_passive.Bloom.{Bloom, bloom_whitelist_init, load, lookup}

-- What is printed: the line in front of the loop, and one for each line of the input.
pub data Report : Type 0 where
  enter_domains_to_check : Report
  found_word : List ℕ → Report
  not_found : List ℕ → Report

-- `fgets` with room for so many characters: the line with its newline, and what is left.
pub fgets : ℕ → List ℕ → List ℕ × List ℕ
fgets zero input = ([], input)
fgets (suc room) [] = ([], [])
fgets (suc room) (c ∷ input) =
    let more = fgets room input in if c == 10 then (c ∷ [], input) else (c ∷ more.0, more.1)

-- `if ((p = strchr(line, c))) *p = '\0'`
pub cut_at : ℕ → List ℕ → List ℕ
cut_at c [] = []
cut_at c (d ∷ line) = let rest = cut_at c line in if d == c then [] else d ∷ rest

-- The string in the buffer, without its line end.
pub name_of_line : List ℕ → List ℕ
unfolding cut_at
name_of_line line = cut_at 10 (cut_at 13 (up_to_zero line))

abbrev pub report : ℤ → List ℕ → Report
report (pos zero) name = found_word name
report _ name = not_found name

-- The buffer has 1024 characters, one of them for the final 0.
abbrev pub line_room : ℕ
line_room = 1023

-- One round of the loop, on the line and what is left; `none` if the lookup goes wrong.
pub report_line : Bloom → List ℕ × List ℕ → (List ℕ → Option (List Report)) → Option (List Report)
unfolding name_of_line
report_line b line rest = lookup b (name_of_line line.0) >>= λ answer.
    rest line.1 >>= λ reports. some (report answer (name_of_line line.0) ∷ reports)

-- The loop, with fuel for each line, up to the end of the input.
pub loop : Bloom → ℕ → List ℕ → Option (List Report)
unfolding report_line fgets
loop b zero input = none
loop b (suc fuel) [] = some []
loop b (suc fuel) (c ∷ input) = report_line b (fgets line_room (c ∷ input)) (loop b fuel)

-- `initialize_bloom_whitelist` and `main` behind it: the status, and what is printed.
pub run_if : ℤ → Bloom → List ℕ → Option (ℕ × List Report)
unfolding loop
run_if (pos n) b input =
    loop b (suc (length input)) input >>= λ reports. some (0, enter_domains_to_check ∷ reports)
run_if (negsuc n) b input = some (255, [])

pub main : Bloom → Option (List ℕ) → List ℕ → Option (ℕ × List Report)
unfolding run_if
main static file input =
    let loaded = load (bloom_whitelist_init static) file in run_if loaded.1 loaded.0 input
