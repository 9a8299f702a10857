-- ===== src/Whitelist.antt =====
-- src/whitelist.h and src/whitelist.c: the domain names that are published in clear. Strings are
-- lists of characters without their final 0, with lengths that an `int` holds; calls of `strdup`
-- and `calloc` succeed.
pub mod Names
pub mod Lines
pub mod Entries
mod Tests
use bismark_passive.Prelude.{
  ℕ, ◌-◌, Bool, false, ◌&&◌, ◌||◌, Option, List, [], ◌∷◌, if◌then◌else◌, ◌==◌, length, take, drop,
  get_or, same_bytes, ltb, some,
}
use bismark_passive.Prelude.Int.{ℤ, pos, negsuc}
use bismark_passive.Prelude.Printf.{◌>>=◌, Call, Printf, str, blank_line}

-- `domain_whitelist_t`
pub record Whitelist : Type 0 where
  pub domains : List (List ℕ)
  pub size : ℕ

abbrev pub newline : ℕ
newline = 10

abbrev pub dot : ℕ
dot = 46

abbrev pub domain_whitelist_init : Whitelist → Whitelist
domain_whitelist_init w = record w { size = 0 }

-- A token and those behind it; an empty one is none.
abbrev pub keep : List ℕ → List (List ℕ) → List (List ℕ)
keep [] ws = ws
keep (c ∷ w) ws = (c ∷ w) ∷ ws

-- What repeated calls of `strtok` with "\n" find: the characters up to the next newline, and the
-- tokens behind it.
pub scan : List ℕ → List ℕ × List (List ℕ)
scan [] = ([], [])
scan (c ∷ cs) = let (w, ws) = scan cs in if c == newline then ([], keep w ws) else (c ∷ w, ws)

pub tokens : List ℕ → List (List ℕ)
unfolding scan
tokens cs = let (w, ws) = scan cs in keep w ws

-- `domain_whitelist_load`
pub load : List ℕ → Whitelist
unfolding tokens
load contents = record { domains = tokens contents; size = length (tokens contents) }

-- The body of the loop of the lookup: whether the name ends in the entry, at its start or behind a dot.
pub matches : List ℕ → List ℕ → Bool
matches domain entry =
    let match_length = length domain in
    let current_length = length entry in
    let domain_offset = match_length - current_length in
    if ltb match_length current_length
    then false
    else same_bytes (drop domain_offset domain) entry
      && (domain_offset == 0 || get_or domain (domain_offset - 1) 0 == dot)

pub lookup_loop : List ℕ → List (List ℕ) → ℤ
unfolding matches
lookup_loop domain [] = negsuc 0
lookup_loop domain (entry ∷ entries) =
    let rest = lookup_loop domain entries in if matches domain entry then pos 0 else rest

-- `domain_whitelist_lookup`
pub lookup : Whitelist → List ℕ → ℤ
unfolding lookup_loop
lookup w domain = lookup_loop domain (take w.size w.domains)

abbrev pub domain_line : List ℕ → Call
domain_line domain = record { format = "%s\n"; args = str domain ∷ [] }

module _ {H : Type 0} (gzprintf : Printf H) where
  pub write_domains : List (List ℕ) → H → Option H
  write_domains [] handle = some handle
  write_domains (d ∷ ds) handle = gzprintf handle (domain_line d) >>= write_domains ds

  -- `domain_whitelist_write_update`; `none` is its -1.
  pub write_update : Whitelist → H → Option H
  unfolding write_domains
  write_update w handle =
      write_domains (take w.size w.domains) handle >>= λ handle'. gzprintf handle' blank_line
