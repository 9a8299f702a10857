-- ===== src/Scanning.antt =====
-- The conversions of `scanf` that the programs use: a word, and bytes in hexadecimal. As in glibc, a
-- number that does not fit a byte is cut to its low 8 bits, and one that does not fit 64 bits is
-- taken for 2^64 - 1. The characters `0x` without a digit are no number.
pub mod Digits
pub mod Words
use bismark_passive.Prelude.{
  ℕ, zero, suc, ◌+◌, ◌-◌, ◌*◌, ◌/◌, ◌%◌, ◌^◌, Bool, true, false, ◌&&◌, ◌||◌, Option, none, some,
  List, [], ◌∷◌, ◌++◌, ltb, leb, ◌==◌, if◌then◌else◌, length, drop,
}
use bismark_passive.Util.{hex_digit}

-- `isspace` in the C locale
unfoldable pub is_space : ℕ → Bool
is_space c = c == 32 || leb 9 c && leb c 13

unfoldable pub is_hex : ℕ → Bool
is_hex c = leb 48 c && leb c 57 || leb 65 c && leb c 70 || leb 97 c && leb c 102

unfoldable pub hex_value : ℕ → ℕ
hex_value c = if ltb c 65 then c - 48 else if ltb c 97 then c - 55 else c - 87

unfoldable pub skip_spaces : List ℕ → List ℕ
unfolding is_space
skip_spaces [] = []
skip_spaces (c ∷ cs) = let rest = skip_spaces cs in if is_space c then rest else c ∷ cs

-- The characters of `%<n>s` behind the white space.
unfoldable pub word : ℕ → List ℕ → List ℕ
unfolding is_space
word zero cs = []
word (suc n) [] = []
word (suc n) (c ∷ cs) = let rest = word n cs in if is_space c then [] else c ∷ rest

-- What a string in memory is, up to its first 0 or the end of its array.
unfoldable pub up_to_zero : List ℕ → List ℕ
up_to_zero [] = []
up_to_zero (c ∷ cs) = let rest = up_to_zero cs in if c == 0 then [] else c ∷ rest

-- The value of so many digits at most, and what follows them.
pub hex_run : ℕ → ℕ → List ℕ → ℕ × List ℕ
unfolding is_hex hex_value
hex_run zero v cs = (v, cs)
hex_run (suc width) v [] = (v, [])
hex_run (suc width) v (c ∷ cs) =
    let rest = hex_run width (v * 16 + hex_value c) cs in if is_hex c then rest else (v, c ∷ cs)

abbrev pub as_byte : Bool → ℕ → ℕ
as_byte negative v =
    if leb (2 ^ 64) v then 255 else if negative then (2 ^ 64 - v) % 256 else v % 256

-- At least one digit.
pub unsigned_hex : Bool → ℕ → List ℕ → Option (ℕ × List ℕ)
unfolding hex_run
unsigned_hex negative zero cs = none
unsigned_hex negative (suc width) [] = none
unsigned_hex negative (suc width) (c ∷ cs) =
    let run = hex_run width (hex_value c) cs in
    if is_hex c then some (as_byte negative run.0, run.1) else none

pub has_prefix : ℕ → List ℕ → Bool
has_prefix (suc (suc width)) (c ∷ d ∷ cs) = c == 48 && (d == 120 || d == 88)
has_prefix _ _ = false

pub prefixed_hex : Bool → ℕ → List ℕ → Option (ℕ × List ℕ)
unfolding has_prefix unsigned_hex
prefixed_hex negative width cs =
    if has_prefix width cs
    then unsigned_hex negative (width - 2) (drop 2 cs)
    else unsigned_hex negative width cs

pub signed_hex : ℕ → List ℕ → Option (ℕ × List ℕ)
unfolding prefixed_hex
signed_hex width [] = none
signed_hex width (c ∷ cs) =
    if c == 43
    then prefixed_hex false (width - 1) cs
    else if c == 45
    then prefixed_hex true (width - 1) cs
    else prefixed_hex false width (c ∷ cs)

-- `%<width>hhx`
unfoldable pub scan_hex : ℕ → List ℕ → Option (ℕ × List ℕ)
unfolding skip_spaces signed_hex
scan_hex width text = signed_hex width (skip_spaces text)

pub after_separator : Option ℕ → List ℕ → (List ℕ → List ℕ) → List ℕ
after_separator none text rest = rest text
after_separator (some c) [] rest = []
after_separator (some c) (d ∷ text) rest = if c == d then rest text else []

unfoldable pub field_then : Option (ℕ × List ℕ) → (List ℕ → List ℕ) → List ℕ
field_then none rest = []
field_then (some (b, text)) rest = b ∷ rest text

-- The bytes that `sscanf` stores for so many such conversions with a separator between them, or none.
unfoldable pub scan_bytes : ℕ → Option ℕ → ℕ → List ℕ → List ℕ
unfolding scan_hex after_separator field_then
scan_bytes width separator zero text = []
scan_bytes width separator (suc n) text =
    field_then (scan_hex width text)
      λ rest. after_separator separator rest (scan_bytes width separator n)

-- An array over whose first elements these bytes are written.
abbrev pub overwrite : List ℕ → List ℕ → List ℕ
overwrite bytes old = bytes ++ drop (length bytes) old

-- What `printf` writes for bytes with `%02hhx`, with a colon between them.
unfoldable pub colon_hex : List ℕ → List ℕ
colon_hex [] = []
colon_hex (b ∷ []) = hex_digit (b / 16) ∷ hex_digit (b % 16) ∷ []
colon_hex (b ∷ c ∷ bs) = hex_digit (b / 16) ∷ hex_digit (b % 16) ∷ 58 ∷ colon_hex (c ∷ bs)
