-- ===== src/Scanning/Digits.antt =====
-- Two digits are read as a byte.
use bismark_passive.Prelude.{
  ℕ, zero, suc, ◌+◌, ◌*◌, ◌/◌, ◌%◌, ◌<◌, ◌≡◌, refl, ap, ◌∙◌, true, false, none, some, List, [], ◌∷◌,
  ◌++◌, arith, ◌==◌, length,
}
use bismark_passive.Util.{hex_digit}
use bismark_passive.Util.Encoding.{AllBytes}
use bismark_passive.Scanning.{
  is_space, is_hex, hex_value, skip_spaces, hex_run, unsigned_hex, has_prefix, prefixed_hex,
  signed_hex, scan_hex, after_separator, as_byte, field_then, scan_bytes, colon_hex,
}

-- The digits end where the conversion does.
abbrev pub Stops : ℕ → List ℕ → Type 0
Stops width rest = (v : ℕ) → hex_run width v rest ≡ (v, rest)

Stops-at_once : (rest : List ℕ) → Stops 0 rest
unfolding hex_run
Stops-at_once rest v = refl

is_hex-not_space : (c : ℕ) → is_hex c ≡ true → is_space c ≡ false
unfolding is_hex is_space
is_hex-not_space c h = ground arith

is_hex-not_sign : (c : ℕ) → is_hex c ≡ true → ((c == 43) ≡ false) × ((c == 45) ≡ false)
unfolding is_hex
is_hex-not_sign c h = ground arith

not_prefix :
    (width c d : ℕ) (rest : List ℕ)
    → is_hex d ≡ true
    → has_prefix (suc (suc width)) (c ∷ d ∷ rest) ≡ false
unfolding has_prefix is_hex
not_prefix width c d rest h = ground arith

as_byte-small : (v : ℕ) → v < 256 → as_byte false v ≡ v
as_byte-small v h = ground arith

hex_value_bound : (c : ℕ) → is_hex c ≡ true → hex_value c < 16
unfolding is_hex hex_value
hex_value_bound c h = ground arith

pub scan_hex-two :
    (width c d : ℕ) (rest : List ℕ)
    → is_hex c ≡ true
    → is_hex d ≡ true
    → Stops width rest
    → scan_hex (suc (suc width)) (c ∷ d ∷ rest) ≡ some (hex_value c * 16 + hex_value d, rest)
unfolding scan_hex skip_spaces signed_hex prefixed_hex has_prefix unsigned_hex hex_run
scan_hex-two width c d rest hc hd stops =
    let v : ℕ = hex_value c * 16 + hex_value d in
    let spaceless = is_hex-not_space c hc in
    let (plus, minus) = is_hex-not_sign c hc in
    let no_prefix : has_prefix (suc (suc width)) (c ∷ d ∷ rest) ≡ false =
      not_prefix width c d rest hd in
    let small : as_byte false v ≡ v =
      as_byte-small v (omega (arith, hex_value_bound c hc, hex_value_bound d hd)) in
    rw (spaceless, plus, minus, no_prefix, hc, hd, stops v, small) refl

-- The bytes that a text of digits stands for, two for each.
unfoldable pub pair_bytes : List ℕ → List ℕ
unfolding hex_value
pair_bytes [] = []
pair_bytes (c ∷ []) = []
pair_bytes (c ∷ d ∷ cs) = (hex_value c * 16 + hex_value d) ∷ pair_bytes cs

-- Two digits for each of so many bytes.
abbrev pub Digits : ℕ → List ℕ → Type 0
Digits zero cs = cs ≡ []
Digits (suc n) [] = ⊥
Digits (suc n) (c ∷ []) = ⊥
Digits (suc n) (c ∷ d ∷ cs) = (is_hex c ≡ true) × (is_hex d ≡ true) × Digits n cs

-- Without a separator each byte is read from two digits, whatever follows the last.
pub scan_bytes-pair_bytes :
    (n : ℕ) (digits rest : List ℕ)
    → Digits n digits
    → scan_bytes 2 none n (digits ++ rest) ≡ pair_bytes digits
unfolding scan_bytes after_separator field_then pair_bytes
scan_bytes-pair_bytes zero digits rest h = rw h refl
scan_bytes-pair_bytes (suc n) [] rest h = absurd h
scan_bytes-pair_bytes (suc n) (c ∷ []) rest h = absurd h
scan_bytes-pair_bytes (suc n) (c ∷ d ∷ digits) rest (hc, hd, h) =
    rw
      (
        scan_hex-two 0 c d (digits ++ rest) hc hd (Stops-at_once (digits ++ rest)),
        scan_bytes-pair_bytes n digits rest h,
      )
      refl

hex_digit-is_hex : (n : ℕ) → n < 16 → (is_hex (hex_digit n) ≡ true) × (hex_value (hex_digit n) ≡ n)
unfolding is_hex hex_value
hex_digit-is_hex n h = (ground arith, ground arith)

-- A byte that was printed is read back, up to a colon or the end.
scan_hex-printed :
    (width b : ℕ) (rest : List ℕ)
    → b < 256
    → Stops width rest
    → scan_hex (suc (suc width)) (hex_digit (b / 16) ∷ hex_digit (b % 16) ∷ rest) ≡ some (b, rest)
scan_hex-printed width b rest h stops =
    let (high, high_value) = hex_digit-is_hex (b / 16) (omega arith) in
    let (low, low_value) = hex_digit-is_hex (b % 16) (omega arith) in
    let value : hex_value (hex_digit (b / 16)) * 16 + hex_value (hex_digit (b % 16)) ≡ b =
      omega (arith, high_value, low_value) in
    scan_hex-two width (hex_digit (b / 16)) (hex_digit (b % 16)) rest high low stops
    ∙ ap (λ v. some (v, rest)) value

Stops-at_colon : (width : ℕ) (rest : List ℕ) → Stops width (58 ∷ rest)
unfolding hex_run is_hex
Stops-at_colon zero rest v = refl
Stops-at_colon (suc width) rest v = refl

Stops-at_end : (width : ℕ) → Stops width []
unfolding hex_run
Stops-at_end zero v = refl
Stops-at_end (suc width) v = refl

-- Bytes that were printed with colons are read back.
pub scan_bytes-colon_hex :
    (width : ℕ) (bs : List ℕ)
    → AllBytes bs
    → scan_bytes (suc (suc width)) (some 58) (length bs) (colon_hex bs) ≡ bs
unfolding scan_bytes after_separator field_then colon_hex
scan_bytes-colon_hex width [] h = refl
scan_bytes-colon_hex width (b ∷ []) (hb, _) =
    rw (scan_hex-printed width b [] hb (Stops-at_end width)) refl
scan_bytes-colon_hex width (b ∷ c ∷ bs) (hb, h) =
    rw
      (
        scan_hex-printed width b (58 ∷ colon_hex (c ∷ bs)) hb
            (Stops-at_colon width (colon_hex (c ∷ bs))),
        scan_bytes-colon_hex width (c ∷ bs) h,
      )
      refl
