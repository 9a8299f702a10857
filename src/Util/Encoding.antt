-- ===== src/Util/Encoding.antt =====
-- `buffer_to_hex` at every length.
use bismark_passive.Prelude.{
  ℕ, ◌+◌, ◌*◌, ◌/◌, ◌%◌, ◌≤◌, ◌<◌, ◌≡◌, refl, sym, ◌∙◌, ◌-◌, true, none, some, List, [], ◌∷◌, arith,
  ltb, if◌then◌else◌, length,
}
use bismark_passive.Util.{
  hex_loop, buffer_to_hex, hex_digit, null, overrun, text, output_buffer_size,
}

-- Two digits for each byte.
pub hex_digits : List ℕ → List ℕ
hex_digits [] = []
hex_digits (b ∷ bs) = hex_digit (b / 16) ∷ hex_digit (b % 16) ∷ hex_digits bs

hex_loop_fits :
    (at : ℕ) (bs : List ℕ)
    → at + 2 * length bs < output_buffer_size
    → hex_loop at bs ≡ some (hex_digits bs)
unfolding hex_loop hex_digits
hex_loop_fits at [] h = ground arith
hex_loop_fits at (b ∷ bs) h = ground (arith, hex_loop_fits (at + 2) bs)

hex_loop_overruns :
    (at : ℕ) (bs : List ℕ) → output_buffer_size ≤ at + 2 * length bs → hex_loop at bs ≡ none
unfolding hex_loop
hex_loop_overruns at [] h = ground arith
hex_loop_overruns at (b ∷ bs) h = ground (arith, hex_loop_overruns (at + 2) bs)

-- Up to 511 bytes the result is two digits for each byte; from 512 to 1023 bytes the function
-- passes its own test of the length and writes behind its buffer; longer input gives NULL.
pub buffer_to_hex_lem :
    (bs : List ℕ)
    → buffer_to_hex bs ≡ (
        if ltb (length bs) 512
        then text (hex_digits bs)
        else if ltb (length bs) 1024
        then overrun
        else null)
unfolding buffer_to_hex
buffer_to_hex_lem bs = ground (arith, hex_loop_fits 0 bs, hex_loop_overruns 0 bs)

-- The case that the callers are in.
pub buffer_to_hex-hex_digits :
    (bs : List ℕ) → length bs ≤ 511 → buffer_to_hex bs ≡ text (hex_digits bs)
buffer_to_hex-hex_digits bs h =
    let short : ltb (length bs) 512 ≡ true = ground arith in buffer_to_hex_lem bs ∙ rw short

-- The value of a digit, and the bytes that digits stand for.
pub digit_value : ℕ → ℕ
digit_value c = if ltb c 58 then c - 48 else c - 87

pub bytes_of_hex : List ℕ → List ℕ
bytes_of_hex [] = []
bytes_of_hex (c ∷ []) = []
bytes_of_hex (c ∷ d ∷ cs) = (16 * digit_value c + digit_value d) ∷ bytes_of_hex cs

abbrev pub AllBytes : List ℕ → Type 0
AllBytes [] = Unit {0}
AllBytes (b ∷ bs) = (b < 256) × AllBytes bs

digit_value-hex_digit : (n : ℕ) → n < 16 → digit_value (hex_digit n) ≡ n
unfolding digit_value
digit_value-hex_digit n h = ground arith

decode : (bs : List ℕ) → AllBytes bs → bytes_of_hex (hex_digits bs) ≡ bs
unfolding bytes_of_hex hex_digits
decode [] all = refl
decode (b ∷ bs) all =
    ground (arith, digit_value-hex_digit (b / 16), digit_value-hex_digit (b % 16), decode bs all.1)

-- The text of a buffer of at most 511 bytes determines the buffer.
pub bytes_of_hex-buffer_to_hex :
    (bs s : List ℕ)
    → AllBytes bs
    → length bs ≤ 511
    → buffer_to_hex bs ≡ text s
    → bytes_of_hex s ≡ bs
bytes_of_hex-buffer_to_hex bs s all fits e =
    let same : text (hex_digits bs) ≡ text s = sym (buffer_to_hex-hex_digits bs fits) ∙ e in
    let same' : hex_digits bs ≡ s = cc in rw (← same') (decode bs all)
