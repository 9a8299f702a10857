-- ===== src/Util.antt =====
-- src/util.c: hexadecimal text in a static buffer of 1024 characters, and the private IPv4 ranges.
pub mod Encoding
pub mod Ranges
use Prim.Native.Nat.{bit_and}
use bismark_passive.Prelude.{
  ℕ, ◌+◌, ◌-◌, ◌/◌, ◌%◌, Bool, ◌||◌, Option, none, some, List, [], ◌∷◌, ltb, ◌==◌, if◌then◌else◌,
  length,
}
use bismark_passive.Prelude.Printf.{◌>>=◌}

abbrev pub output_buffer_size : ℕ
output_buffer_size = 1024

-- What `buffer_to_hex` does: return NULL, write behind the end of its buffer, or return a string.
pub data Hex : Type 0 where
  null overrun : Hex
  text : List ℕ → Hex

abbrev pub hex_digit : ℕ → ℕ
hex_digit n = if ltb n 10 then 48 + n else 87 + n

-- The loop from one position of the buffer on, and the final 0; `none` is a write behind the end.
-- Each `sprintf` writes two digits and a 0.
unfoldable pub hex_loop : ℕ → List ℕ → Option (List ℕ)
hex_loop at [] = if ltb at output_buffer_size then some [] else none
hex_loop at (b ∷ bs) =
    let rest = hex_loop (at + 2) bs in
    if ltb (at + 2) output_buffer_size
    then (rest >>= λ s. some (hex_digit (b / 16) ∷ hex_digit (b % 16) ∷ s))
    else none

abbrev pub hex_result : Option (List ℕ) → Hex
hex_result none = overrun
hex_result (some s) = text s

unfoldable pub buffer_to_hex : List ℕ → Hex
unfolding hex_loop
buffer_to_hex buffer =
    if ltb (output_buffer_size - 1) (length buffer) then null else hex_result (hex_loop 0 buffer)

pub is_address_private : ℕ → Bool
is_address_private address =
    bit_and address 0xff00_0000 == 0x0a00_0000
    || bit_and address 0xfff0_0000 == 0xac10_0000
    || bit_and address 0xffff_0000 == 0xc0a8_0000
