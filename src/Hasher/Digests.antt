-- ===== src/Hasher/Digests.antt =====
-- What the hasher prints for an address, and for anything else.
use mathlib.Core.List.{append-nil}
use bismark_passive.Prelude.{
  ℕ, zero, suc, ◌≤◌, ◌≡◌, refl, none, some, Option, List, [], ◌∷◌, ◌++◌, arith, length, drop,
}
use bismark_passive.Util.Encoding.{AllBytes}
use bismark_passive.Anonymization.{Hmac, Anonymizer, anonymization_init, anonymize_mac}
use bismark_passive.Scanning.{scan_hex, scan_bytes, colon_hex, field_then}
use bismark_passive.Scanning.Digits.{scan_bytes-colon_hex}
use bismark_passive.Hasher.{read_address, print_digest, hash_argument, main}

two_at_least : (n : ℕ) → 2 ≤ n → (m : ℕ) × (n ≡ suc (suc m))
two_at_least zero h = absurd (omega arith)
two_at_least (suc zero) h = absurd (omega arith)
two_at_least (suc (suc m)) h = (m, refl)

printed_length : (bs : List ℕ) → length bs ≡ 6 → 2 ≤ length (colon_hex bs)
unfolding colon_hex
printed_length [] h = absurd (omega arith)
printed_length (b ∷ []) h = absurd (omega arith)
printed_length (b ∷ c ∷ bs) h = omega arith

drop_all : (xs : List ℕ) (n : ℕ) → length xs ≤ n → drop n xs ≡ []
drop_all [] zero h = refl
drop_all [] (suc n) h = refl
drop_all (x ∷ xs) zero h = absurd (omega arith)
drop_all (x ∷ xs) (suc n) h = drop_all xs n (omega arith)

read_address-colon_hex :
    (mac old : List ℕ)
    → AllBytes mac
    → length mac ≡ 6
    → length old ≡ 6
    → read_address old (colon_hex mac) ≡ mac
unfolding read_address
read_address-colon_hex mac old all six size =
    let (m, wide) = two_at_least (length (colon_hex mac)) (printed_length mac six) in
    let scanned : scan_bytes (length (colon_hex mac)) (some 58) 6 (colon_hex mac) ≡ mac =
      rw (wide, ← six) (scan_bytes-colon_hex m mac all) in
    rw (scanned, drop_all old (length mac) (omega arith)) (append-nil mac)

module _ (sha1_hmac : Hmac) (static a : Anonymizer) (seed_file : Option (List ℕ))
    (mac_array digest_array : List ℕ) (more : List (List ℕ))
    (set_up : anonymization_init sha1_hmac static seed_file ≡ some a) where
  -- For an address written as the program writes digests, the program prints the digest that
  -- `anonymize_mac` gives for it under the same seed, as in the updates of the daemon.
  pub main-colon_hex :
      (mac digest : List ℕ)
      → AllBytes mac
      → length mac ≡ 6
      → length mac_array ≡ 6
      → anonymize_mac sha1_hmac a mac ≡ some digest
      → main sha1_hmac static seed_file mac_array digest_array (colon_hex mac ∷ more)
        ≡ (0, colon_hex digest ++ 10 ∷ [])
  unfolding main hash_argument print_digest
  main-colon_hex mac digest all six size e =
      rw (set_up, read_address-colon_hex mac mac_array all six size, e) refl

  -- For an argument that does not begin with a hexadecimal number, the program succeeds and prints the
  -- digest of what happened to stand in its memory.
  pub main-no_address :
      (text digest : List ℕ)
      → scan_hex (length text) text ≡ none
      → anonymize_mac sha1_hmac a mac_array ≡ some digest
      → main sha1_hmac static seed_file mac_array digest_array (text ∷ more)
        ≡ (0, colon_hex digest ++ 10 ∷ [])
  unfolding main hash_argument print_digest read_address scan_bytes field_then
  main-no_address text digest unread e = rw (set_up, unread, e) refl
