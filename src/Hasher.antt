-- ===== src/Hasher.antt =====
-- src/hasher.c: a program that prints the digest of the MAC address in its argument.
pub mod Digests
mod Tests
use bismark_passive.Prelude.{ℕ, ◌++◌, Option, none, some, List, [], ◌∷◌, length, replicate}
use bismark_passive.Anonymization.{Hmac, Anonymizer, anonymization_init, anonymize_mac}
use bismark_passive.Scanning.{scan_bytes, overwrite, colon_hex}

-- The six conversions `%hhx` with a colon between them, without a limit of their width. What `sscanf`
-- returns is not looked at: the bytes that it does not store are what stood in the array.
pub read_address : List ℕ → List ℕ → List ℕ
read_address uninitialized text =
    overwrite (scan_bytes (length text) (some 58) 6 text) uninitialized

or_unchanged : List ℕ → Option (List ℕ) → List ℕ
or_unchanged digest none = digest
or_unchanged digest (some d) = d

module _ (sha1_hmac : Hmac) where
  pub print_digest : Anonymizer → List ℕ → List ℕ → List ℕ
  unfolding or_unchanged
  print_digest a uninitialized mac =
      colon_hex (or_unchanged uninitialized (anonymize_mac sha1_hmac a mac)) ++ 10 ∷ []

  pub hash_argument : Option Anonymizer → List ℕ → List ℕ → List ℕ → ℕ × List ℕ
  unfolding print_digest
  hash_argument none mac digest text = (1, [])
  hash_argument (some a) mac digest text = (0, print_digest a digest (read_address mac text))

  -- `main`, on the state of the anonymizer, the seed file, the two arrays as they stand on the stack
  -- and the arguments, with its status and what it prints to the standard output.
  pub main : Anonymizer → Option (List ℕ) → List ℕ → List ℕ → List (List ℕ) → ℕ × List ℕ
  unfolding hash_argument read_address
  main static seed_file mac digest [] = (1, [])
  main static seed_file mac digest (text ∷ more) =
      hash_argument (anonymization_init sha1_hmac static seed_file) mac digest text
