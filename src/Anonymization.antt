-- ===== src/Anonymization.antt =====
-- src/anonymization.c: digests of addresses and names under a secret seed. `sha1_hmac` stands for
-- the function of that name of the PolarSSL copy (key, then data), a parameter.
pub mod Laws
use bismark_passive.Prelude.{
  ℕ, Bool, true, false, Option, none, some, List, [], ◌∷◌, ◌++◌, if◌then◌else◌, take, drop, length,
  ltb,
}
use bismark_passive.Prelude.Printf.{◌>>=◌, Call, Printf, str}
use bismark_passive.Platform.{Platform}
use bismark_passive.Util.{Hex, null, overrun, text, buffer_to_hex}

abbrev pub anonymization_seed_len : ℕ
anonymization_seed_len = 16

abbrev pub anonymization_digest_length : ℕ
anonymization_digest_length = 20

abbrev pub eth_alen : ℕ
eth_alen = 6

abbrev pub Hmac : Type 0
Hmac = List ℕ → List ℕ → List ℕ

-- The static variables of the file.
pub record Anonymizer : Type 0 where
  pub seed : List ℕ
  pub seed_hex_digest : List ℕ
  pub initialized : Bool

module _ (sha1_hmac : Hmac) where
  -- `none` is the failure of `assert(initialized)`.
  unfoldable pub anonymization_process : Anonymizer → List ℕ → Option (List ℕ)
  anonymization_process a bytes = if a.initialized then some (sha1_hmac a.seed bytes) else none

  abbrev pub hex_string : Hex → Option (List ℕ)
  hex_string (text s) = some s
  hex_string _ = none

  -- `none` for the return of -1.
  unfoldable pub init_hex_seed_digest : Anonymizer → Option Anonymizer
  unfolding anonymization_process
  init_hex_seed_digest a = do
    digest ← anonymization_process a a.seed
    s ← hex_string (buffer_to_hex digest)
    some (record a { seed_hex_digest = s })

  -- The argument is what the seed file holds, or `none` if it cannot be opened.
  unfoldable pub anonymization_init : Anonymizer → Option (List ℕ) → Option Anonymizer
  unfolding init_hex_seed_digest
  anonymization_init a none = none
  anonymization_init a (some contents) =
      if ltb (length contents) anonymization_seed_len
      then none
      else init_hex_seed_digest
          (record a { seed = take anonymization_seed_len contents; initialized = true })

  unfoldable pub anonymize_ip : Platform → Anonymizer → ℕ → Option ℕ
  unfolding anonymization_process
  anonymize_ip p a address = do
    digest ← anonymization_process a (p.bytes32 address)
    some (p.word64 (take 8 digest))

  -- The characters of a name, without its final 0.
  unfoldable pub anonymize_domain : Anonymizer → List ℕ → Option (List ℕ)
  unfolding anonymization_process
  anonymize_domain a domain = anonymization_process a domain

  pub anonymize_url : Anonymizer → List ℕ → Option (List ℕ)
  unfolding anonymization_process
  anonymize_url a url = anonymization_process a url

  -- The first half of the digest is overwritten by the first half of the address.
  unfoldable pub anonymize_mac : Anonymizer → List ℕ → Option (List ℕ)
  unfolding anonymization_process
  anonymize_mac a mac = do
    mac_digest ← anonymization_process a mac
    some (take eth_alen (take 3 mac ++ drop 3 mac_digest))

unfoldable pub anonymization_write_update : {H : Type 0} → Printf H → Anonymizer → H → Option H
anonymization_write_update gzprintf a handle =
    gzprintf handle (record { format = "%s\n\n"; args = str a.seed_hex_digest ∷ [] })
