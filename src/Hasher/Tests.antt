-- ===== src/Hasher/Tests.antt =====
-- The hasher on an address, and on a word.
use bismark_passive.Prelude.{
  ℕ, ◌≡◌, refl, none, some, List, [], ◌∷◌, ◌++◌, arith, length, replicate,
}
use bismark_passive.Samples.{hmac}
use bismark_passive.Util.{buffer_to_hex, hex_loop}
use bismark_passive.Anonymization.{
  anonymization_init, init_hex_seed_digest, anonymization_process, anonymize_mac,
}
use bismark_passive.Scanning.{scan_hex, colon_hex}
use bismark_passive.Main.Start.{static_anonymizer}
use bismark_passive.Main.Runs.Samples.{seeded}
use bismark_passive.Hasher.{main}
use bismark_passive.Hasher.Digests.{main-colon_hex, main-no_address}

set_up : anonymization_init hmac static_anonymizer (some (replicate 16 1)) ≡ some seeded
unfolding anonymization_init init_hex_seed_digest anonymization_process buffer_to_hex hex_loop
    replicate
set_up = refl

abbrev mac : List ℕ
mac = 40 ∷ 198 ∷ 142 ∷ 171 ∷ 205 ∷ 239 ∷ []

-- What is on the stack.
abbrev garbage : List ℕ
garbage = 9 ∷ 8 ∷ 7 ∷ 6 ∷ 5 ∷ 4 ∷ []

abbrev digest : List ℕ
digest = 40 ∷ 198 ∷ 142 ∷ 7 ∷ 7 ∷ 7 ∷ []

digest_of_mac : anonymize_mac hmac seeded mac ≡ some digest
unfolding anonymize_mac anonymization_process replicate
digest_of_mac = refl

address_hashed :
    main hmac static_anonymizer (some (replicate 16 1)) garbage [] (colon_hex mac ∷ [])
    ≡ (0, colon_hex digest ++ 10 ∷ [])
address_hashed =
    main-colon_hex hmac static_anonymizer seeded (some (replicate 16 1)) garbage [] [] set_up mac
      digest (omega arith) refl refl digest_of_mac

-- "host" is no number.
abbrev host : List ℕ
host = 104 ∷ 111 ∷ 115 ∷ 116 ∷ []

not_scanned : scan_hex (length host) host ≡ none
unfolding scan_hex
not_scanned = refl

digest_of_garbage : anonymize_mac hmac seeded garbage ≡ some (9 ∷ 8 ∷ 7 ∷ 7 ∷ 7 ∷ 7 ∷ [])
unfolding anonymize_mac anonymization_process replicate
digest_of_garbage = refl

no_address :
    main hmac static_anonymizer (some (replicate 16 1)) garbage [] (host ∷ [])
    ≡ (0, colon_hex (9 ∷ 8 ∷ 7 ∷ 7 ∷ 7 ∷ 7 ∷ []) ++ 10 ∷ [])
no_address =
    main-no_address hmac static_anonymizer seeded (some (replicate 16 1)) garbage [] [] set_up host
      (9 ∷ 8 ∷ 7 ∷ 7 ∷ 7 ∷ 7 ∷ []) not_scanned digest_of_garbage
