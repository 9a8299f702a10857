-- ===== src/Anonymization/Laws.antt =====
-- What the digests keep and what they hide. The digest's length is a fact of `sha1_hmac`.
use bismark_passive.Prelude.{
  ℕ, zero, suc, ◌≡◌, refl, ap, ◌∙◌, true, none, some, Option, Bool-cases, inl, inr, ltb, List, [],
  ◌∷◌, ◌++◌, arith, length, take, drop, length-take, length-drop, length-append, take-append,
  drop-append,
}
use mathlib.Core.List.{append-nil}
use bismark_passive.Prelude.All.{OnSuccess, after}
use bismark_passive.Util.{buffer_to_hex}
use bismark_passive.Anonymization.{
  anonymization_seed_len, init_hex_seed_digest, anonymization_init, anonymization_process,
  hex_string, Hmac, Anonymizer, anonymization_digest_length, eth_alen, anonymize_mac,
}

take-eq_length {ℓ} : {A : Type ℓ} (xs : List A) (n : ℕ) → n ≡ length xs → take n xs ≡ xs
take-eq_length [] zero e = refl
take-eq_length [] (suc n) e = absurd (omega arith)
take-eq_length (x ∷ xs) zero e = absurd (omega arith)
take-eq_length (x ∷ xs) (suc n) e = ap (λ l. x ∷ l) (take-eq_length xs n (omega arith))

module _ (sha1_hmac : Hmac)
    (long : (key bytes : List ℕ) → length (sha1_hmac key bytes) ≡ anonymization_digest_length) where
  -- After initialization every hardware address of 6 bytes has a digest of 6 bytes, made of the first
  -- 3 bytes of the address (the manufacturer) and bytes 3 to 5 of the keyed hash of all of it.
  pub anonymize_mac_lem :
      (a : Anonymizer) (mac : List ℕ)
      → a.initialized ≡ true
      → length mac ≡ eth_alen
      → (d : List ℕ) × (anonymize_mac sha1_hmac a mac ≡ some d)
        × (length d ≡ eth_alen)
        × (take 3 d ≡ take 3 mac)
        × (drop 3 d ≡ take 3 (drop 3 (sha1_hmac a.seed mac)))
  unfolding anonymize_mac
  anonymize_mac_lem a mac init six =
      let h = sha1_hmac a.seed mac in
      let three : length (take 3 mac) ≡ 3 = length-take 3 mac (omega arith) in
      let tail : length (take 3 (drop 3 h)) ≡ 3 =
        length-take 3 (drop 3 h) (omega (arith, length-drop 3 h, long a.seed mac)) in
      let split : take eth_alen (take 3 mac ++ drop 3 h) ≡ take 3 mac ++ take 3 (drop 3 h) =
        take-append (take 3 mac) (drop 3 h) eth_alen 3 (omega arith) in
      (
        take 3 mac ++ take 3 (drop 3 h),
        rw (init, split),
        omega (arith, length-append (take 3 mac) (take 3 (drop 3 h))),
        take-append (take 3 mac) (take 3 (drop 3 h)) 3 0 (omega arith) ∙ append_nil_take,
        drop-append (take 3 mac) (take 3 (drop 3 h)) 3 (omega arith),
      )
    where
      append_nil_take : take 3 mac ++ [] ≡ take 3 mac
      append_nil_take = append-nil (take 3 mac)

-- Once initialization has succeeded, the digests are set up.
pub anonymization_init-initialized :
    (sha1_hmac : Hmac) (a : Anonymizer) (file : Option (List ℕ))
    → OnSuccess (λ a. a.initialized ≡ true) (anonymization_init sha1_hmac a file)
unfolding anonymization_init init_hex_seed_digest
anonymization_init-initialized sha1_hmac a none = tt
anonymization_init-initialized sha1_hmac a (some contents) =
    elim (Bool-cases (ltb (length contents) anonymization_seed_len)) [
      | inl short ↦ rw short tt
      | inr enough ↦
          let a' = record a { seed = take anonymization_seed_len contents; initialized = true } in
          let Set : Anonymizer → Type 0 = λ a. a.initialized ≡ true in
          rw enough (
            after Set (anonymization_process sha1_hmac a' a'.seed) _ λ digest.
              after Set (hex_string sha1_hmac (buffer_to_hex digest))
                (λ s. some (record a' { seed_hex_digest = s })) λ s. refl)
    ]
