-- ===== src/Main/Identity/Address.antt =====
-- The address that an ID contains.
use mathlib.Core.List.{append-nil}
use bismark_passive.Prelude.{
  ℕ, zero, suc, ◌+◌, ◌-◌, ◌≡◌, refl, sym, ap, ◌∙◌, none, some, List, [], ◌∷◌, ◌++◌, arith, length,
  replicate, Bool-cases, inl, inr, if◌then◌else◌,
}
use bismark_passive.Prelude.All.{All}
use bismark_passive.Scanning.{up_to_zero, scan_bytes, overwrite, word, skip_spaces}
use bismark_passive.Scanning.Digits.{Digits, pair_bytes, scan_bytes-pair_bytes}
use bismark_passive.Scanning.Words.{
  White, Visible, skip_spaces-append, word-append, up_to_zero-append, Digits-Visible,
}
use bismark_passive.Main.{Build}
use bismark_passive.Main.Identity.{bismark_mac_of, identity_of, initialize_bismark_id}

length-Digits : (n : ℕ) (digits : List ℕ) → Digits n digits → length digits ≡ n + n
length-Digits zero digits h = ap length h
length-Digits (suc n) [] h = absurd h
length-Digits (suc n) (c ∷ []) h = absurd h
length-Digits (suc n) (c ∷ d ∷ digits) (hc, hd, h) = omega (arith, length-Digits n digits h)

length-pair_bytes : (n : ℕ) (digits : List ℕ) → Digits n digits → length (pair_bytes digits) ≡ n
unfolding pair_bytes
length-pair_bytes zero digits h = rw h refl
length-pair_bytes (suc n) [] h = absurd h
length-pair_bytes (suc n) (c ∷ []) h = absurd h
length-pair_bytes (suc n) (c ∷ d ∷ digits) (hc, hd, h) = ap suc (length-pair_bytes n digits h)

module _ (digits : List ℕ) (h : Digits 6 digits) where
  stored : overwrite (pair_bytes digits) (replicate 6 0) ≡ pair_bytes digits
  unfolding replicate
  stored = rw (length-pair_bytes 6 digits h) (append-nil (pair_bytes digits))

  scanned :
      (zeros : List ℕ) → scan_bytes 2 none 6 (up_to_zero (digits ++ 0 ∷ zeros)) ≡ pair_bytes digits
  scanned zeros =
      ap (scan_bytes 2 none 6)
        (up_to_zero-append digits zeros (Digits-Visible 6 digits h) ∙ sym (append-nil digits))
      ∙ scan_bytes-pair_bytes 6 digits [] h

  module _ (p q : ℕ) (prefix : All Visible (p ∷ q ∷ [])) where
    identity_of-digits :
        (build : Build)
        → identity_of build (p ∷ q ∷ digits)
          ≡ some (record {
            bismark_id = p ∷ q ∷ digits;
            bismark_mac = if build.frequent_updates then pair_bytes digits else replicate 6 0;
          })
    unfolding identity_of bismark_mac_of
    identity_of-digits build =
        let zeros : List ℕ = replicate (14 - suc (suc (length digits))) 0 in
        let whole : up_to_zero (p ∷ q ∷ (digits ++ 0 ∷ zeros)) ≡ p ∷ q ∷ digits =
          up_to_zero-append (p ∷ q ∷ digits) zeros
            (prefix.0, (prefix.1.0, Digits-Visible 6 digits h)) in
        elim (Bool-cases build.frequent_updates) [
          | inl on ↦
              rw (on, whole, scanned zeros)
                (ap (λ m. some (record { bismark_id = p ∷ q ∷ digits; bismark_mac = m })) stored)
          | inr off ↦ rw (off, whole) refl
        ]

    -- An ID of two characters, which are neither 0 nor white space, and twelve hexadecimal digits
    -- of either case, behind white space if any and with anything behind it in the file, is kept
    -- whole, in every build. In one with frequent updates the address of the router is that of the
    -- digits; in one without, its six bytes are 0.
    pub initialize_bismark_id_lem :
        (build : Build) (spaces rest : List ℕ)
        → All White spaces
        → initialize_bismark_id build (some (spaces ++ p ∷ (q ∷ digits ++ rest)))
          ≡ some (record {
            bismark_id = p ∷ q ∷ digits;
            bismark_mac = if build.frequent_updates then pair_bytes digits else replicate 6 0;
          })
    unfolding initialize_bismark_id
    initialize_bismark_id_lem build spaces rest white =
        let taken : word 14 (skip_spaces (spaces ++ p ∷ (q ∷ digits ++ rest))) ≡ p ∷ q ∷ digits =
          ap (word 14) (skip_spaces-append spaces p (q ∷ digits ++ rest) white prefix.0)
          ∙ word-append (p ∷ q ∷ digits) rest 14 (omega (arith, length-Digits 6 digits h))
              (prefix.0, (prefix.1.0, Digits-Visible 6 digits h)) in
        ap (identity_of build) taken ∙ identity_of-digits build
