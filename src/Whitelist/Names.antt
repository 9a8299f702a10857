-- ===== src/Whitelist/Names.antt =====
-- Which names `domain_whitelist_lookup` finds.
use bismark_passive.Prelude.{
  ℕ, zero, suc, ◌+◌, ◌-◌, ◌<◌, ◌≡◌, ◌⊎◌, inl, inr, refl, sym, ap, ◌∙◌, subst, true, false, ◌&&◌,
  ◌||◌, List, [], ◌∷◌, ◌++◌, ◌==◌, ==_iff, length, take, drop, get_or, same_bytes, same_bytes_sound,
  same_bytes_refl, Bool-cases, ltb, arith, length-append,
}
use bismark_passive.Prelude.Int.{ℤ, pos, negsuc}
use bismark_passive.Whitelist.Entries.{In, LineOf, LineOf-of_token, token-of_LineOf}
use bismark_passive.Whitelist.{dot, matches, lookup_loop, lookup, load, tokens}

-- The name is the entry or a subdomain of it.
pub data Covers : List ℕ → List ℕ → Type 0 where
  itself : (entry : List ℕ) → Covers entry entry
  subdomain : (entry label : List ℕ) → Covers entry (label ++ dot ∷ entry)

drop-append_suc : (xs ys : List ℕ) (y : ℕ) → drop (suc (length xs)) (xs ++ y ∷ ys) ≡ ys
drop-append_suc [] ys y = refl
drop-append_suc (x ∷ xs) ys y = drop-append_suc xs ys y

get_or-append_length : (xs ys : List ℕ) (y : ℕ) → get_or (xs ++ y ∷ ys) (length xs) 0 ≡ y
get_or-append_length [] ys y = refl
get_or-append_length (x ∷ xs) ys y = get_or-append_length xs ys y

-- A list cut behind index `k`.
split_at : (k : ℕ) (xs : List ℕ) → k < length xs → xs ≡ take k xs ++ get_or xs k 0 ∷ drop (suc k) xs
split_at k [] h = absurd (omega arith)
split_at zero (x ∷ xs) h = refl
split_at (suc k) (x ∷ xs) h = ap (λ l. x ∷ l) (split_at k xs (omega arith))

pub matches-Covers : (entry name : List ℕ) → Covers entry name → matches name entry ≡ true
unfolding matches
matches-Covers _ _ (itself entry) =
    let none_left : length entry - length entry ≡ 0 = omega arith in
    let enough : ltb (length entry) (length entry) ≡ false = ground arith in
    rw (enough, none_left, same_bytes_refl entry) refl
matches-Covers _ _ (subdomain entry label) =
    let many : length (label ++ dot ∷ entry) ≡ length label + 1 + length entry =
      omega (arith, length-append label (dot ∷ entry)) in
    let left : length label + 1 + length entry - length entry ≡ suc (length label) = omega arith in
    let enough : ltb (length label + 1 + length entry) (length entry) ≡ false = ground arith in
    let before : suc (length label) - 1 ≡ length label = omega arith in
    rw
      (
        many,
        enough,
        left,
        drop-append_suc label entry dot,
        same_bytes_refl entry,
        before,
        get_or-append_length label entry dot,
      )
      (ground arith)

pub Covers-of_matches : (entry name : List ℕ) → matches name entry ≡ true → Covers entry name
unfolding matches
Covers-of_matches entry name h = elim (Bool-cases (ltb (length name) (length entry))) [
  | inl short ↦ let h' : false ≡ true = rw short at h in cc
  | inr enough ↦
      let o : ℕ = length name - length entry in
      let h' : (same_bytes (drop o name) entry && (o == 0 || get_or name (o - 1) 0 == dot)) ≡ true =
        rw enough at h in
      let same : drop o name ≡ entry = same_bytes_sound (drop o name) entry (ground arith) in
      elim (Bool-cases (o == 0)) [
        | inl whole ↦
            subst (λ n. Covers entry n) (sym same ∙ ap (λ k. drop k name) ((==_iff o 0).0 whole))
              (itself entry)
        | inr part ↦
            let behind : suc (o - 1) ≡ o = ground arith in
            let separated : get_or name (o - 1) 0 ≡ dot = ground arith in
            let cut = split_at (o - 1) name (omega arith) in
            let cut' : name ≡ take (o - 1) name ++ dot ∷ entry =
              rw (separated, behind, same) at cut in
            subst (λ n. Covers entry n) (sym cut') (subdomain entry (take (o - 1) name))
      ]
]

-- The name is allowed by one of the entries.
abbrev pub Allowed : List ℕ → List (List ℕ) → Type 0
Allowed name [] = ⊥
Allowed name (entry ∷ rest) = Covers entry name ⊎ Allowed name rest

abbrev pub Decides : ℤ → Type 0 → Type 0
Decides answer P = ((answer ≡ pos 0) × P) ⊎ ((answer ≡ negsuc 0) × (P → ⊥))

take-all : (xs : List (List ℕ)) → take (length xs) xs ≡ xs
take-all [] = refl
take-all (x ∷ xs) = ap (λ l. x ∷ l) (take-all xs)

lookup_loop-Allowed :
    (name : List ℕ) (entries : List (List ℕ))
    → Decides (lookup_loop name entries) (Allowed name entries)
unfolding lookup_loop
lookup_loop-Allowed name [] = inr (refl, λ a. a)
lookup_loop-Allowed name (entry ∷ rest) = elim (Bool-cases (matches name entry)) [
  | inl found ↦ rw found (inl (refl, inl (Covers-of_matches entry name found)))
  | inr differs ↦ elim (lookup_loop-Allowed name rest) [
    | inl (found, a) ↦ rw differs (inl (found, inr a))
    | inr (missing, none_of_rest) ↦ rw differs (
        inr (
          missing,
          λ a. elim a [
            | inl c ↦ let found = matches-Covers entry name c in cc
            | inr a' ↦ none_of_rest a'
          ],
        ))
  ]
]

Allowed-In :
    (name : List ℕ) (entries : List (List ℕ)) (entry : List ℕ)
    → In entry entries
    → Covers entry name
    → Allowed name entries
Allowed-In name [] entry i c = absurd i
Allowed-In name (e ∷ entries) entry (inl is) c = inl (subst (λ x. Covers x name) is c)
Allowed-In name (e ∷ entries) entry (inr i) c = inr (Allowed-In name entries entry i c)

In-of_Allowed :
    (name : List ℕ) (entries : List (List ℕ))
    → Allowed name entries
    → (entry : List ℕ) × In entry entries × Covers entry name
In-of_Allowed name [] a = absurd a
In-of_Allowed name (e ∷ entries) (inl c) = (e, inl refl, c)
In-of_Allowed name (e ∷ entries) (inr a) =
    let (entry, i, c) = In-of_Allowed name entries a in (entry, inr i, c)

-- In a list loaded from a file, the lookup of a name returns 0 if the name is a line of the file, or
-- ends in a dot and a line of the file, and -1 if it is neither. A line is a part of the contents that
-- is not empty, has no newline in it, and stands between line ends.
pub lookup-load :
    (contents name : List ℕ)
    → Decides
        (lookup (load contents) name)
        ((entry : List ℕ) × LineOf contents entry × Covers entry name)
unfolding lookup load
lookup-load contents name =
    let entries = tokens contents in
    rw (take-all entries) (elim (lookup_loop-Allowed name entries) [
      | inl (found, a) ↦
          let (entry, i, c) = In-of_Allowed name entries a in
          inl (found, (entry, LineOf-of_token contents entry i, c))
      | inr (missing, none_of_them) ↦ inr (
        missing,
        λ s. none_of_them (Allowed-In name entries s.0 (token-of_LineOf contents s.0 s.1) s.2),
      )
    ])
