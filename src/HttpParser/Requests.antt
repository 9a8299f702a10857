-- ===== src/HttpParser/Requests.antt =====
-- Which requests are recorded, and which packets are read too far.
use bismark_passive.Prelude.{
  ℕ, ◌≡◌, ◌⊎◌, ◌≤◌, ◌-◌, ◌∙◌, map, length, take, ltb, same_bytes_refl, same_bytes_sound, Bool-cases,
  inl, inr, arith, refl, true, false, none, some, List, [], ◌∷◌, ◌++◌, ◌==◌, if◌then◌else◌,
}
use bismark_passive.Prelude.Int.{ℤ, pos, negsuc}
use bismark_passive.Prelude.Printf.{◌>>=◌}
use bismark_passive.Anonymization.{Hmac, Anonymizer}
use bismark_passive.Http.{HttpTable, add_url}
use bismark_passive.HttpParser.{
  space, fault, token, scan, strtok, token_loop, tokenize, lower, is_get, request, is_positive,
  process_http_packet,
}

-- Characters other than a space and 0.
abbrev pub Plain : List ℕ → Type 0
Plain [] = Unit {0}
Plain (c ∷ cs) = ((c == 0) ≡ false) × ((c == space) ≡ false) × Plain cs

abbrev pub Word : List ℕ → Type 0
Word [] = ⊥
Word (c ∷ cs) = Plain (c ∷ cs)

scan-space : (w rest : List ℕ) → Plain w → scan (w ++ space ∷ rest) ≡ some (w, rest)
unfolding scan
scan-space [] rest h = refl
scan-space (c ∷ w) rest (nonzero, nonspace, h) = rw (nonzero, nonspace, scan-space w rest h) refl

scan_end : (w : List ℕ) → Plain w → scan w ≡ none
unfolding scan
scan_end [] h = refl
scan_end (c ∷ w) (nonzero, nonspace, h) = rw (nonzero, nonspace, scan_end w h) refl

strtok-space : (w rest : List ℕ) → Word w → strtok (w ++ space ∷ rest) ≡ token w rest
unfolding strtok
strtok-space [] rest h = absurd h
strtok-space (c ∷ w) rest h = rw (h.0, h.1, scan-space (c ∷ w) rest h) refl

strtok_end : (w : List ℕ) → Word w → strtok w ≡ fault
unfolding strtok
strtok_end [] h = absurd h
strtok_end (c ∷ w) h = rw (h.0, h.1, scan_end (c ∷ w) h) refl

-- The three letters of GET, each in upper or lower case.
pub data IsGet : List ℕ → Type 0 where
  get :
      {g e t : ℕ}
      → (g ≡ b'G') ⊎ (g ≡ b'g')
      → (e ≡ b'E') ⊎ (e ≡ b'e')
      → (t ≡ b'T') ⊎ (t ≡ b't')
      → IsGet (g ∷ e ∷ t ∷ [])

of_lower :
    (letter c : ℕ)
    → b'a' ≤ letter
    → letter ≤ b'z'
    → lower c ≡ letter
    → (c ≡ letter - 32) ⊎ (c ≡ letter)
of_lower letter c h h' e = ground arith

lower_of :
    (letter c : ℕ)
    → b'a' ≤ letter
    → letter ≤ b'z'
    → (c ≡ letter - 32) ⊎ (c ≡ letter)
    → lower c ≡ letter
lower_of letter c h h' (inl e) = ground arith
lower_of letter c h h' (inr e) = ground arith

IsGet-of_lower : (word : List ℕ) → map lower word ≡ b'g' ∷ b'e' ∷ b't' ∷ [] → IsGet word
IsGet-of_lower [] e = cc
IsGet-of_lower (c ∷ []) e = cc
IsGet-of_lower (c ∷ c' ∷ []) e = cc
IsGet-of_lower (c ∷ c' ∷ c'' ∷ []) e =
    get (of_lower b'g' c (omega arith) (omega arith) cc)
      (of_lower b'e' c' (omega arith) (omega arith) cc)
      (of_lower b't' c'' (omega arith) (omega arith) cc)
IsGet-of_lower (c ∷ c' ∷ c'' ∷ d ∷ word) e = cc

is_get-IsGet : (word : List ℕ) → IsGet word → is_get word ≡ true
is_get-IsGet _ (get g e t) =
    let g' = lower_of b'g' _ (omega arith) (omega arith) g in
    let e' = lower_of b'e' _ (omega arith) (omega arith) e in
    let t' = lower_of b't' _ (omega arith) (omega arith) t in
    rw (g', e', t') (same_bytes_refl (b'g' ∷ b'e' ∷ b't' ∷ []))

module _ (sha1_hmac : Hmac) (a : Anonymizer) (t : HttpTable) (flow_id : ℕ) (len : ℤ)
    (method url version : List ℕ) (m : Word method) (u : Word url) (v : Word version)
    (some_bytes : is_positive len ≡ true) where
  words_request :
      (rest : List ℕ)
      → process_http_packet sha1_hmac a
          (method ++ space ∷ (url ++ space ∷ (version ++ space ∷ rest)))
          len
          t
          flow_id
        ≡ request sha1_hmac a flow_id (method ∷ url ∷ version ∷ []) t
  unfolding process_http_packet tokenize token_loop
  words_request rest =
      rw
        (
          some_bytes,
          strtok-space method (url ++ space ∷ (version ++ space ∷ rest)) m,
          strtok-space url (version ++ space ∷ rest) u,
          strtok-space version rest v,
        )
        refl

  -- Of a packet with data, which begins with three words of characters other than a space and 0,
  -- each with a space behind it, the second is given to `add_url`, its first 1023 characters if it
  -- has more than 1024, if the first word is GET in any case of its letters; then the result is 0,
  -- unless `add_url` goes wrong. For any other first word it is -1, and the table stays as it was.
  pub process_http_packet_lem :
      (rest : List ℕ)
      → let result =
          process_http_packet sha1_hmac a
            (method ++ space ∷ (url ++ space ∷ (version ++ space ∷ rest)))
            len
            t
            flow_id in
        (IsGet method
          × (result ≡ (
              add_url sha1_hmac a t flow_id (if ltb 1024 (length url) then take 1023 url else url)
              >>= λ t'. some (t', pos 0))))
        ⊎ ((IsGet method → ⊥) × (result ≡ some (t, negsuc 0)))
  unfolding request
  process_http_packet_lem rest = elim (Bool-cases (is_get method)) [
    | inl is ↦ inl (
      IsGet-of_lower method (same_bytes_sound (map lower method) _ is),
      words_request rest ∙ rw is refl,
    )
    | inr other ↦
        inr (λ h. let is = is_get-IsGet method h in cc, words_request rest ∙ rw other refl)
  ]

  -- If the packet ends with the third word, the search for its end runs on behind the packet.
  process_http_packet-fault :
      process_http_packet sha1_hmac a (method ++ space ∷ (url ++ space ∷ version)) len t flow_id
      ≡ none
  unfolding process_http_packet tokenize token_loop
  process_http_packet-fault =
      rw
        (
          some_bytes,
          strtok-space method (url ++ space ∷ version) m,
          strtok-space url version u,
          strtok_end version v,
        )
        refl
