-- ===== src/HttpParser.antt =====
-- src/http_parser.c, in a build with ENABLE_HTTP_URL: the URL of a request. The packet is memory from
-- `bytes` on; `strtok` also writes zeros between the words, which nothing reads later. `none` is a
-- read behind the memory, or what makes `add_url` fail.
pub mod Requests
mod Tests
use bismark_passive.Prelude.{
  ℕ, zero, suc, ◌+◌, ◌-◌, Bool, false, ◌&&◌, Option, none, some, List, [], ◌∷◌, map, ltb, leb, ◌==◌,
  if◌then◌else◌, length, take, same_bytes,
}
use bismark_passive.Prelude.Int.{ℤ, pos, negsuc}
use bismark_passive.Prelude.Printf.{◌>>=◌}
use bismark_passive.Constants.{max_url}
use bismark_passive.Anonymization.{Hmac, Anonymizer}
use bismark_passive.Http.{HttpTable, add_url}

abbrev pub space : ℕ
space = 32

-- What a call of `strtok` with " " finds: a read behind the memory, no word, or a word and where it
-- goes on.
pub data Token : Type 0 where
  fault no_more : Token
  token : List ℕ → List ℕ → Token

-- A word up to the next space or the final 0.
pub scan : List ℕ → Option (List ℕ × List ℕ)
scan [] = none
scan (c ∷ cs) =
    let rest = scan cs in
    if c == 0
    then some ([], c ∷ cs)
    else if c == space
    then some ([], cs)
    else (rest >>= λ r. some (c ∷ r.0, r.1))

abbrev pub found : Option (List ℕ × List ℕ) → Token
found none = fault
found (some (w, rest)) = token w rest

pub strtok : List ℕ → Token
strtok [] = fault
strtok (c ∷ cs) =
    let later = strtok cs in
    if c == 0 then no_more else if c == space then later else found (scan (c ∷ cs))

-- The word that was found, in front of those of the rest.
abbrev pub with_word :
    Token
    → (List ℕ → Option (ℕ × List (List ℕ)))
    → Option (ℕ × List (List ℕ))
    → Option (ℕ × List (List ℕ))
with_word fault next end = none
with_word no_more next end = end
with_word (token w rest) next end = next rest >>= λ r. some (r.0, w ∷ r.1)

-- The loop of `tokenize`, for so many rounds: what it returns, and the words of `vec`.
pub token_loop : ℕ → ℕ → List ℕ → Option (ℕ × List (List ℕ))
token_loop zero n rest = some (n, [])
token_loop (suc rounds) n rest =
    with_word (strtok rest) (token_loop rounds (n + 1)) (some (n + 1, []))

-- `tokenize`. Behind the last word the next call finds no word again.
pub tokenize : List ℕ → ℕ → Option (ℕ × List (List ℕ))
tokenize buf vecsize = with_word (strtok buf) (token_loop (vecsize - 1) 1) (some (2, []))

abbrev pub lower : ℕ → ℕ
lower c = if leb b'A' c && leb c b'Z' then c + 32 else c

-- `strcasecmp(word, "GET") == 0`
abbrev pub is_get : List ℕ → Bool
is_get word = same_bytes (map lower word) (b'g' ∷ b'e' ∷ b't' ∷ [])

-- The 0 that is written behind 1023 characters of a longer URL.
abbrev pub cut_url : List ℕ → List ℕ
cut_url url = if ltb max_url (length url) then take (max_url - 1) url else url

abbrev pub is_positive : ℤ → Bool
is_positive (pos n) = ltb 0 n
is_positive (negsuc n) = false

module _ (sha1_hmac : Hmac) (a : Anonymizer) where
  -- The words of a request; fewer than two are not there to be read.
  pub request : ℕ → List (List ℕ) → HttpTable → Option (HttpTable × ℤ)
  request flow_id (method ∷ url ∷ rest) t =
      if is_get method
      then (add_url sha1_hmac a t flow_id (cut_url url) >>= λ t'. some (t', pos 0))
      else some (t, negsuc 0)
  request flow_id [] t = none
  request flow_id (method ∷ []) t = none

  -- `process_http_packet`
  pub process_http_packet : List ℕ → ℤ → HttpTable → ℕ → Option (HttpTable × ℤ)
  unfolding tokenize request
  process_http_packet bytes len t flow_id =
      if is_positive len
      then (tokenize bytes 3 >>= λ r.
          if r.0 == 3 then request flow_id r.1 t else some (t, negsuc 0))
      else some (t, negsuc 0)
