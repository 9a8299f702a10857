-- ===== src/Http.antt =====
-- src/http_table.h, src/http_table.c and `add_url` of src/http_parser.c: the requested URLs, in a build
-- with ENABLE_HTTP_URL. The `int` counter of dropped URLs is a number without bounds; `strdup` has
-- memory.
pub mod Digests
use bismark_passive.Prelude.{
  ℕ, ◌+◌, Option, none, some, List, [], ◌∷◌, if◌then◌else◌, leb, ◌==◌, set, take, length,
}
use bismark_passive.Prelude.Int.{ℤ, pos, negsuc}
use bismark_passive.Prelude.Printf.{◌>>=◌, blank_line, Call, Printf, int, uint, str}
use bismark_passive.Constants.{http_table_url_entries}
use bismark_passive.Util.{Hex, null, overrun, text, buffer_to_hex}
use bismark_passive.Anonymization.{Hmac, Anonymizer, anonymize_url, anonymization_digest_length}

-- `http_url_entry`, with the bytes that `url` points to, their final 0 included
pub record UrlEntry : Type 0 where
  pub flow_id : ℕ
  pub url : List ℕ

-- `http_table_t`
pub record HttpTable : Type 0 where
  pub entries : List UrlEntry
  pub length : ℕ
  pub num_dropped_url_entries : ℕ

-- `http_table_add_url`
pub http_table_add_url : HttpTable → UrlEntry → HttpTable × ℤ
http_table_add_url t new_entry =
    if leb http_table_url_entries t.length
    then (record t { num_dropped_url_entries = t.num_dropped_url_entries + 1 }, negsuc 0)
    else (record t { entries = set t.entries t.length new_entry; length = t.length + 1 }, pos 0)

-- `strdup` of an array: the bytes up to the first 0; `none` if it reads behind the end of the array.
pub strdup : List ℕ → Option (List ℕ)
strdup [] = none
strdup (c ∷ cs) =
    let rest = strdup cs in if c == 0 then some (c ∷ []) else (rest >>= λ s. some (c ∷ s))

-- `add_url`; `none` for the return of -1 and for a read out of bounds. The result of the table is
-- not looked at.
pub add_url : Hmac → Anonymizer → HttpTable → ℕ → List ℕ → Option HttpTable
unfolding strdup http_table_add_url
add_url sha1_hmac a t flow_id ul = do
  url_digest ← anonymize_url sha1_hmac a ul
  url ← strdup url_digest
  some (http_table_add_url t (record { flow_id = flow_id; url = url })).0

abbrev hex_text : Hex → Option (List ℕ)
hex_text (text s) = some s
hex_text _ = none

-- The text of the digest at `url`; `none` if 20 bytes are not there.
pub url_text : List ℕ → Option (List ℕ)
url_text url =
    if leb anonymization_digest_length (length url)
    then hex_text (buffer_to_hex (take anonymization_digest_length url))
    else none

module _ {H : Type 0} (gzprintf : Printf H) where
  pub write_urls : List UrlEntry → H → Option H
  unfolding url_text
  write_urls [] handle = some handle
  write_urls (e ∷ es) handle = do
    s ← url_text e.url
    handle' ←
        gzprintf handle (record { format = "%PRIu16 0 %s \n"; args = uint e.flow_id ∷ str s ∷ [] })
    write_urls es handle'

  -- `http_table_write_update`
  pub write_update : HttpTable → H → Option H
  unfolding write_urls
  write_update t handle = do
    handle₁ ←
        gzprintf handle
          (record { format = "%d \n"; args = int (pos t.num_dropped_url_entries) ∷ [] })
    handle₂ ← write_urls (take t.length t.entries) handle₁
    gzprintf handle₂ blank_line
