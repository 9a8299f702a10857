-- ===== src/HttpParser/Tests.antt =====
-- The request "GET /a HTTP", with a space behind it and without.
use bismark_passive.Prelude.{
  ℕ, ◌≡◌, refl, some, List, [], ◌∷◌, ◌++◌, if◌then◌else◌, ◌⊎◌, ltb, length, take,
}
use bismark_passive.Prelude.Int.{pos, negsuc}
use bismark_passive.Prelude.Printf.{◌>>=◌}
use bismark_passive.Samples.{hmac, anonymizer}
use bismark_passive.Http.{HttpTable, add_url}
use bismark_passive.HttpParser.{space, process_http_packet}
use bismark_passive.HttpParser.Requests.{Word, IsGet, process_http_packet_lem}

abbrev get : List ℕ
get = 71 ∷ 69 ∷ 84 ∷ []

abbrev path : List ℕ
path = 47 ∷ 97 ∷ []

abbrev protocol : List ℕ
protocol = 72 ∷ 84 ∷ 84 ∷ 80 ∷ []

get-Word : Word get
get-Word = (refl, refl, (refl, refl, (refl, refl, tt)))

path-Word : Word path
path-Word = (refl, refl, (refl, refl, tt))

protocol-Word : Word protocol
protocol-Word = (refl, refl, (refl, refl, (refl, refl, (refl, refl, tt))))

abbrev table : HttpTable
table = record { entries = []; length = 0; num_dropped_url_entries = 0 }

process_http_packet_lem_example :
    let result =
      process_http_packet hmac anonymizer
        (get ++ space ∷ (path ++ space ∷ (protocol ++ space ∷ [])))
        (pos 12)
        table
        9 in
    (IsGet get
      × (result ≡ (
          add_url hmac anonymizer table 9 (if ltb 1024 (length path) then take 1023 path else path)
          >>= λ t'. some (t', pos 0))))
    ⊎ ((IsGet get → ⊥) × (result ≡ some (table, negsuc 0)))
process_http_packet_lem_example =
    process_http_packet_lem hmac anonymizer table 9 (pos 12) get path protocol get-Word path-Word
      protocol-Word refl []
