-- ===== src/Address.antt =====
-- src/address_table.h and src/address_table.c: the last 256 pairs of a private IP address and a MAC
-- address, in a ring. `int` fields that are never negative are numbers.
pub mod Ring
pub mod Lookup
pub mod Bounds
pub mod Update
mod Tests
use bismark_passive.Prelude.{
  ℕ, zero, suc, ◌+◌, ◌-◌, ◌*◌, Bool, ◌&&◌, Option, none, some, List, [], ◌∷◌, ltb, ◌==◌,
  if◌then◌else◌, get_or, set, replicate, same_bytes,
}
use bismark_passive.Prelude.Int.{ℤ, pos, negsuc, ◌+ℤ◌, ◌-ℤ◌, c_rem, pos_part}
use bismark_passive.Prelude.Printf.{◌>>=◌, blank_line, with_handle, Call, Printf, int, uint, str}
use bismark_passive.Constants.{mac_table_entries}
use bismark_passive.Platform.{Platform}
use bismark_passive.Util.{is_address_private, buffer_to_hex, Hex, null, overrun, text}
use bismark_passive.Anonymization.{Hmac, Anonymizer, anonymize_ip, anonymize_mac}

-- `address_table_entry_t`
pub record Mapping : Type 0 where
  pub ip_address : ℕ
  pub mac_address : List ℕ

-- `address_table_t`
pub record AddressTable : Type 0 where
  pub entries : List Mapping
  pub first : ℕ
  pub last : ℕ
  pub length : ℕ
  pub added_since_last_update : ℕ

abbrev pub no_mapping : Mapping
no_mapping = record { ip_address = 0; mac_address = replicate 6 0 }

-- `address_table_init`
pub address_table_init : AddressTable
address_table_init = record {
  entries = replicate mac_table_entries no_mapping;
  first = 0;
  last = 0;
  length = 0;
  added_since_last_update = 0;
}

-- `NORM(m)`: the residue of an `int` modulo the width, by C's remainder. It is not negative.
pub norm : ℤ → ℕ
norm m = pos_part (c_rem (c_rem m mac_table_entries +ℤ pos mac_table_entries) mac_table_entries)

abbrev pub same_mapping : Mapping → ℕ → List ℕ → Bool
same_mapping m ip mac = m.ip_address == ip && same_bytes m.mac_address mac

-- The loop of the search, from the `idx`-th most recent entry on, for so many rounds.
pub search_loop : AddressTable → ℕ → List ℕ → ℕ → ℕ → Option ℕ
search_loop t ip mac zero idx = none
search_loop t ip mac (suc rounds) idx =
    let mac_id = norm (pos t.last -ℤ pos idx) in
    let rest = search_loop t ip mac rounds (idx + 1) in
    if same_mapping (get_or t.entries mac_id no_mapping) ip mac then some mac_id else rest

-- The length and the last index after an insertion. A full table keeps its length.
abbrev pub grown : AddressTable → ℕ
grown t = if t.length == mac_table_entries then t.length else t.length + 1

abbrev pub next_last : AddressTable → ℕ
next_last t = if ltb 1 (grown t) then norm (pos t.last +ℤ pos 1) else t.last

-- What follows the search: the new pair goes behind the last, over the oldest in a full table.
pub append_mapping : AddressTable → ℕ → List ℕ → AddressTable × ℤ
append_mapping t ip mac =
    let added = t.added_since_last_update in
    (
      record {
        entries = set t.entries (next_last t) (record { ip_address = ip; mac_address = mac });
        first = (if t.length == mac_table_entries then norm (pos t.first +ℤ pos 1) else t.first);
        last = next_last t;
        length = grown t;
        added_since_last_update = (if ltb added mac_table_entries then added + 1 else added);
      },
      pos (next_last t),
    )

pub found_or_append : AddressTable → ℕ → List ℕ → Option ℕ → AddressTable × ℤ
unfolding append_mapping
found_or_append t ip mac (some mac_id) = (t, pos mac_id)
found_or_append t ip mac none = append_mapping t ip mac

-- `address_table_lookup`: the new table, and the index that is returned or -1. The search makes no
-- round in an empty table.
pub lookup : AddressTable → ℕ → List ℕ → AddressTable × ℤ
unfolding found_or_append
lookup t ip mac =
    if is_address_private ip
    then found_or_append t ip mac (search_loop t ip mac t.length 0)
    else (t, negsuc 0)

abbrev hex_text : Hex → Option (List ℕ)
hex_text (text s) = some s
hex_text _ = none

pub address_header : AddressTable → Call
unfolding norm
address_header t = record {
  format = "%d %d\n";
  args =
      int (pos (norm (pos t.last -ℤ pos t.added_since_last_update +ℤ pos 1)))
      ∷ int (pos mac_table_entries)
      ∷ [];
}

module _ (sha1_hmac : Hmac) (p : Platform) (a : Anonymizer) where
  -- The call that prints a mapping; `none` for the return of -1.
  unfoldable pub mapping_line : Mapping → Option Call
  mapping_line m = do
    digest_ip ← anonymize_ip sha1_hmac p a m.ip_address
    digest_mac ← anonymize_mac sha1_hmac a m.mac_address
    s ← hex_text (buffer_to_hex digest_mac)
    some (record { format = "%s %PRIx64\n"; args = str s ∷ uint digest_ip ∷ [] })

  module _ {H : Type 0} (gzprintf : Printf H) where
    -- The loop, from `idx` down to 1.
    pub write_mappings : AddressTable → ℕ → H → Option H
    write_mappings t zero handle = some handle
    write_mappings t (suc idx) handle = do
      line ←
          mapping_line (get_or t.entries (norm (pos t.last -ℤ pos (suc idx) +ℤ pos 1)) no_mapping)
      handle' ← gzprintf handle line
      write_mappings t idx handle'

    -- `address_table_write_update`; `none` is its return of -1.
    pub write_update : AddressTable → H → Option (AddressTable × H)
    unfolding address_header write_mappings
    write_update t handle = do
      handle₁ ← gzprintf handle (address_header t)
      handle₂ ← write_mappings t t.added_since_last_update handle₁
      handle₃ ← gzprintf handle₂ blank_line
      some (record t { added_since_last_update = 0 }, handle₃)
