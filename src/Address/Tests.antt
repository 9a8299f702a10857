-- ===== src/Address/Tests.antt =====
-- Lookups in an empty table, and the update after one.
use bismark_passive.Prelude.{ℕ, ◌≡◌, List, [], ◌∷◌, if◌then◌else◌}
use bismark_passive.Util.{is_address_private}
use bismark_passive.Address.{AddressTable, address_table_init, lookup}
use bismark_passive.Address.Ring.{IsValid, address_table_init-IsValid, mappings}
use bismark_passive.Address.Lookup.{remember, lookup-IsValid, mappings-lookup}

-- 192.168.1.2
abbrev host : ℕ
host = 0xc0a80102

abbrev mac : List ℕ
mac = 0 ∷ 17 ∷ 34 ∷ 51 ∷ 68 ∷ 85 ∷ []

abbrev one : AddressTable
one = (lookup address_table_init host mac).0

one-IsValid : IsValid one
one-IsValid = lookup-IsValid address_table_init host mac address_table_init-IsValid

mappings-lookup_example : mappings (lookup one 0x0a000001 mac).0 ≡ (
    if is_address_private 0x0a000001 then remember 0x0a000001 mac (mappings one) else mappings one)
mappings-lookup_example = mappings-lookup one 0x0a000001 mac one-IsValid
