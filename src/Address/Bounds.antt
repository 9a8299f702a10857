-- ===== src/Address/Bounds.antt =====
-- The ids that `address_table_lookup` returns.
use bismark_passive.Prelude.{
  ℕ, zero, suc, ◌+◌, ◌<◌, ◌≡◌, some, Bool-cases, Option-cases, inl, inr, arith, List,
}
use bismark_passive.Prelude.Int.{ℤ, pos, negsuc, c_rem, pos_part, ◌-ℤ◌}
use bismark_passive.Constants.{mac_table_entries}
use bismark_passive.Util.{is_address_private}
use bismark_passive.Address.{AddressTable, norm, search_loop, append_mapping, lookup, next_last}
use bismark_passive.Address.Ring.{IsValid}
use bismark_passive.Address.Lookup.{append_mapping-IsValid}

rem-lt : (z : ℤ) → pos_part (c_rem z mac_table_entries) < mac_table_entries
unfolding c_rem
rem-lt (pos n) = omega arith
rem-lt (negsuc n) = ground arith

norm-lt : (m : ℤ) → norm m < mac_table_entries
unfolding norm
norm-lt m = rem-lt _

search_loop-lt :
    (t : AddressTable) (ip : ℕ) (mac : List ℕ) (rounds idx id : ℕ)
    → search_loop t ip mac rounds idx ≡ some id
    → id < mac_table_entries
unfolding search_loop
search_loop-lt t ip mac zero idx id e = cc
search_loop-lt t ip mac (suc rounds) idx id e =
    ground (arith, norm-lt (pos t.last -ℤ pos idx), search_loop-lt t ip mac rounds (idx + 1) id)

-- An id fits the `uint8_t` that it is kept in.
pub lookup-lt :
    (t : AddressTable) (ip : ℕ) (mac : List ℕ) (i : ℕ)
    → IsValid t
    → (lookup t ip mac).1 ≡ pos i
    → i < mac_table_entries
unfolding lookup append_mapping
lookup-lt t ip mac i v e = elim (Bool-cases (is_address_private ip)) [
  | inr public ↦ let e' : negsuc 0 ≡ pos i = rw public at e in cc
  | inl private ↦ elim (Option-cases (search_loop t ip mac t.length 0)) [
    | inr (id, old) ↦
        let e' : pos id ≡ pos i = rw (private, old) at e in
        let same : id ≡ i = cc in omega (arith, search_loop-lt t ip mac t.length 0 id old)
    | inl fresh ↦
        let e' : pos (next_last t) ≡ pos i = rw (private, fresh) at e in
        let same : next_last t ≡ i = cc in
        let below : next_last t < mac_table_entries = (append_mapping-IsValid t ip mac v).last_in in
        omega arith
  ]
]
