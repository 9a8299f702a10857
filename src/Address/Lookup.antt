-- ===== src/Address/Lookup.antt =====
-- `address_table_lookup` against a list of at most 256 mappings, newest first.
use bismark_passive.Prelude.{
  ℕ, ◌⊎◌, zero, suc, ◌+◌, ◌%◌, ◌≤◌, ◌<◌, ◌≡◌, refl, sym, ap, ap₂, ◌∙◌, subst, Bool, true, false,
  ◌||◌, List, [], ◌∷◌, ◌==◌, if◌then◌else◌, arith, get_or, set, get_or-set, length-set, take, none,
  some, Bool-cases, Option-cases, inl, inr, ==_iff, same_bytes_refl,
}
use bismark_passive.Prelude.Int.{ℤ, pos, negsuc, ◌-ℤ◌}
use bismark_passive.Constants.{mac_table_entries}
use bismark_passive.Util.{is_address_private}
use bismark_passive.Address.{
  Mapping, AddressTable, grown, next_last, no_mapping, norm, same_mapping, search_loop,
  append_mapping, lookup,
}
use bismark_passive.Address.Ring.{
  back, norm-back, norm-next, IsValid, recent, mappings, recent-set, take-recent, length-recent,
  take_all,
}

-- A mapping is among the list.
pub known : List Mapping → ℕ → List ℕ → Bool
known [] ip mac = false
known (m ∷ ms) ip mac = same_mapping m ip mac || known ms ip mac

-- The specification: a new mapping goes to the front, and the 257th is forgotten.
pub remember : ℕ → List ℕ → List Mapping → List Mapping
remember ip mac ms =
    if known ms ip mac
    then ms
    else take mac_table_entries (record { ip_address = ip; mac_address = mac } ∷ ms)

search_none :
    (t : AddressTable) (ip : ℕ) (mac : List ℕ) (n k : ℕ)
    → k + n ≤ mac_table_entries
    → search_loop t ip mac n k ≡ none
    → known (recent t.entries t.last k n) ip mac ≡ false
unfolding search_loop known recent
search_none t ip mac zero k le h = refl
search_none t ip mac (suc n) k le h =
    ground (arith, norm-back t.last k, search_none t ip mac n (k + 1))

search_some :
    (t : AddressTable) (ip : ℕ) (mac : List ℕ) (n k id : ℕ)
    → k + n ≤ mac_table_entries
    → search_loop t ip mac n k ≡ some id
    → (known (recent t.entries t.last k n) ip mac ≡ true)
      × (same_mapping (get_or t.entries id no_mapping) ip mac ≡ true)
unfolding search_loop known recent
search_some t ip mac zero k id le h = cc
search_some t ip mac (suc n) k id le h =
    ground (arith, norm-back t.last k, search_some t ip mac n (k + 1) id)

unknown_of_none :
    (t : AddressTable) (ip : ℕ) (mac : List ℕ)
    → IsValid t
    → search_loop t ip mac t.length 0 ≡ none
    → known (mappings t) ip mac ≡ false
unfolding mappings
unknown_of_none t ip mac v h = search_none t ip mac t.length 0 (omega (arith, v.within)) h

known_of_some :
    (t : AddressTable) (ip : ℕ) (mac : List ℕ) (id : ℕ)
    → IsValid t
    → search_loop t ip mac t.length 0 ≡ some id
    → (known (mappings t) ip mac ≡ true)
      × (same_mapping (get_or t.entries id no_mapping) ip mac ≡ true)
unfolding mappings
known_of_some t ip mac id v h = search_some t ip mac t.length 0 id (omega (arith, v.within)) h

-- The search starts at the newest mapping.
search_newest :
    (t : AddressTable) (ip : ℕ) (mac : List ℕ) (n : ℕ)
    → 0 < n
    → t.last < mac_table_entries
    → same_mapping (get_or t.entries t.last no_mapping) ip mac ≡ true
    → search_loop t ip mac n 0 ≡ some t.last
unfolding search_loop
search_newest t ip mac zero some_round lt h = absurd (omega arith)
search_newest t ip mac (suc n) some_round lt h =
    let e : norm (pos t.last -ℤ pos 0) ≡ t.last = norm-back t.last 0 (omega arith) ∙ omega arith in
    rw (e, h)

-- The table after an insertion, by its last index.
module _ (t : AddressTable) (ip : ℕ) (mac : List ℕ) (v : IsValid t) where
  new : Mapping
  new = record { ip_address = ip; mac_address = mac }

  next_last-next : next_last t ≡ (if t.length == 0 then 0 else (t.last + 1) % mac_table_entries)
  next_last-next = ground (arith, norm-next t.last, v.start)

  next_last-lt : next_last t < mac_table_entries
  next_last-lt = ground (arith, norm-next t.last, v.last_in)

  pub append_mapping-IsValid : IsValid (append_mapping t ip mac).0
  unfolding append_mapping new
  append_mapping-IsValid = record {
    width = length-set t.entries (next_last t) new ∙ v.width;
    within = ground (arith, v.within);
    last_in = next_last-lt;
    start = λ h. ground (arith, v.within);
    oldest = rw next_last-next (ground (arith, norm-next t.first, v.oldest, v.within, v.last_in));
    added = ground (arith, v.added, v.within);
  }

  at_next : get_or (set t.entries (next_last t) new) (next_last t) no_mapping ≡ new
  at_next =
      get_or-set t.entries (next_last t) (next_last t) new no_mapping
        (omega (arith, next_last-lt, v.width))
      ∙ rw ((==_iff (next_last t) (next_last t)).1 refl)

  back_zero : (i : ℕ) → i < mac_table_entries → back i 0 ≡ i
  back_zero i h = omega arith

  tail_kept :
      (n : ℕ)
      → n < mac_table_entries
      → n ≤ t.length
      → recent (set t.entries (next_last t) new) (next_last t) 1 n ≡ recent t.entries t.last 0 n
  unfolding recent
  tail_kept zero small le = refl
  tail_kept (suc n) small le =
      let used : next_last t ≡ (t.last + 1) % mac_table_entries = ground (arith, next_last-next) in
      subst (λ i. recent (set t.entries i new) i 1 (suc n) ≡ recent t.entries t.last 0 (suc n))
        (sym used) (recent-set t.entries new t.last 0 (suc n) v.width v.last_in (omega arith))

  -- `n` mappings are kept behind the new one.
  mappings_of_grown :
      (n : ℕ)
      → grown t ≡ suc n
      → n < mac_table_entries
      → n ≤ t.length
      → take 255 (mappings t) ≡ recent t.entries t.last 0 n
      → mappings (append_mapping t ip mac).0 ≡ take mac_table_entries (new ∷ mappings t)
  unfolding append_mapping mappings new recent
  mappings_of_grown n e small le kept =
      ap (λ g. recent (set t.entries (next_last t) new) (next_last t) 0 g) e
      ∙ ap₂ ◌∷◌
          (ap (λ i. get_or (set t.entries (next_last t) new) i no_mapping)
              (back_zero (next_last t) next_last-lt)
            ∙ at_next)
          (tail_kept n small le ∙ sym kept)

  pub mappings-append_mapping :
      mappings (append_mapping t ip mac).0
      ≡ take mac_table_entries (record { ip_address = ip; mac_address = mac } ∷ mappings t)
  unfolding mappings new
  mappings-append_mapping = elim (Bool-cases (t.length == mac_table_entries)) [
    | inl full ↦
        mappings_of_grown 255 (ground arith) (omega arith) (ground arith)
          (take-recent t.entries t.last 0 t.length 255 (ground arith))
    | inr room ↦
        mappings_of_grown t.length (ground arith) (ground (arith, v.within)) (omega arith) (
          take_all 255 (recent t.entries t.last 0 t.length)
            (ground (arith, v.within, length-recent t.entries t.last 0 t.length)))
  ]

  pub newest-append_mapping :
      let (t', id) = append_mapping t ip mac in
      (id ≡ pos t'.last)
      × (get_or t'.entries t'.last no_mapping ≡ record { ip_address = ip; mac_address = mac })
      × (0 < t'.length)
  unfolding append_mapping new
  newest-append_mapping = (refl, at_next, ground arith)

-- A lookup keeps the ring in order: indices in range, the counter of new mappings within the length.
pub lookup-IsValid :
    (t : AddressTable) (ip : ℕ) (mac : List ℕ) → IsValid t → IsValid (lookup t ip mac).0
unfolding lookup
lookup-IsValid t ip mac v = elim (Bool-cases (is_address_private ip)) [
  | inr public ↦ rw public v
  | inl private ↦ elim (Option-cases (search_loop t ip mac t.length 0)) [
    | inl fresh ↦ rw (private, fresh) (append_mapping-IsValid t ip mac v)
    | inr (id, old) ↦ rw (private, old) v
  ]
]

-- The mappings of the table are those of the specification: a private address and its MAC address
-- are remembered, and any other address changes nothing.
pub mappings-lookup :
    (t : AddressTable) (ip : ℕ) (mac : List ℕ)
    → IsValid t
    → mappings (lookup t ip mac).0
      ≡ (if is_address_private ip then remember ip mac (mappings t) else mappings t)
unfolding lookup remember
mappings-lookup t ip mac v = elim (Bool-cases (is_address_private ip)) [
  | inr public ↦ rw public
  | inl private ↦ elim (Option-cases (search_loop t ip mac t.length 0)) [
    | inl fresh ↦
        rw (private, fresh, unknown_of_none t ip mac v fresh) (mappings-append_mapping t ip mac v)
    | inr (id, old) ↦ rw (private, old, (known_of_some t ip mac id v old).0)
  ]
]

-- For a private address the result is the index, in the new table, of this very pair; for another
-- address it is -1.
pub lookup_id :
    (t : AddressTable) (ip : ℕ) (mac : List ℕ)
    → IsValid t
    → let (t', id) = lookup t ip mac in
      ((is_address_private ip ≡ false) × (id ≡ negsuc 0))
      ⊎ ((is_address_private ip ≡ true)
          × ((i : ℕ) × (id ≡ pos i)
              × (same_mapping (get_or t'.entries i no_mapping) ip mac ≡ true)))
unfolding lookup
lookup_id t ip mac v = elim (Bool-cases (is_address_private ip)) [
  | inr public ↦ rw public (inl (refl, refl))
  | inl private ↦ elim (Option-cases (search_loop t ip mac t.length 0)) [
    | inr (id, old) ↦
        rw (private, old) (inr (refl, (id, refl, (known_of_some t ip mac id v old).1)))
    | inl fresh ↦
        let (is, here, _) = newest-append_mapping t ip mac v in
        rw (private, fresh)
          (inr (refl, (_, is, rw here (rw ((==_iff ip ip).1 refl) (same_bytes_refl mac)))))
  ]
]

-- Looked up again, a private pair is found where it was: same table, same id.
pub lookup-again :
    (t : AddressTable) (ip : ℕ) (mac : List ℕ)
    → IsValid t
    → lookup (lookup t ip mac).0 ip mac ≡ lookup t ip mac
unfolding lookup
lookup-again t ip mac v = elim (Bool-cases (is_address_private ip)) [
  | inr public ↦ rw public
  | inl private ↦ elim (Option-cases (search_loop t ip mac t.length 0)) [
    | inr (id, old) ↦ rw (private, old, old)
    | inl fresh ↦
        let t' = (append_mapping t ip mac).0 in
        let v' = append_mapping-IsValid t ip mac v in
        let (is, here, some_round) = newest-append_mapping t ip mac v in
        rw
          (
            private,
            fresh,
            search_newest t' ip mac t'.length some_round v'.last_in
                (rw here (rw ((==_iff ip ip).1 refl) (same_bytes_refl mac))),
          )
          (ap (λ (i : ℤ). (t', i)) (sym is))
  ]
]
