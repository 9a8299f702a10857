-- ===== src/Devices/Sums.antt =====
-- The table as a list of devices with their sums.
use bismark_passive.Prelude.{
  ℕ, zero, suc, ◌+◌, ◌≤◌, ◌<◌, ◌≡◌, refl, sym, ap, ◌∙◌, Bool, true, false, Option-cases, none, some,
  List, [], ◌∷◌, ◌++◌, arith, if◌then◌else◌, Bool-cases, inl, inr, leb, length, get_or, set, take,
  length-set, take-set, same_bytes,
}
use bismark_passive.Prelude.Int.{pos, negsuc}
use bismark_passive.Constants.{device_throughput_table_size}
use bismark_passive.Devices.{
  DeviceEntry, DeviceTable, no_device, find_loop, more_bytes, add_or_append, record_bytes,
}

pub record IsValid (t : DeviceTable) : Type 0 where
  pub width : length t.entries ≡ device_throughput_table_size
  pub within : t.length ≤ device_throughput_table_size

abbrev pub devices : DeviceTable → List DeviceEntry
devices t = take t.length t.entries

-- Whether a device has an entry.
pub known : List ℕ → List DeviceEntry → Bool
known mac [] = false
known mac (e ∷ es) = let rest = known mac es in if same_bytes e.mac_address mac then true else rest

-- The specification: the bytes are added to the sum of the device, modulo 2^32, or a new device
-- stands behind the others.
pub add : List ℕ → ℕ → List DeviceEntry → List DeviceEntry
add mac n [] = record { mac_address = mac; bytes_transferred = n } ∷ []
add mac n (e ∷ es) =
    let rest = add mac n es in
    if same_bytes e.mac_address mac then more_bytes e n ∷ es else e ∷ rest

add-unknown :
    (mac : List ℕ) (n idx : ℕ) (es : List DeviceEntry)
    → find_loop mac idx es ≡ none
    → (known mac es ≡ false)
      × (add mac n es ≡ es ++ record { mac_address = mac; bytes_transferred = n } ∷ [])
unfolding find_loop known add
add-unknown mac n idx [] h = (refl, refl)
add-unknown mac n idx (e ∷ es) h = elim (Bool-cases (same_bytes e.mac_address mac)) [
  | inl same ↦ let h' : some idx ≡ none = rw same at h in cc
  | inr other ↦
      let h' : find_loop mac (idx + 1) es ≡ none = rw other at h in
      let (k, l) = add-unknown mac n (idx + 1) es h' in rw other (k, ap (λ ds. e ∷ ds) l)
]

-- The device at an index, and what is added to it.
record Found (mac : List ℕ) (n idx at : ℕ) (es : List DeviceEntry) : Type 0 where
  offset : ℕ
  is : at ≡ idx + offset
  below : offset < length es
  present : known mac es ≡ true
  added : add mac n es ≡ set es offset (more_bytes (get_or es offset no_device) n)

add-Found :
    (mac : List ℕ) (n idx at : ℕ) (es : List DeviceEntry)
    → find_loop mac idx es ≡ some at
    → Found mac n idx at es
unfolding find_loop known add
add-Found mac n idx at [] h = cc
add-Found mac n idx at (e ∷ es) h = elim (Bool-cases (same_bytes e.mac_address mac)) [
  | inl same ↦
      let h' : some idx ≡ some at = rw same at h in
      let i : idx ≡ at = cc in
      record {
        offset = 0;
        is = omega arith;
        below = omega arith;
        present = rw same refl;
        added = rw same refl;
      }
  | inr other ↦
      let h' : find_loop mac (idx + 1) es ≡ some at = rw other at h in
      let f = add-Found mac n (idx + 1) at es h' in
      record {
        offset = suc f.offset;
        is = omega (arith, f.is);
        below = omega (arith, f.below);
        present = rw other f.present;
        added = rw other (ap (λ ds. e ∷ ds) f.added);
      }
]

take-set_inside :
    (k i : ℕ) (xs : List DeviceEntry) (x : DeviceEntry) → take k (set xs i x) ≡ set (take k xs) i x
take-set_inside zero i xs x = refl
take-set_inside (suc k) i [] x = refl
take-set_inside (suc k) zero (y ∷ xs) x = refl
take-set_inside (suc k) (suc i) (y ∷ xs) x = ap (λ l. y ∷ l) (take-set_inside k i xs x)

get_or-take :
    (k i : ℕ) (xs : List DeviceEntry)
    → i < length (take k xs)
    → get_or (take k xs) i no_device ≡ get_or xs i no_device
get_or-take zero i xs h = absurd (omega arith)
get_or-take (suc k) i [] h = absurd (omega arith)
get_or-take (suc k) zero (y ∷ xs) h = refl
get_or-take (suc k) (suc i) (y ∷ xs) h = get_or-take k i xs (omega arith)

-- Bytes of a device that the table has, or of a new one while there are fewer than 32, are added to
-- its sum as in the specification, and the result is 0; those of a 33rd device change nothing, and
-- the result is -1. The table stays valid.
pub record_bytes_lem :
    (t : DeviceTable) (mac : List ℕ) (n : ℕ)
    → IsValid t
    → let (t', result) = record_bytes t mac n in
      let refused =
        (if known mac (devices t) then false else leb device_throughput_table_size t.length) in
      IsValid t'
      × (devices t' ≡ (if refused then devices t else add mac n (devices t)))
      × (result ≡ (if refused then negsuc 0 else pos 0))
unfolding record_bytes add_or_append
record_bytes_lem t mac n v = elim (Option-cases (find_loop mac 0 (devices t))) [
  | inr (at, found) ↦
      let f = add-Found mac n 0 at (devices t) found in
      let i : at ≡ f.offset = omega (arith, f.is) in
      rw (found, f.present, f.added, i)
        (
          record { width = length-set t.entries f.offset _ ∙ v.width; within = v.within },
          take-set_inside t.length f.offset t.entries _
              ∙ ap (λ e. set (devices t) f.offset (more_bytes e n))
                  (sym (get_or-take t.length f.offset t.entries f.below)),
          refl,
        )
  | inl missing ↦
      let (fresh, appended) = add-unknown mac n 0 (devices t) missing in
      elim (Bool-cases (leb device_throughput_table_size t.length)) [
        | inl full ↦
            rw (missing, fresh, full) (record { width = v.width; within = v.within }, refl, refl)
        | inr room ↦
            let below : t.length < device_throughput_table_size = ground arith in
            rw (missing, fresh, room, appended)
              (
                record { width = length-set t.entries t.length _ ∙ v.width; within = omega arith },
                take-set t.entries t.length _ (omega (arith, v.width)),
                refl,
              )
      ]
]
