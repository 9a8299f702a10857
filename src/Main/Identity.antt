-- ===== src/Main/Identity.antt =====
-- `initialize_bismark_id` of src/main.c: the ID of the router, and the address that it contains.
pub mod Address
mod Tests
use bismark_passive.Prelude.{
  ℕ, Bool, ◌++◌, Option, none, some, List, [], ◌∷◌, if◌then◌else◌, drop, replicate, length, ◌-◌,
}
use bismark_passive.Scanning.{skip_spaces, word, up_to_zero, scan_bytes, overwrite}
use bismark_passive.Main.{Build}

-- The static arrays `bismark_id`, up to its first 0, and `bismark_mac`.
pub record Identity : Type 0 where
  pub bismark_id : List ℕ
  pub bismark_mac : List ℕ

-- The array of 15 characters that `fscanf` has written a word to.
abbrev pub id_array : List ℕ → List ℕ
id_array s = s ++ 0 ∷ replicate (14 - length s) 0

-- The six conversions of the ID behind its first two characters. Where one fails, those before it have
-- been stored and the rest stays 0; this is only reported.
pub bismark_mac_of : Build → List ℕ → List ℕ
bismark_mac_of build array =
    if build.frequent_updates
    then overwrite (scan_bytes 2 none 6 (up_to_zero (drop 2 array))) (replicate 6 0)
    else replicate 6 0

pub identity_of : Build → List ℕ → Option Identity
unfolding bismark_mac_of up_to_zero
identity_of build [] = none
identity_of build (c ∷ cs) = some (record {
  bismark_id = up_to_zero (id_array (c ∷ cs));
  bismark_mac = bismark_mac_of build (id_array (c ∷ cs));
})

-- On the bytes of the file, or `none` if it cannot be opened; the result `none` is an exit.
unfoldable pub initialize_bismark_id : Build → Option (List ℕ) → Option Identity
unfolding identity_of skip_spaces word
initialize_bismark_id build none = none
initialize_bismark_id build (some contents) = identity_of build (word 14 (skip_spaces contents))
