-- ===== src/Uploads.antt =====
-- src/upload_failures.h and src/upload_failures.c: whether the count of failed uploads has changed.
-- What `fscanf` reads of the file is a parameter: its results up to the end of the file.
pub mod History
use bismark_passive.Prelude.{
  ℕ, Bool, true, false, Option, none, some, List, [], ◌∷◌, if◌then◌else◌, same_bytes,
}
use bismark_passive.Prelude.Int.{ℤ, pos, negsuc, ltb_ℤ, eqb_ℤ}

-- After one call of `fscanf`: whether the stream has an error, and the two variables.
pub record Scan : Type 0 where
  pub error : Bool
  pub directory : List ℕ
  pub num_failures : ℤ

-- "passive"
abbrev pub passive : List ℕ
passive = 112 ∷ 97 ∷ 115 ∷ 115 ∷ 105 ∷ 118 ∷ 101 ∷ []

-- The loop, while the file is not at its end.
pub scan_loop : List Scan → ℤ
scan_loop [] = negsuc 0
scan_loop (s ∷ rest) =
    let later = scan_loop rest in
    if s.error then negsuc 0 else if same_bytes s.directory passive then s.num_failures else later

-- `read_failures`; `none` if the file cannot be opened.
unfoldable pub read_failures : Option (List Scan) → ℤ
unfolding scan_loop
read_failures none = negsuc 0
read_failures (some scans) = scan_loop scans

-- `upload_failures_t`, without the name of the file
pub record UploadFailures : Type 0 where
  pub num_failures : ℤ
  pub valid : Bool

-- `upload_failures_init`
abbrev pub upload_failures_init : UploadFailures → UploadFailures
upload_failures_init f = record f { valid = false }

-- `upload_failures_check`, on what `read_failures` returns: the new state and the result.
unfoldable pub check : UploadFailures → ℤ → UploadFailures × ℤ
check f num_failures =
    if ltb_ℤ num_failures (pos 0)
    then (f, negsuc 0)
    else if f.valid
    then (if eqb_ℤ f.num_failures num_failures
        then (f, pos 0)
        else (record f { num_failures = num_failures }, pos 1))
    else (record { num_failures = num_failures; valid = true }, pos 0)
