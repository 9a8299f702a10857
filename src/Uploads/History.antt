-- ===== src/Uploads/History.antt =====
-- `upload_failures_check` over a run of the program.
use bismark_passive.Prelude.{
  ◌≡◌, refl, Bool, true, false, Option, none, some, List, [], ◌∷◌, arith, if◌then◌else◌, not,
}
use bismark_passive.Prelude.Int.{ℤ, pos, negsuc, ltb_ℤ, eqb_ℤ}
use bismark_passive.Uploads.{UploadFailures, upload_failures_init, check}

-- The checks of a run, one after the other.
pub run : UploadFailures → List ℤ → UploadFailures
run f [] = f
run f (n ∷ ns) = run (check f n).0 ns

-- The last count that could be read, if any, behind one that was known before.
pub last_read : Option ℤ → List ℤ → Option ℤ
last_read o [] = o
last_read o (n ∷ ns) = last_read (if ltb_ℤ n (pos 0) then o else some n) ns

abbrev Knows : UploadFailures → Option ℤ → Type 0
Knows f none = f.valid ≡ false
Knows f (some n) = (f.valid ≡ true) × (f.num_failures ≡ n)

check-Knows :
    (f : UploadFailures) (o : Option ℤ) (n : ℤ)
    → Knows f o
    → Knows (check f n).0 (if ltb_ℤ n (pos 0) then o else some n)
unfolding check
check-Knows f none n k = ground arith
check-Knows f (some m) n k = ground arith

run-Knows :
    (f : UploadFailures) (o : Option ℤ) (ns : List ℤ)
    → Knows f o
    → Knows (run f ns) (last_read o ns)
unfolding run last_read
run-Knows f o [] k = k
run-Knows f o (n ∷ ns) k = run-Knows (check f n).0 _ ns (check-Knows f o n k)

abbrev pub changed : Option ℤ → ℤ → Bool
changed none n = false
changed (some m) n = not (eqb_ℤ m n)

result_of_Knows :
    (f : UploadFailures) (o : Option ℤ) (n : ℤ)
    → Knows f o
    → (check f n).1 ≡ (if ltb_ℤ n (pos 0) then negsuc 0 else if changed o n then pos 1 else pos 0)
unfolding check
result_of_Knows f none n k = ground arith
result_of_Knows f (some m) n k = ground arith

-- After the initialization and any readings, the check of a new reading gives -1 if nothing could be
-- read, 1 if the last count that could be read is another one, and 0 otherwise.
pub check-run :
    (f : UploadFailures) (ns : List ℤ) (n : ℤ)
    → (check (run (upload_failures_init f) ns) n).1 ≡ (
        if ltb_ℤ n (pos 0)
        then negsuc 0
        else if changed (last_read none ns) n
        then pos 1
        else pos 0)
check-run f ns n = result_of_Knows _ (last_read none ns) n (run-Knows _ none ns refl)
