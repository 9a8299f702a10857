-- ===== src/Bloom/Hashes.antt =====
-- The second hash function, and which names a filter contains.
use bismark_passive.Prelude.{
  ℕ, ◌+◌, ◌*◌, ◌%◌, ◌^◌, ◌<◌, ◌≡◌, refl, ◌&&◌, none, some, List, [], ◌∷◌, arith, if◌then◌else◌,
}
use bismark_passive.Prelude.Int.{pos, negsuc}
use bismark_passive.Bloom.{
  Bloom, sdbm_round, hash_loop, sdbm_hash, sax_hash, get_bit, bloom_whitelist_init, load,
  lookup_loop, lookup,
}

-- The published recurrence of sdbm: multiply by 65599 and add the character, modulo 2^32.
pub sdbm : ℕ → List ℕ → ℕ
sdbm h [] = h
sdbm h (c ∷ key) = sdbm ((h * 65599 + c) % 2 ^ 32) key

sdbm_round-65599 : (h c : ℕ) → h < 2 ^ 32 → sdbm_round h c ≡ (h * 65599 + c) % 2 ^ 32
unfolding sdbm_round
sdbm_round-65599 h c fits = omega arith

hash_loop-sdbm : (h : ℕ) (key : List ℕ) → h < 2 ^ 32 → hash_loop sdbm_round h key ≡ sdbm h key
unfolding hash_loop sdbm
hash_loop-sdbm h [] fits = refl
hash_loop-sdbm h (c ∷ key) fits =
    rw (sdbm_round-65599 h c fits) (hash_loop-sdbm ((h * 65599 + c) % 2 ^ 32) key (omega arith))

-- The loop of shifts, sums and a difference computes sdbm of the string.
pub sdbm_hash-sdbm : (key : List ℕ) → sdbm_hash key ≡ sdbm 0 key
unfolding sdbm_hash
sdbm_hash-sdbm key = hash_loop-sdbm 0 key (omega arith)

-- A filter that was loaded answers 0 for a name if the bits of both hashes are set, and -1 if not.
pub bloom_lookup-load :
    (b : Bloom) (bytes domain : List ℕ)
    → let l = (load (bloom_whitelist_init b) (some bytes)).0 in
      lookup l domain
      ≡ some (
          if get_bit l.a (sax_hash domain % 2500000) && get_bit l.a (sdbm_hash domain % 2500000)
          then pos 0
          else negsuc 0)
unfolding lookup lookup_loop load
bloom_lookup-load b bytes domain = ground arith

-- The result of the load of a file that can be opened.
pub load-status :
    (b : Bloom) (bytes : List ℕ) → (load (bloom_whitelist_init b) (some bytes)).1 ≡ pos 0
unfolding load
load-status b bytes = refl

-- If the file cannot be opened, the array of functions stays NULL, as a static variable has it, and
-- every lookup goes wrong by calling what is not there.
pub bloom_lookup-load_failed :
    (b : Bloom) (domain : List ℕ)
    → b.funcs ≡ none
    → lookup (load (bloom_whitelist_init b) none).0 domain ≡ none
unfolding lookup lookup_loop load
bloom_lookup-load_failed b domain unset = rw unset refl
