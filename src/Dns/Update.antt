-- ===== src/Dns/Update.antt =====
-- What an update publishes of the records.
use bismark_passive.Prelude.{
  ℕ, ◌≤◌, ◌≡◌, refl, sym, ap, Bool, true, false, ◌||◌, Bool-cases, inl, inr, Option, some, List, [],
  ◌∷◌, ◌++◌, map, arith, if◌then◌else◌, length, take,
}
use mathlib.Core.Path.{fun_ext}
use bismark_passive.Prelude.Int.{ℤ, pos, eqb_ℤ}
use bismark_passive.Prelude.Printf.{
  ◌>>=◌, >>=_some, blank_line, Call, Printf, put_all, put_all-append,
}
use bismark_passive.Platform.{Platform, Pointed, alive, dead, read}
use bismark_passive.Util.Encoding.{hex_digits, buffer_to_hex-hex_digits}
use bismark_passive.Anonymization.{
  Hmac, Anonymizer, anonymize_ip, anonymize_domain, anonymization_digest_length,
}
use bismark_passive.Bloom
use bismark_passive.Dns.{
  DnsTable, AEntry, CnameEntry, whitelisted, dns_header, a_line, cname_line, name_string, write_a,
  write_cname, write_all, write_update,
}

-- A name is published in clear if the whitelist covers it or the Bloom filter, by its answers, has it.
abbrev pub in_clear : DnsTable → (List ℕ → ℤ) → List ℕ → Bool
in_clear t answer name = whitelisted t.whitelist name || eqb_ℤ (answer name) (pos 0)

module _ (sha1_hmac : Hmac) (p : Platform) (a : Anonymizer) (t : DnsTable)
    (answer : List ℕ → ℤ) where
  -- For any other name a line is given the dead array that held the text of its keyed hash.
  pub string_of : List ℕ → Pointed
  string_of name =
      if in_clear t answer name then alive name else dead (hex_digits (sha1_hmac a.seed name))

  pub anonymized : List ℕ → ℕ
  anonymized name = if in_clear t answer name then 0 else 1

  -- On a platform where dead arrays keep their text, each in its place, such a name is published as its
  -- keyed hash.
  read-string_of :
      (before after : List Pointed) (name : List ℕ)
      → ((text : List ℕ) → p.left_of (before ++ dead text ∷ after) (length before) ≡ text)
      → read p (before ++ string_of name ∷ after) (length before) (string_of name)
        ≡ (if in_clear t answer name then name else hex_digits (sha1_hmac a.seed name))
  unfolding read string_of
  read-string_of before after name kept = elim (Bool-cases (in_clear t answer name)) [
    | inl clear ↦ rw clear refl
    | inr hidden ↦ rw hidden (kept (hex_digits (sha1_hmac a.seed name)))
  ]

  -- Where the array of the second string takes the place of the first, both are read as the keyed hash
  -- of the second name.
  read-shared :
      (name cname : List ℕ)
      → in_clear t answer name ≡ false
      → in_clear t answer cname ≡ false
      → ((k : ℕ) (first second : List ℕ) → p.left_of (dead first ∷ dead second ∷ []) k ≡ second)
      → read p (string_of name ∷ string_of cname ∷ []) 0 (string_of name)
        ≡ hex_digits (sha1_hmac a.seed cname)
  unfolding read string_of
  read-shared name cname hidden hidden' shared =
      rw (hidden, hidden')
        (shared 0 (hex_digits (sha1_hmac a.seed name)) (hex_digits (sha1_hmac a.seed cname)))

  pub published_a : AEntry → Call
  published_a e =
      a_line e (anonymized e.domain_name)
        (read p (string_of e.domain_name ∷ []) 0 (string_of e.domain_name))
        (p.word64 (take 8 (sha1_hmac a.seed (p.bytes32 e.ip_address))))

  pub published_cname : CnameEntry → Call
  published_cname e =
      let strings = string_of e.domain_name ∷ string_of e.cname ∷ [] in
      cname_line e (anonymized e.domain_name) (read p strings 0 (string_of e.domain_name))
        (anonymized e.cname) (read p strings 1 (string_of e.cname))

  module _
      (long : (key bytes : List ℕ) → length (sha1_hmac key bytes) ≡ anonymization_digest_length)
      (init : a.initialized ≡ true)
      (answers : (name : List ℕ) → Bloom.lookup t.bloom name ≡ some (answer name)) where
    name_string-published :
        (name : List ℕ) → name_string sha1_hmac p a t name ≡ some (anonymized name, string_of name)
    unfolding name_string string_of anonymized anonymize_domain
    name_string-published name =
        let short : length (sha1_hmac a.seed name) ≤ 511 = omega (arith, long a.seed name) in
        elim (Bool-cases (in_clear t answer name)) [
          | inl clear ↦ rw (answers name, clear) refl
          | inr hidden ↦
              rw
                (answers name, hidden, init, buffer_to_hex-hex_digits (sha1_hmac a.seed name) short)
                refl
        ]

    module _ {H : Type 0} (gzprintf : Printf H) where
      write_a-published :
          (e : AEntry) (h : H) → write_a sha1_hmac p a gzprintf t e h ≡ gzprintf h (published_a e)
      unfolding write_a published_a anonymize_ip
      write_a-published e h = rw (name_string-published e.domain_name, init) refl

      write_cname-published :
          (e : CnameEntry) (h : H)
          → write_cname sha1_hmac p a gzprintf t e h ≡ gzprintf h (published_cname e)
      unfolding write_cname published_cname
      write_cname-published e h =
          rw (name_string-published e.domain_name, name_string-published e.cname) refl

      write_all-map :
          {E : Type 0} (write : E → H → Option H) (line : E → Call) (es : List E) (h : H)
          → ((e : E) (h : H) → write e h ≡ gzprintf h (line e))
          → write_all sha1_hmac p a gzprintf write es h ≡ put_all gzprintf h (map line es)
      unfolding write_all
      write_all-map write line [] h each = refl
      write_all-map write line (e ∷ es) h each =
          rw (each e h) (
            ap (λ f. gzprintf h (line e) >>= f) (fun_ext λ h'. write_all-map write line es h' each))

      cnames_behind :
          (h : H)
          → (write_all sha1_hmac p a gzprintf
                (write_cname sha1_hmac p a gzprintf t)
                (take t.cname_length t.cname_entries)
                h
              >>= λ h'. gzprintf h' blank_line)
            ≡ put_all gzprintf h
                (map published_cname (take t.cname_length t.cname_entries) ++ blank_line ∷ [])
      cnames_behind h =
          let ls = map published_cname (take t.cname_length t.cname_entries) in
          rw
            (
              write_all-map (write_cname sha1_hmac p a gzprintf t) published_cname
                  (take t.cname_length t.cname_entries) h write_cname-published,
              put_all-append gzprintf h ls (blank_line ∷ []),
            )
            (ap (λ f. put_all gzprintf h ls >>= f)
              (fun_ext λ h'. sym (>>=_some (gzprintf h' blank_line))))

      pub dns-write_update :
          (h : H)
          → write_update sha1_hmac p a gzprintf t h
            ≡ put_all gzprintf h (
                dns_header t
                ∷ (map published_a (take t.a_length t.a_entries)
                    ++ blank_line
                      ∷ (map published_cname (take t.cname_length t.cname_entries)
                          ++ blank_line ∷ [])))
      unfolding write_update
      dns-write_update h =
          ap (λ f. gzprintf h (dns_header t) >>= f)
            (fun_ext λ h₁.
              rw
                (
                  write_all-map (write_a sha1_hmac p a gzprintf t) published_a
                      (take t.a_length t.a_entries) h₁ write_a-published,
                  put_all-append gzprintf h₁ (map published_a (take t.a_length t.a_entries)) (
                      blank_line
                      ∷ (map published_cname (take t.cname_length t.cname_entries)
                          ++ blank_line ∷ [])),
                )
                (ap (λ f. put_all gzprintf h₁ (map published_a (take t.a_length t.a_entries)) >>= f)
                  (fun_ext λ h₂. ap (λ f. gzprintf h₂ blank_line >>= f) (fun_ext cnames_behind))))
