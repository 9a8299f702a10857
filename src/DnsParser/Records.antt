-- ===== src/DnsParser/Records.antt =====
-- What the parsed records leave in the DNS table.
use mathlib.Core.Option
use mathlib.Core.List.{append-nil, append_assoc}
use bismark_passive.Prelude.{
  ℕ, zero, suc, ◌≤◌, ◌<◌, ◌≡◌, inl, inr, refl, sym, subst, ap, ◌∙◌, false, Bool-cases, Option,
  Option-cases, none, some, List, [], ◌∷◌, ◌++◌, arith, length, length-take, take, leb, ◌==◌,
  if◌then◌else◌,
}
use bismark_passive.Bytes.{read32}
use bismark_passive.Constants.{dns_table_a_entries, dns_table_cname_entries}
use bismark_passive.Dns.{DnsTable, AEntry, CnameEntry, add_a, add_cname}
use bismark_passive.Dns.Records.{IsValid, a_records, cname_records, add_a_lem, add_cname_lem}
use bismark_passive.DnsParser.{
  DnExpand, ResourceRecord, c_in, t_a, t_cname, if_expanded, add_a_record, add_cname_record,
  add_record,
}
use bismark_passive.DnsParser.Sections.{with_record, with_records}

take_all : {A : Type 0} (n : ℕ) (xs : List A) → length xs ≤ n → take n xs ≡ xs
take_all zero [] h = refl
take_all zero (x ∷ xs) h = absurd (omega arith)
take_all (suc n) [] h = refl
take_all (suc n) (x ∷ xs) h = ap (λ l. x ∷ l) (take_all n xs (omega arith))

take-take-append :
    {A : Type 0} (n : ℕ) (xs ys : List A) → take n (take n xs ++ ys) ≡ take n (xs ++ ys)
take-take-append zero xs ys = refl
take-take-append (suc n) [] ys = refl
take-take-append (suc n) (x ∷ xs) ys = ap (λ l. x ∷ l) (take-take-append n xs ys)

take-append_full : {A : Type 0} (xs ys : List A) → take (length xs) (xs ++ ys) ≡ xs
take-append_full [] ys = refl
take-append_full (x ∷ xs) ys = ap (λ l. x ∷ l) (take-append_full xs ys)

take-append_one :
    {A : Type 0} (n : ℕ) (xs : List A) (x : A)
    → length xs < n
    → take n (xs ++ x ∷ []) ≡ xs ++ x ∷ []
take-append_one zero xs x h = absurd (omega arith)
take-append_one (suc zero) [] x h = refl
take-append_one (suc (suc n)) [] x h = refl
take-append_one (suc n) (y ∷ xs) x h = ap (λ l. y ∷ l) (take-append_one n xs x (omega arith))

-- A table of `n` places takes an entry while there is room.
capped :
    {A : Type 0} (n : ℕ) (xs : List A) (x : A)
    → length xs ≤ n
    → (if leb n (length xs) then xs else xs ++ x ∷ []) ≡ take n (xs ++ x ∷ [])
capped n xs x h = elim (Bool-cases (leb n (length xs))) [
  | inl full ↦
      let e : length xs ≡ n = ground arith in
      rw full (sym (subst (λ k. take k (xs ++ x ∷ []) ≡ xs) e (take-append_full xs (x ∷ []))))
  | inr room ↦ rw room (sym (take-append_one n xs x (ground arith)))
]

abbrev pub to_list : {A : Type 0} → Option A → List A
to_list none = []
to_list (some a) = a ∷ []

module _ (dn_expand : DnExpand) (bytes : List ℕ) (len packet_id mac_id : ℕ) where
  -- The entry that a record is for the table: an address of class IN and type A,
  unfoldable pub a_entry : ResourceRecord → Option AEntry
  a_entry r =
      if r.class == c_in
      then if r.type == t_a
        then Option.map
            (λ ip_address. record {
              packet_id = packet_id;
              mac_id = mac_id;
              domain_name = r.name;
              ip_address = ip_address;
              ttl = r.ttl;
            })
            (read32 bytes r.rdata)
        else none
      else none

  -- or an alias of class IN and type CNAME, whose name can be expanded.
  unfoldable pub cname_entry : ResourceRecord → Option CnameEntry
  cname_entry r =
      if r.class == c_in
      then if r.type == t_cname
        then if_expanded (dn_expand bytes len r.rdata) none (λ cname. some (record {
          packet_id = packet_id;
          mac_id = mac_id;
          domain_name = r.name;
          cname = cname;
          ttl = r.ttl;
        }))
        else none
      else none

  unfoldable pub a_entries : List ResourceRecord → List AEntry
  a_entries [] = []
  a_entries (r ∷ rs) = to_list (a_entry r) ++ a_entries rs

  unfoldable pub cname_entries : List ResourceRecord → List CnameEntry
  cname_entries [] = []
  cname_entries (r ∷ rs) = to_list (cname_entry r) ++ cname_entries rs

  -- A table with entries behind those that it had, as many as fit.
  pub record Extends (t t' : DnsTable) (news : List AEntry) (news' : List CnameEntry) : Type 0 where
    pub valid : IsValid t'
    pub addresses : a_records t' ≡ take dns_table_a_entries (a_records t ++ news)
    pub aliases : cname_records t' ≡ take dns_table_cname_entries (cname_records t ++ news')

  a_width : (t : DnsTable) → IsValid t → length (a_records t) ≡ t.a_length
  a_width t v = length-take t.a_length t.a_entries (omega (arith, v.a_width, v.a_within))

  cname_width : (t : DnsTable) → IsValid t → length (cname_records t) ≡ t.cname_length
  cname_width t v =
      length-take t.cname_length t.cname_entries (omega (arith, v.cname_width, v.cname_within))

  Extends-nothing : (t : DnsTable) → IsValid t → Extends t t [] []
  Extends-nothing t v = record {
    valid = v;
    addresses = sym (
        rw (append-nil (a_records t))
          (take_all dns_table_a_entries (a_records t) (omega (arith, a_width t v, v.a_within))));
    aliases = sym (
        rw (append-nil (cname_records t)) (
          take_all dns_table_cname_entries (cname_records t)
            (omega (arith, cname_width t v, v.cname_within))));
  }

  Extends-add_a : (t : DnsTable) (e : AEntry) → IsValid t → Extends t (add_a t e).0 (e ∷ []) []
  Extends-add_a t e v =
      let (v', addresses, aliases, dropped, result) = add_a_lem t e v in
      record {
        valid = v';
        addresses =
            addresses
            ∙ subst
                (λ n.
                  (if leb dns_table_a_entries n then a_records t else a_records t ++ e ∷ [])
                  ≡ take dns_table_a_entries (a_records t ++ e ∷ []))
                (a_width t v)
                (capped dns_table_a_entries (a_records t) e
                  (omega (arith, a_width t v, v.a_within)));
        aliases = aliases ∙ (Extends-nothing t v).aliases;
      }

  Extends-add_cname :
      (t : DnsTable) (e : CnameEntry) → IsValid t → Extends t (add_cname t e).0 [] (e ∷ [])
  Extends-add_cname t e v =
      let (v', aliases, addresses, dropped, result) = add_cname_lem t e v in
      record {
        valid = v';
        addresses = addresses ∙ (Extends-nothing t v).addresses;
        aliases =
            aliases
            ∙ subst
                (λ n.
                  (if leb dns_table_cname_entries n
                    then cname_records t
                    else cname_records t ++ e ∷ [])
                  ≡ take dns_table_cname_entries (cname_records t ++ e ∷ []))
                (cname_width t v)
                (capped dns_table_cname_entries (cname_records t) e
                  (omega (arith, cname_width t v, v.cname_within)));
      }

  -- A record that cannot be read, as `add_record` faults, adds nothing.
  Extends-with_record :
      (r : ResourceRecord) (t : DnsTable)
      → IsValid t
      → Extends t
          (with_record dn_expand bytes len packet_id mac_id r t)
          (to_list (a_entry r))
          (to_list (cname_entry r))
  unfolding add_record add_a_record add_cname_record a_entry cname_entry
  Extends-with_record r t v = elim (Bool-cases (r.class == c_in)) [
    | inr other ↦ rw other (Extends-nothing t v)
    | inl internet ↦ elim (Bool-cases (r.type == t_a)) [
      | inl address ↦
          let not_alias : (r.type == t_cname) ≡ false = ground arith in
          elim (Option-cases (read32 bytes r.rdata)) [
            | inl short ↦ rw (internet, address, not_alias, short) (Extends-nothing t v)
            | inr (ip, read) ↦ rw (internet, address, not_alias, read) (Extends-add_a t _ v)
          ]
      | inr other ↦ elim (Bool-cases (r.type == t_cname)) [
        | inl alias ↦ elim (Option-cases (dn_expand bytes len r.rdata)) [
          | inl bad_name ↦ rw (internet, other, alias, bad_name) (Extends-nothing t v)
          | inr ((n, cname), expanded) ↦
              rw (internet, other, alias, expanded) (Extends-add_cname t _ v)
        ]
        | inr neither ↦ rw (internet, other, neither) (Extends-nothing t v)
      ]
    ]
  ]

  join :
      {A : Type 0} (n : ℕ) (old xs ys new : List A)
      → new ≡ take n (old ++ xs)
      → take n (new ++ ys) ≡ take n (old ++ (xs ++ ys))
  join n old xs ys new e =
      rw e (take-take-append n (old ++ xs) ys) ∙ ap (take n) (append_assoc old xs ys)

  Extends-Extends :
      (t u w : DnsTable) (as₁ as₂ : List AEntry) (cs₁ cs₂ : List CnameEntry)
      → Extends t u as₁ cs₁
      → Extends u w as₂ cs₂
      → Extends t w (as₁ ++ as₂) (cs₁ ++ cs₂)
  Extends-Extends t u w as₁ as₂ cs₁ cs₂ first second = record {
    valid = second.valid;
    addresses =
        second.addresses
        ∙ join dns_table_a_entries (a_records t) as₁ as₂ (a_records u) first.addresses;
    aliases =
        second.aliases
        ∙ join dns_table_cname_entries (cname_records t) cs₁ cs₂ (cname_records u) first.aliases;
  }

  -- After the records of a message a valid table is valid and holds, behind the entries that it
  -- had, the A records of class IN with their addresses, as numbers in the byte order of the host,
  -- and the CNAME records of class IN whose names can be expanded, each kind in the order of the
  -- message and up to 1024 entries.
  pub with_records-Extends :
      (rs : List ResourceRecord) (t : DnsTable)
      → IsValid t
      → Extends t
          (with_records dn_expand bytes len packet_id mac_id rs t)
          (a_entries rs)
          (cname_entries rs)
  unfolding with_records a_entries cname_entries
  with_records-Extends [] t v = Extends-nothing t v
  with_records-Extends (r ∷ rs) t v =
      let u = with_record dn_expand bytes len packet_id mac_id r t in
      let first = Extends-with_record r t v in
      Extends-Extends t u _ _ _ _ _ first (with_records-Extends rs u first.valid)
