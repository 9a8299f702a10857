-- ===== src/DnsParser/Safety.antt =====
-- Which reads of the parser stay inside the memory.
use bismark_passive.Prelude.{
  ℕ, zero, suc, ◌+◌, ◌≤◌, ◌≡◌, inl, inr, refl, Bool-cases, Option-cases, List, arith, length, ltb,
}
use bismark_passive.Prelude.Int.{pos, to_int32}
use bismark_passive.Bytes.{byte_at-some, read16-some, read32-some}
use bismark_passive.DnsParser.{
  DnExpand, Parse, refused, parsed, ResourceRecord, parse_resource_record, parse_header,
  question_loop, skip_loop, header_size, is_response,
}

-- What a record that was parsed says of its place.
pub record Placed (len offset : ℕ) (r : ResourceRecord) (offset' : ℕ) : Type 0 where
  pub forward : offset + 10 ≤ r.rdata
  pub behind : r.rdata + r.rdlength ≡ offset'
  pub within : offset' ≤ len

-- A parse does not fault, and what it gives has a property.
pub data Returns {A : Type 0} (P : A → Type 0) (o : Parse A) : Type 0 where
  refuses : o ≡ refused → Returns P o
  gives : (a : A) → o ≡ parsed a → P a → Returns P o

module _ (dn_expand : DnExpand) (bytes : List ℕ) (len : ℕ) (readable : len ≤ length bytes) where
  pub parse_resource_record-Returns :
      (offset : ℕ)
      → Returns (λ r. Placed len offset r.0 r.1) (parse_resource_record dn_expand bytes len offset)
  unfolding parse_resource_record
  parse_resource_record-Returns offset = elim (Option-cases (dn_expand bytes len offset)) [
    | inl bad_name ↦ refuses (rw bad_name refl)
    | inr (e, name) ↦
        let at = offset + e.0 in
        elim (Bool-cases (ltb len (offset + (e.0 + 10)))) [
          | inl short ↦ refuses (rw (name, short) refl)
          | inr room ↦
              let h : offset + (e.0 + 10) ≤ len = ground arith in
              let (type, e₁) = read16-some bytes at (omega arith) in
              let (class, e₂) = read16-some bytes (at + 2) (omega arith) in
              let (ttl, e₃) = read32-some bytes (at + 4) (omega arith) in
              let (rdlength, e₄) = read16-some bytes (at + 8) (omega arith) in
              elim (Bool-cases (ltb len (at + 10 + rdlength))) [
                | inl short ↦ refuses (rw (name, room, e₁, e₂, e₃, e₄, short) refl)
                | inr whole ↦
                    gives
                      (
                        record {
                          name = e.1;
                          type = type;
                          class = class;
                          ttl = to_int32 (pos ttl);
                          rdlength = rdlength;
                          rdata = at + 10;
                        },
                        at + 10 + rdlength,
                      )
                      (rw (name, room, e₁, e₂, e₃, e₄, whole) refl)
                      (record { forward = omega arith; behind = refl; within = ground arith })
              ]
        ]
  ]

  pub skip_loop-Returns :
      (rounds offset : ℕ) → Returns (λ _. Unit {0}) (skip_loop dn_expand bytes len rounds offset)
  unfolding skip_loop
  skip_loop-Returns zero offset = gives offset refl tt
  skip_loop-Returns (suc rounds) offset = elim (parse_resource_record-Returns offset) [
    | refuses e ↦ refuses (rw e refl)
    | gives (r, offset') e p ↦ rw e (skip_loop-Returns rounds offset')
  ]

  pub parse_header-Returns : Returns (λ _. Unit {0}) (parse_header dn_expand bytes len)
  unfolding parse_header
  parse_header-Returns = elim (Bool-cases (ltb len header_size)) [
    | inl short ↦ refuses (rw short refl)
    | inr long ↦
        let h : header_size ≤ len = ground arith in
        let (flags, e₁) = byte_at-some bytes 2 (omega arith) in
        let (codes, e₂) = byte_at-some bytes 3 (omega arith) in
        let (qdcount, e₃) = read16-some bytes 4 (omega arith) in
        let (ancount, e₄) = read16-some bytes 6 (omega arith) in
        let (nscount, e₅) = read16-some bytes 8 (omega arith) in
        let (arcount, e₆) = read16-some bytes 10 (omega arith) in
        elim (Bool-cases (is_response flags codes)) [
          | inl response ↦
              gives
                (record {
                  qdcount = qdcount;
                  ancount = ancount;
                  nscount = nscount;
                  arcount = arcount;
                })
                (rw (long, e₁, e₂, response, e₃, e₄, e₅, e₆) refl) tt
          | inr other ↦ refuses (rw (long, e₁, e₂, other) refl)
        ]
  ]

  -- The questions are skipped by the library's function alone.
  pub question_loop-Returns :
      (rounds offset : ℕ)
      → Returns (λ _. Unit {0}) (question_loop dn_expand bytes len rounds offset)
  unfolding question_loop
  question_loop-Returns zero offset = gives offset refl tt
  question_loop-Returns (suc rounds) offset = elim (Option-cases (dn_expand bytes len offset)) [
    | inl bad_name ↦ refuses (rw bad_name refl)
    | inr (e, name) ↦ rw name (question_loop-Returns rounds (offset + e.0 + 4))
  ]
