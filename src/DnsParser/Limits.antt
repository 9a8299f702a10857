-- ===== src/DnsParser/Limits.antt =====
-- How many records a packet can have, and which packets are read too far.
use Prim.Native.Nat.{max}
use bismark_passive.Prelude.{
  ℕ, zero, suc, ◌+◌, ◌-◌, ◌*◌, ◌≤◌, ◌<◌, ◌≡◌, refl, true, Option, none, some, List, [], arith,
  length, length-append, ◌==◌, ==_iff,
}
use bismark_passive.Bytes.{read32-none}
use bismark_passive.Dns.{DnsTable}
use bismark_passive.DnsParser.{
  DnExpand, refused, Parse, fault, parsed, ResourceRecord, Header, parse_resource_record,
  parse_header, question_loop, skip_loop, header_size, c_in, t_a, add_a_record, add_record,
  record_loop, behind_answers, process_dns_packet,
}
use bismark_passive.DnsParser.Safety.{
  refuses, gives, parse_resource_record-Returns, parse_header-Returns, skip_loop-Returns,
  question_loop-Returns,
}
use bismark_passive.DnsParser.Sections.{section, behind_section, message}

module _ (dn_expand : DnExpand) (bytes : List ℕ) (len : ℕ) (readable : len ≤ length bytes) where
  -- `n` records from an offset on, and where they end, if the section is whole.
  abbrev Spaced : ℕ → ℕ → Option ℕ → Type 0
  Spaced offset n none = offset + 10 * n ≤ max offset len
  Spaced offset n (some end) = (end ≤ max offset len) × (offset + 10 * n ≤ end)

  Spaced-suc :
      (offset offset' n : ℕ) (end : Option ℕ)
      → offset + 10 ≤ offset'
      → offset' ≤ len
      → Spaced offset' n end
      → Spaced offset (suc n) end
  Spaced-suc offset offset' n none forward within s = omega arith
  Spaced-suc offset offset' n (some end) forward within s = (omega arith, omega arith)

  Spaced-max :
      (offset n : ℕ) (end : Option ℕ) → Spaced offset n end → offset + 10 * n ≤ max offset len
  Spaced-max offset n none s = s
  Spaced-max offset n (some end) s = omega (arith, s.0, s.1)

  section-Spaced :
      (rounds offset : ℕ)
      → Spaced offset
          (length (section dn_expand bytes len rounds offset).0)
          (section dn_expand bytes len rounds offset).1
  unfolding section
  section-Spaced zero offset = (omega arith, omega arith)
  section-Spaced (suc rounds) offset =
      elim (parse_resource_record-Returns dn_expand bytes len readable offset) [
        | refuses e ↦ rw e (omega arith)
        | gives (r, offset') e p ↦ rw e (
            Spaced-suc offset offset' (length (section dn_expand bytes len rounds offset').0)
              (section dn_expand bytes len rounds offset').1 (omega (arith, p.forward, p.behind))
              p.within (section-Spaced rounds offset'))
      ]

  -- The records that are skipped are those of a section.
  skip_loop-section :
      (rounds offset end : ℕ)
      → skip_loop dn_expand bytes len rounds offset ≡ parsed end
      → (section dn_expand bytes len rounds offset).1 ≡ some end
  unfolding skip_loop section
  skip_loop-section zero offset end h = let e : offset ≡ end = cc in rw e refl
  skip_loop-section (suc rounds) offset end h =
      elim (parse_resource_record-Returns dn_expand bytes len readable offset) [
        | refuses e ↦ let h' : refused ≡ parsed end = rw e at h in cc
        | gives (r, offset') e p ↦
            let h' : skip_loop dn_expand bytes len rounds offset' ≡ parsed end = rw e at h in
            rw e (skip_loop-section rounds offset' end h')
      ]

  -- The name servers' records that are read: those behind the answers, if all answers are.
  abbrev servers_behind : Header → Option ℕ → List ResourceRecord
  servers_behind h none = []
  servers_behind h (some end) = (section dn_expand bytes len h.nscount end).0

  abbrev servers_of : Header → Parse ℕ → List ResourceRecord
  servers_of h (parsed offset) = servers_behind h (section dn_expand bytes len h.ancount offset).1
  servers_of h fault = []
  servers_of h refused = []

  abbrev servers_in : Parse Header → List ResourceRecord
  servers_in (parsed h) = servers_of h (question_loop dn_expand bytes len h.qdcount header_size)
  servers_in fault = []
  servers_in refused = []

  abbrev pub name_servers : List ResourceRecord
  name_servers = servers_in (parse_header dn_expand bytes len)

  behind_section-le :
      (h : Header) (offset : ℕ) (rs : List ResourceRecord) (end : Option ℕ)
      → Spaced offset (length rs) end
      → 10
          * (length (behind_section dn_expand bytes len h rs end).0 + length (servers_behind h end))
        ≤ len
  behind_section-le h offset rs none s = omega arith
  behind_section-le h offset rs (some end) s =
      let skipped = section dn_expand bytes len h.nscount end in
      let between = section-Spaced h.nscount end in
      elim (skip_loop-Returns dn_expand bytes len readable h.nscount end) [
        | refuses e ↦ rw e (
            omega (
              arith,
              s.0,
              s.1,
              length-append rs [],
              Spaced-max end (length skipped.0) skipped.1 between,
            ))
        | gives end' e _ ↦
            let more = section dn_expand bytes len h.arcount end' in
            let m = Spaced-max end' (length more.0) more.1 (section-Spaced h.arcount end') in
            let b : Spaced end (length skipped.0) (some end') =
              rw (skip_loop-section h.nscount end end' e) at between in
            rw e (omega (arith, s.0, s.1, b.0, b.1, m, length-append rs more.0))
      ]

  -- Each record takes 10 bytes at least, so at most len / 10 records of a packet that is in memory
  -- are read, the answers and the additional records that are added and the name servers' that are
  -- skipped, whatever counts the header gives.
  pub length-message : 10 * (length (message dn_expand bytes len).0 + length name_servers) ≤ len
  unfolding message
  length-message = elim (parse_header-Returns dn_expand bytes len readable) [
    | refuses e ↦ rw e (omega arith)
    | gives h e _ ↦
        elim (question_loop-Returns dn_expand bytes len readable h.qdcount header_size) [
          | refuses e' ↦ rw (e, e') (omega arith)
          | gives offset e' _ ↦
              rw (e, e')
                (behind_section-le h offset (section dn_expand bytes len h.ancount offset).0
                  (section dn_expand bytes len h.ancount offset).1
                  (section-Spaced h.ancount offset))
        ]
  ]

module _ (dn_expand : DnExpand) (bytes : List ℕ) (len packet_id mac_id : ℕ) where
  -- If the first answer is an A record of class IN whose data has less than 4 bytes up to the end of
  -- the memory, the address is read behind it, whatever length of data the record gives.
  pub process_dns_packet-fault :
      (h : Header) (offset offset' : ℕ) (r : ResourceRecord) (t : DnsTable)
      → parse_header dn_expand bytes len ≡ parsed h
      → question_loop dn_expand bytes len h.qdcount header_size ≡ parsed offset
      → 0 < h.ancount
      → parse_resource_record dn_expand bytes len offset ≡ parsed (r, offset')
      → r.class ≡ c_in
      → r.type ≡ t_a
      → length bytes < r.rdata + 4
      → process_dns_packet dn_expand bytes len packet_id mac_id t ≡ none
  unfolding process_dns_packet record_loop add_record add_a_record behind_answers
  process_dns_packet-fault h offset offset' r t header questions many first internet address short =
      let some_rounds : h.ancount ≡ suc (h.ancount - 1) = omega arith in
      let is_in : (r.class == c_in) ≡ true = (==_iff r.class c_in).1 internet in
      let is_a : (r.type == t_a) ≡ true = (==_iff r.type t_a).1 address in
      rw (header, questions)
        (rw some_rounds (rw (first, is_in, is_a, read32-none bytes r.rdata short) refl))
