-- ===== src/DnsParser/Sections.antt =====
-- `process_dns_packet` in two steps: parse all records, then add them.
use bismark_passive.Prelude.{
  ℕ, zero, suc, ◌+◌, ◌≤◌, ◌≡◌, inl, inr, refl, ◌∙◌, true, false, Bool, Bool-cases, Option, none,
  some, List, [], ◌∷◌, ◌++◌, arith, length, ◌==◌, if◌then◌else◌,
}
use bismark_passive.Prelude.Int.{ℤ, pos, negsuc}
use bismark_passive.Bytes.{read32-some}
use bismark_passive.Dns.{DnsTable, add_a}
use mathlib.Core.List.{append-nil}
use bismark_passive.DnsParser.{
  DnExpand, Parse, fault, refused, parsed, ResourceRecord, Header, Walk, stopped, reached,
  parse_resource_record, parse_header, question_loop, skip_loop, header_size, c_in, t_a, t_cname,
  add_a_record, add_cname_record, add_record, record_loop, end_of_walk, behind_answers,
  process_dns_packet,
}
use bismark_passive.DnsParser.Safety.{
  refuses, gives, parse_resource_record-Returns, parse_header-Returns, skip_loop-Returns,
  question_loop-Returns,
}

-- A record before those that follow it.
abbrev with_rest :
    Parse (ResourceRecord × ℕ)
    → (ℕ → List ResourceRecord × Option ℕ)
    → List ResourceRecord × Option ℕ
with_rest fault f = ([], none)
with_rest refused f = ([], none)
with_rest (parsed (r, offset)) f = (r ∷ (f offset).0, (f offset).1)

abbrev pub or_else : DnsTable → Option DnsTable → DnsTable
or_else t none = t
or_else t (some t') = t'

module _ (dn_expand : DnExpand) (bytes : List ℕ) (len : ℕ) where
  -- The records that so many rounds find, and the offset behind them if they find as many.
  unfoldable pub section : ℕ → ℕ → List ResourceRecord × Option ℕ
  section zero offset = ([], some offset)
  section (suc rounds) offset =
      let rest = λ (offset' : ℕ). section rounds offset' in
      with_rest (parse_resource_record dn_expand bytes len offset) rest

  abbrev pub is_some : Option ℕ → Bool
  is_some none = false
  is_some (some _) = true

  -- The records of the answers, then those of the additional section, and whether the packet is
  -- whole: name servers are skipped, and nothing behind what cannot be parsed is read.
  abbrev pub behind_name_servers : ℕ → Parse ℕ → List ResourceRecord × Bool
  behind_name_servers arcount (parsed offset) =
      ((section arcount offset).0, is_some (section arcount offset).1)
  behind_name_servers arcount fault = ([], false)
  behind_name_servers arcount refused = ([], false)

  abbrev pub behind_section : Header → List ResourceRecord → Option ℕ → List ResourceRecord × Bool
  behind_section h rs none = (rs, false)
  behind_section h rs (some offset) =
      let rest = behind_name_servers h.arcount (skip_loop dn_expand bytes len h.nscount offset) in
      (rs ++ rest.0, rest.1)

  abbrev behind_questions : Header → Parse ℕ → List ResourceRecord × Bool
  behind_questions h (parsed offset) =
      behind_section h (section h.ancount offset).0 (section h.ancount offset).1
  behind_questions h fault = ([], false)
  behind_questions h refused = ([], false)

  abbrev behind_header : Parse Header → List ResourceRecord × Bool
  behind_header (parsed h) =
      behind_questions h (question_loop dn_expand bytes len h.qdcount header_size)
  behind_header fault = ([], false)
  behind_header refused = ([], false)

  unfoldable pub message : List ResourceRecord × Bool
  unfolding section
  message = behind_header (parse_header dn_expand bytes len)

  module _ (packet_id mac_id : ℕ) where
    -- The table with a record, and with all records in order.
    abbrev pub with_record : ResourceRecord → DnsTable → DnsTable
    with_record r t = or_else t (add_record dn_expand bytes len packet_id mac_id r t)

    unfoldable pub with_records : List ResourceRecord → DnsTable → DnsTable
    with_records [] t = t
    with_records (r ∷ rs) t = with_records rs (with_record r t)

    with_records-append :
        (rs more : List ResourceRecord) (t : DnsTable)
        → with_records (rs ++ more) t ≡ with_records more (with_records rs t)
    unfolding with_records
    with_records-append [] more t = refl
    with_records-append (r ∷ rs) more t = with_records-append rs more (with_record r t)

    module _ (slack : len + 4 ≤ length bytes) where
      add_record-returns :
          (r : ResourceRecord) (t : DnsTable)
          → r.rdata ≤ len
          → (t' : DnsTable) × (add_record dn_expand bytes len packet_id mac_id r t ≡ some t')
      unfolding add_record add_a_record
      add_record-returns r t inside =
          let (ip_address, read) = read32-some bytes r.rdata (omega arith) in
          elim (Bool-cases (r.class == c_in)) [
            | inr other ↦ (t, rw other refl)
            | inl internet ↦ elim (Bool-cases (r.type == t_a)) [
              | inl address ↦ (
                (add_a t (record {
                  packet_id = packet_id;
                  mac_id = mac_id;
                  domain_name = r.name;
                  ip_address = ip_address;
                  ttl = r.ttl;
                })).0,
                rw (internet, address, read) refl,
              )
              | inr other ↦ elim (Bool-cases (r.type == t_cname)) [
                | inl alias ↦ (
                  add_cname_record dn_expand bytes len packet_id mac_id r t,
                  rw (internet, other, alias) refl,
                )
                | inr neither ↦ (t, rw (internet, other, neither) refl)
              ]
            ]
          ]

      add_record-some :
          (r : ResourceRecord) (t : DnsTable)
          → r.rdata ≤ len
          → add_record dn_expand bytes len packet_id mac_id r t ≡ some (with_record r t)
      add_record-some r t inside = let (t', e) = add_record-returns r t inside in rw e refl

      abbrev walked : List ResourceRecord → Option ℕ → DnsTable → Walk
      walked rs none t = stopped (with_records rs t)
      walked rs (some offset) t = reached (with_records rs t) offset

      walked-cons :
          (r : ResourceRecord) (rs : List ResourceRecord) (o : Option ℕ) (t : DnsTable)
          → walked rs o (with_record r t) ≡ walked (r ∷ rs) o t
      unfolding with_records
      walked-cons r rs none t = refl
      walked-cons r rs (some offset) t = refl

      record_loop-walked :
          (rounds offset : ℕ) (t : DnsTable)
          → record_loop dn_expand bytes len packet_id mac_id rounds offset t
            ≡ walked (section rounds offset).0 (section rounds offset).1 t
      unfolding record_loop section with_records
      record_loop-walked zero offset t = refl
      record_loop-walked (suc rounds) offset t =
          elim (parse_resource_record-Returns dn_expand bytes len (omega arith) offset) [
            | refuses e ↦ rw (e) refl
            | gives (r, offset') e p ↦
                let inside : r.rdata ≤ len = omega (arith, p.behind, p.within) in
                rw (e, add_record-some r t inside)
                  (record_loop-walked rounds offset' (with_record r t)
                    ∙ walked-cons r (section rounds offset').0 (section rounds offset').1 t)
          ]

      abbrev result : Bool → ℤ
      result whole = if whole then pos 0 else negsuc 0

      end_of_walk-walked :
          (rs more : List ResourceRecord) (o : Option ℕ) (t : DnsTable)
          → end_of_walk (walked more o (with_records rs t))
            ≡ some (with_records (rs ++ more) t, result (is_some o))
      end_of_walk-walked rs more none t = rw (with_records-append rs more t) refl
      end_of_walk-walked rs more (some offset) t = rw (with_records-append rs more t) refl

      behind_answers-walked :
          (h : Header) (rs : List ResourceRecord) (o : Option ℕ) (t : DnsTable)
          → behind_answers dn_expand bytes len packet_id mac_id h (walked rs o t)
            ≡ some (with_records (behind_section h rs o).0 t, result (behind_section h rs o).1)
      unfolding behind_answers
      behind_answers-walked h rs none t = refl
      behind_answers-walked h rs (some offset) t =
          elim (skip_loop-Returns dn_expand bytes len (omega arith) h.nscount offset) [
            | refuses e ↦ rw (e, append-nil rs) refl
            | gives offset' e _ ↦
                rw (e, record_loop-walked h.arcount offset' (with_records rs t))
                  (end_of_walk-walked rs (section h.arcount offset').0 (section h.arcount offset').1
                    t)
          ]

      -- In memory that goes on for 4 bytes behind the packet, no read faults: the table gets the records
      -- of the message in order, and the result is 0 if the message is whole, -1 if not.
      pub process_dns_packet_lem :
          (t : DnsTable)
          → process_dns_packet dn_expand bytes len packet_id mac_id t
            ≡ some (with_records message.0 t, if message.1 then pos 0 else negsuc 0)
      unfolding process_dns_packet message with_records
      process_dns_packet_lem t = elim (parse_header-Returns dn_expand bytes len (omega arith)) [
        | refuses e ↦ rw e refl
        | gives h e _ ↦
            elim (question_loop-Returns dn_expand bytes len (omega arith) h.qdcount header_size) [
              | refuses e' ↦ rw (e, e') refl
              | gives offset e' _ ↦
                  rw (e, e', record_loop-walked h.ancount offset t)
                    (behind_answers-walked h (section h.ancount offset).0
                      (section h.ancount offset).1 t)
            ]
      ]
