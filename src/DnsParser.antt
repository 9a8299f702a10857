-- ===== src/DnsParser.antt =====
-- src/dns_parser.c: the A and CNAME records of a DNS response. The packet is memory from `bytes` on,
-- a pointer into it is an offset, and `len` is positive, as the caller tests. `dn_expand` of the
-- resolver library is a parameter: on the memory, the end of the message and an offset it gives the
-- length of the name that stands there and the name itself, or `none` for its -1.
pub mod Safety
pub mod Sections
pub mod Records
pub mod Limits
pub mod References
mod Tests
use mathlib.Core.Option
use bismark_passive.Prelude.{
  ℕ, zero, suc, ◌+◌, ◌/◌, ◌%◌, Bool, ◌&&◌, not, Option, none, some, List, ltb, ◌==◌, if◌then◌else◌,
}
use bismark_passive.Prelude.Int.{ℤ, pos, negsuc, to_int32}
use bismark_passive.Bytes.{byte_at, read16, read32}
use bismark_passive.Dns.{DnsTable, add_a, add_cname}

abbrev pub DnExpand : Type 0
DnExpand = List ℕ → ℕ → ℕ → Option (ℕ × List ℕ)

-- What a function does that may read behind the memory, return early with -1, or go on.
pub data Parse (A : Type 0) : Type 0 where
  fault refused : Parse A
  parsed : A → Parse A

infixl 5 ◌>>=◌
abbrev pub ◌>>=◌ : {A B : Type 0} → Parse A → (A → Parse B) → Parse B
fault >>= f = fault
refused >>= f = refused
parsed a >>= f = f a

abbrev pub load : {A : Type 0} → Option A → Parse A
load none = fault
load (some a) = parsed a

abbrev pub expect : {A : Type 0} → Option A → Parse A
expect none = refused
expect (some a) = parsed a

abbrev pub guard : Bool → Parse (Unit {0})
guard b = if b then parsed tt else refused

-- `sizeof(HEADER)`, `C_IN`, `T_A`, `T_CNAME`, `QUERY` and `NOERROR` of the resolver's headers
abbrev pub header_size : ℕ
header_size = 12

abbrev pub c_in : ℕ
c_in = 1

abbrev pub t_a : ℕ
t_a = 1

abbrev pub t_cname : ℕ
t_cname = 5

abbrev pub query : ℕ
query = 0

abbrev pub noerror : ℕ
noerror = 0

-- `resource_record_t`; `rdata` is an offset
pub record ResourceRecord : Type 0 where
  pub name : List ℕ
  pub type : ℕ
  pub class : ℕ
  pub ttl : ℤ
  pub rdlength : ℕ
  pub rdata : ℕ

-- After a loop: a fault, a return of -1 with the table so far, or the table and the offset.
pub data Walk : Type 0 where
  faulted : Walk
  stopped : DnsTable → Walk
  reached : DnsTable → ℕ → Walk

-- `qr`, `opcode` and `rcode` of the two bytes of flags
abbrev pub is_response : ℕ → ℕ → Bool
is_response flags codes = flags / 128 == 1 && flags / 8 % 16 == query && codes % 16 == noerror

-- the counts of the header
pub record Header : Type 0 where
  pub qdcount : ℕ
  pub ancount : ℕ
  pub nscount : ℕ
  pub arcount : ℕ

-- the name, where `dn_expand` gives one
abbrev pub if_expanded {ℓ} : {A : Type ℓ} → Option (ℕ × List ℕ) → A → (List ℕ → A) → A
if_expanded none a f = a
if_expanded (some (n, name)) a f = f name

abbrev pub with_parsed : Parse (ResourceRecord × ℕ) → DnsTable → (ResourceRecord → ℕ → Walk) → Walk
with_parsed fault t f = faulted
with_parsed refused t f = stopped t
with_parsed (parsed (r, offset)) t f = f r offset

abbrev pub with_added : Option DnsTable → (DnsTable → Walk) → Walk
with_added none f = faulted
with_added (some t) f = f t

-- a return of -1 with the table, where the parse is refused
abbrev pub or_refuse :
    {A : Type 0} → DnsTable → Parse A → (A → Option (DnsTable × ℤ)) → Option (DnsTable × ℤ)
or_refuse t fault f = none
or_refuse t refused f = some (t, negsuc 0)
or_refuse t (parsed a) f = f a

abbrev pub end_of_walk : Walk → Option (DnsTable × ℤ)
end_of_walk faulted = none
end_of_walk (stopped t) = some (t, negsuc 0)
end_of_walk (reached t offset) = some (t, pos 0)

module _ (dn_expand : DnExpand) (bytes : List ℕ) (len : ℕ) where
  -- The record at an offset, and the offset behind it.
  pub parse_resource_record : ℕ → Parse (ResourceRecord × ℕ)
  parse_resource_record offset = expect (dn_expand bytes len offset) >>= λ expanded.
      let compressed_len = expanded.0 in
      guard (not (ltb len (offset + (compressed_len + 10)))) >>= λ _.
      let at = offset + compressed_len in
      load (read16 bytes at) >>= λ type. load (read16 bytes (at + 2)) >>= λ class.
      load (read32 bytes (at + 4)) >>= λ ttl. load (read16 bytes (at + 8)) >>= λ rdlength.
      guard (not (ltb len (at + 10 + rdlength))) >>= λ _. parsed (
        record {
          name = expanded.1;
          type = type;
          class = class;
          ttl = to_int32 (pos ttl);
          rdlength = rdlength;
          rdata = at + 10;
        },
        at + 10 + rdlength,
      )

  -- The tests of the header, and its four counts.
  pub parse_header : Parse Header
  parse_header = guard (not (ltb len header_size)) >>= λ _. load (byte_at bytes 2) >>= λ flags.
      load (byte_at bytes 3) >>= λ codes. guard (is_response flags codes) >>= λ _.
      load (read16 bytes 4) >>= λ qdcount. load (read16 bytes 6) >>= λ ancount.
      load (read16 bytes 8) >>= λ nscount. load (read16 bytes 10) >>= λ arcount.
      parsed (record { qdcount = qdcount; ancount = ancount; nscount = nscount; arcount = arcount })

  -- The loop over the questions.
  pub question_loop : ℕ → ℕ → Parse ℕ
  question_loop zero offset = parsed offset
  question_loop (suc rounds) offset =
      expect (dn_expand bytes len offset) >>= λ e. question_loop rounds (offset + e.0 + 4)

  -- The loop over the name servers, whose records are only skipped.
  pub skip_loop : ℕ → ℕ → Parse ℕ
  unfolding parse_resource_record
  skip_loop zero offset = parsed offset
  skip_loop (suc rounds) offset = parse_resource_record offset >>= λ r. skip_loop rounds (r.1)

  module _ (packet_id mac_id : ℕ) where
    -- The new table, or `none` if the address is read behind the memory. The result of `add_a` is not
    -- looked at.
    pub add_a_record : ResourceRecord → DnsTable → Option DnsTable
    add_a_record r t =
        Option.map
          (λ ip_address.
            (add_a t (record {
              packet_id = packet_id;
              mac_id = mac_id;
              domain_name = r.name;
              ip_address = ip_address;
              ttl = r.ttl;
            })).0)
          (read32 bytes r.rdata)

    pub add_cname_record : ResourceRecord → DnsTable → DnsTable
    add_cname_record r t = if_expanded (dn_expand bytes len r.rdata) t λ cname.
        (add_cname t (record {
          packet_id = packet_id;
          mac_id = mac_id;
          domain_name = r.name;
          cname = cname;
          ttl = r.ttl;
        })).0

    -- What the loops over answers and additional records do with a record.
    pub add_record : ResourceRecord → DnsTable → Option DnsTable
    unfolding add_a_record add_cname_record
    add_record r t =
        if not (r.class == c_in)
        then some t
        else if r.type == t_a
        then add_a_record r t
        else if r.type == t_cname
        then some (add_cname_record r t)
        else some t

    pub record_loop : ℕ → ℕ → DnsTable → Walk
    unfolding add_record parse_resource_record
    record_loop zero offset t = reached t offset
    record_loop (suc rounds) offset t =
        with_parsed (parse_resource_record offset) t
          λ r offset'. with_added (add_record r t) λ t'. record_loop rounds offset' t'

    -- The end of the function, behind the answers.
    pub behind_answers : Header → Walk → Option (DnsTable × ℤ)
    unfolding record_loop skip_loop
    behind_answers h faulted = none
    behind_answers h (stopped t) = some (t, negsuc 0)
    behind_answers h (reached t offset) =
        or_refuse t (skip_loop h.nscount offset)
          λ offset'. end_of_walk (record_loop h.arcount offset' t)

    -- `process_dns_packet`: the table and the result, or `none` for a read behind the memory.
    pub process_dns_packet : DnsTable → Option (DnsTable × ℤ)
    unfolding parse_header question_loop behind_answers
    process_dns_packet t = or_refuse t parse_header λ h.
        or_refuse t (question_loop h.qdcount header_size)
          λ offset. behind_answers h (record_loop h.ancount offset t)
