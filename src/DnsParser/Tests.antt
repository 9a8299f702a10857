-- ===== src/DnsParser/Tests.antt =====
-- A response with one A record, whole and cut off.
use bismark_passive.Prelude.{
  ℕ, ◌+◌, ◌*◌, ◌≤◌, ◌≡◌, refl, none, some, List, [], ◌∷◌, ◌++◌, arith, length, ltb, if◌then◌else◌,
  length-replicate,
}
use bismark_passive.Prelude.Int.{pos, negsuc, to_int32}
use bismark_passive.Bytes.{byte_at, read16, read32}
use bismark_passive.Constants.{dns_table_a_entries, dns_table_cname_entries}
use bismark_passive.Dns.{DnsTable, dns_table_init}
use bismark_passive.Dns.Records.{IsValid}
use bismark_passive.DnsParser.{
  DnExpand, ResourceRecord, Header, parsed, parse_header, question_loop, parse_resource_record,
  process_dns_packet, header_size,
}
use bismark_passive.DnsParser.Sections.{message, with_records, process_dns_packet_lem}
use bismark_passive.DnsParser.Records.{a_entries, cname_entries, Extends, with_records-Extends}
use bismark_passive.DnsParser.Limits.{name_servers, length-message, process_dns_packet-fault}

-- Every name inside a message is the root, of one byte.
abbrev expand : DnExpand
expand bytes len offset = if ltb offset len then some (1, []) else none

-- A header with one question and one answer, the question, and the fixed part of an A record.
abbrev up_to_data : ℕ → List ℕ
up_to_data rdlength =
    0 ∷ 0 ∷ 128 ∷ 0 ∷ 0 ∷ 1 ∷ 0 ∷ 1 ∷ 0 ∷ 0 ∷ 0 ∷ 0 ∷ 0 ∷ 0 ∷ 1 ∷ 0 ∷ 1 ∷ 0 ∷ 0 ∷ 1 ∷ 0 ∷ 1 ∷ 0 ∷ 0
    ∷ 0 ∷ 60 ∷ 0 ∷ rdlength ∷ []

-- A whole message of 32 bytes with four bytes behind it, and one that ends where its data begins.
abbrev response : List ℕ
response = up_to_data 4 ++ (8 ∷ 8 ∷ 8 ∷ 8 ∷ 0 ∷ 0 ∷ 0 ∷ 0 ∷ [])

abbrev cut_off : List ℕ
cut_off = up_to_data 0

abbrev table : DnsTable
table = dns_table_init none (record { asize = 0; a = []; nfuncs = 0; funcs = none })

table-IsValid : IsValid table
unfolding dns_table_init
table-IsValid = record {
  a_width = length-replicate dns_table_a_entries _;
  cname_width = length-replicate dns_table_cname_entries _;
  a_within = omega arith;
  cname_within = omega arith;
}

process_dns_packet_lem_example :
    process_dns_packet expand response 32 7 1 table
    ≡ some (
      with_records expand response 32 7 1 (message expand response 32).0 table,
      if (message expand response 32).1 then pos 0 else negsuc 0,
    )
process_dns_packet_lem_example = process_dns_packet_lem expand response 32 7 1 (omega arith) table

with_records-Extends_example :
    let rs = (message expand response 32).0 in
    Extends expand response 32 7 1 table
      (with_records expand response 32 7 1 rs table)
      (a_entries expand response 32 7 1 rs)
      (cname_entries expand response 32 7 1 rs)
with_records-Extends_example =
    with_records-Extends expand response 32 7 1 (message expand response 32).0 table table-IsValid

length-message_example :
    10
      * (length (message expand response 32).0
          + length (name_servers expand response 32 (omega arith)))
    ≤ 32
length-message_example = length-message expand response 32 (omega arith)

abbrev counts : Header
counts = record { qdcount = 1; ancount = 1; nscount = 0; arcount = 0 }

abbrev first_answer : ResourceRecord
first_answer = record { name = []; type = 1; class = 1; ttl = pos 60; rdlength = 0; rdata = 28 }

header_is : parse_header expand cut_off 28 ≡ parsed counts
unfolding parse_header byte_at read16
header_is = refl

question_is : question_loop expand cut_off 28 1 header_size ≡ parsed 17
unfolding question_loop
question_is = refl

answer_is : parse_resource_record expand cut_off 28 17 ≡ parsed (first_answer, 28)
unfolding parse_resource_record byte_at read16 read32 to_int32
answer_is = refl

process_dns_packet-fault_example : process_dns_packet expand cut_off 28 7 1 table ≡ none
process_dns_packet-fault_example =
    process_dns_packet-fault expand cut_off 28 7 1 counts 17 28 first_answer table header_is
      question_is (omega arith) answer_is refl refl (omega arith)
