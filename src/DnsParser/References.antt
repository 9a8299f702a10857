-- ===== src/DnsParser/References.antt =====
-- The DNS records of the table and the packets and mappings that they name.
use bismark_passive.Prelude.{
  ℕ, ◌+◌, ◌≤◌, ◌<◌, ◌≡◌, inl, inr, Bool-cases, Option-cases, some, List, [], ◌∷◌, arith, length,
  ◌==◌,
}
use bismark_passive.Prelude.Int.{ℤ}
use bismark_passive.Prelude.All.{All, All-take, All-append, All-weaken}
use bismark_passive.Bytes.{read32}
use bismark_passive.Constants.{mac_table_entries, dns_table_a_entries, dns_table_cname_entries}
use bismark_passive.Dns.{DnsTable, AEntry, CnameEntry}
use bismark_passive.Dns.Records.{a_records, cname_records}
use bismark_passive.Dns.Records
use bismark_passive.DnsParser.{DnExpand, ResourceRecord, c_in, t_a, t_cname, process_dns_packet}
use bismark_passive.DnsParser.Sections.{message, with_records, process_dns_packet_lem}
use bismark_passive.DnsParser.Records.{
  to_list, a_entry, cname_entry, a_entries, cname_entries, with_records-Extends,
}

-- A record of a packet of the series, for a mapping of the address table.
abbrev pub Refers : ℕ → ℕ → ℕ → Type 0
Refers num_packets packet_id mac_id = (packet_id < num_packets) × (mac_id < mac_table_entries)

abbrev pub ARefers : ℕ → AEntry → Type 0
ARefers n e = Refers n e.packet_id e.mac_id

abbrev pub CnameRefers : ℕ → CnameEntry → Type 0
CnameRefers n e = Refers n e.packet_id e.mac_id

pub record Referring (n : ℕ) (t : DnsTable) : Type 0 where
  pub valid : Records.IsValid t
  pub addresses : All (ARefers n) (a_records t)
  pub aliases : All (CnameRefers n) (cname_records t)

pub Referring-le : (n m : ℕ) (t : DnsTable) → n ≤ m → Referring n t → Referring m t
Referring-le n m t le r = record {
  valid = r.valid;
  addresses =
      All-weaken (ARefers n) (ARefers m) (a_records t) (λ e h. (omega (arith, h.0), h.1))
        r.addresses;
  aliases =
      All-weaken (CnameRefers n) (CnameRefers m) (cname_records t)
        (λ e h. (omega (arith, h.0), h.1)) r.aliases;
}

module _ (dn_expand : DnExpand) (bytes : List ℕ) (len packet_id mac_id n : ℕ)
    (refers : Refers n packet_id mac_id) where
  a_entry-Refers :
      (r : ResourceRecord)
      → All (ARefers n) (to_list (a_entry dn_expand bytes len packet_id mac_id r))
  unfolding a_entry
  a_entry-Refers r = elim (Bool-cases (r.class == c_in)) [
    | inr other ↦ rw other tt
    | inl internet ↦ elim (Bool-cases (r.type == t_a)) [
      | inr other ↦ rw (internet, other) tt
      | inl address ↦ elim (Option-cases (read32 bytes r.rdata)) [
        | inl short ↦ rw (internet, address, short) tt
        | inr (ip, read) ↦ rw (internet, address, read) (refers, tt)
      ]
    ]
  ]

  cname_entry-Refers :
      (r : ResourceRecord)
      → All (CnameRefers n) (to_list (cname_entry dn_expand bytes len packet_id mac_id r))
  unfolding cname_entry
  cname_entry-Refers r = elim (Bool-cases (r.class == c_in)) [
    | inr other ↦ rw other tt
    | inl internet ↦ elim (Bool-cases (r.type == t_cname)) [
      | inr other ↦ rw (internet, other) tt
      | inl alias ↦ elim (Option-cases (dn_expand bytes len r.rdata)) [
        | inl bad_name ↦ rw (internet, alias, bad_name) tt
        | inr (e, expanded) ↦ rw (internet, alias, expanded) (refers, tt)
      ]
    ]
  ]

  a_entries-Refers :
      (rs : List ResourceRecord)
      → All (ARefers n) (a_entries dn_expand bytes len packet_id mac_id rs)
  unfolding a_entries
  a_entries-Refers [] = tt
  a_entries-Refers (r ∷ rs) = All-append (ARefers n) _ _ (a_entry-Refers r) (a_entries-Refers rs)

  cname_entries-Refers :
      (rs : List ResourceRecord)
      → All (CnameRefers n) (cname_entries dn_expand bytes len packet_id mac_id rs)
  unfolding cname_entries
  cname_entries-Refers [] = tt
  cname_entries-Refers (r ∷ rs) =
      All-append (CnameRefers n) _ _ (cname_entry-Refers r) (cname_entries-Refers rs)

  with_records-Referring :
      (rs : List ResourceRecord) (t : DnsTable)
      → Referring n t
      → Referring n (with_records dn_expand bytes len packet_id mac_id rs t)
  with_records-Referring rs t r =
      let x = with_records-Extends dn_expand bytes len packet_id mac_id rs t r.valid in
      record {
        valid = x.valid;
        addresses = rw x.addresses (
            All-take (ARefers n) dns_table_a_entries _
              (All-append (ARefers n) _ _ r.addresses (a_entries-Refers rs)));
        aliases = rw x.aliases (
            All-take (CnameRefers n) dns_table_cname_entries _
              (All-append (CnameRefers n) _ _ r.aliases (cname_entries-Refers rs)));
      }

  -- The parser returns, and leaves records that refer.
  pub process_dns_packet-Referring :
      (t : DnsTable)
      → len + 4 ≤ length bytes
      → Referring n t
      → (r : DnsTable × ℤ) × (process_dns_packet dn_expand bytes len packet_id mac_id t ≡ some r)
        × Referring n r.0
  process_dns_packet-Referring t slack r = (
    _,
    process_dns_packet_lem dn_expand bytes len packet_id mac_id slack t,
    with_records-Referring (message dn_expand bytes len).0 t r,
  )
