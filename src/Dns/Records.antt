-- ===== src/Dns/Records.antt =====
-- Which records the table holds.
use bismark_passive.Prelude.{
  ◌+◌, ◌≤◌, ◌<◌, ◌≡◌, refl, ◌∙◌, List, [], ◌∷◌, ◌++◌, arith, leb, if◌then◌else◌, Bool-cases, inl,
  inr, length, take, length-set, take-set,
}
use bismark_passive.Prelude.Int.{pos, negsuc}
use bismark_passive.Constants.{dns_table_a_entries, dns_table_cname_entries}
use bismark_passive.Dns.{DnsTable, AEntry, CnameEntry, add_a, add_cname}

pub record IsValid (t : DnsTable) : Type 0 where
  pub a_width : length t.a_entries ≡ dns_table_a_entries
  pub cname_width : length t.cname_entries ≡ dns_table_cname_entries
  pub a_within : t.a_length ≤ dns_table_a_entries
  pub cname_within : t.cname_length ≤ dns_table_cname_entries

-- The records since the last update, oldest first.
abbrev pub a_records : DnsTable → List AEntry
a_records t = take t.a_length t.a_entries

abbrev pub cname_records : DnsTable → List CnameEntry
cname_records t = take t.cname_length t.cname_entries

-- A table with room adds an A record behind those that it has; a full one drops and counts it. The
-- CNAME records are left as they are, and the table stays valid.
pub add_a_lem :
    (t : DnsTable) (e : AEntry)
    → IsValid t
    → let (t', result) = add_a t e in
      let full = leb dns_table_a_entries t.a_length in
      IsValid t'
      × (a_records t' ≡ (if full then a_records t else a_records t ++ e ∷ []))
      × (cname_records t' ≡ cname_records t)
      × (t'.num_dropped_a_entries
          ≡ (if full then t.num_dropped_a_entries + 1 else t.num_dropped_a_entries))
      × (result ≡ (if full then negsuc 0 else pos 0))
unfolding add_a
add_a_lem t e v = elim (Bool-cases (leb dns_table_a_entries t.a_length)) [
  | inl full ↦ rw full (
    record {
      a_width = v.a_width;
      cname_width = v.cname_width;
      a_within = v.a_within;
      cname_within = v.cname_within;
    },
    refl,
    refl,
    refl,
    refl,
  )
  | inr room ↦
      let below : t.a_length < dns_table_a_entries = ground arith in
      rw room (
        record {
          a_width = length-set t.a_entries t.a_length e ∙ v.a_width;
          cname_width = v.cname_width;
          a_within = omega arith;
          cname_within = v.cname_within;
        },
        take-set t.a_entries t.a_length e (omega (arith, v.a_width)),
        refl,
        refl,
        refl,
      )
]

-- A table with room adds a CNAME record behind those that it has; a full one drops and counts it. The
-- A records are left as they are, and the table stays valid.
pub add_cname_lem :
    (t : DnsTable) (e : CnameEntry)
    → IsValid t
    → let (t', result) = add_cname t e in
      let full = leb dns_table_cname_entries t.cname_length in
      IsValid t'
      × (cname_records t' ≡ (if full then cname_records t else cname_records t ++ e ∷ []))
      × (a_records t' ≡ a_records t)
      × (t'.num_dropped_cname_entries
          ≡ (if full then t.num_dropped_cname_entries + 1 else t.num_dropped_cname_entries))
      × (result ≡ (if full then negsuc 0 else pos 0))
unfolding add_cname
add_cname_lem t e v = elim (Bool-cases (leb dns_table_cname_entries t.cname_length)) [
  | inl full ↦ rw full (
    record {
      a_width = v.a_width;
      cname_width = v.cname_width;
      a_within = v.a_within;
      cname_within = v.cname_within;
    },
    refl,
    refl,
    refl,
    refl,
  )
  | inr room ↦
      let below : t.cname_length < dns_table_cname_entries = ground arith in
      rw room (
        record {
          a_width = v.a_width;
          cname_width = length-set t.cname_entries t.cname_length e ∙ v.cname_width;
          a_within = v.a_within;
          cname_within = omega arith;
        },
        take-set t.cname_entries t.cname_length e (omega (arith, v.cname_width)),
        refl,
        refl,
        refl,
      )
]
