-- ===== src/Dns.antt =====
-- src/dns_table.h and src/dns_table.c: the A and CNAME records since the last update, with the
-- build's default options (anonymization and Bloom filter on). The `int` counters of dropped records
-- are numbers without bounds.
pub mod Records
pub mod Update
mod Tests
use bismark_passive.Prelude.{
  ℕ, ◌+◌, Bool, true, false, ◌||◌, Option, none, some, List, [], ◌∷◌, leb, if◌then◌else◌, take, set,
  replicate,
}
use bismark_passive.Prelude.Int.{ℤ, pos, negsuc, eqb_ℤ}
use bismark_passive.Prelude.Printf.{◌>>=◌, blank_line, Call, Printf, int, uint, str}
use bismark_passive.Constants.{dns_table_a_entries, dns_table_cname_entries}
use bismark_passive.Platform.{Platform, Pointed, alive, dead, read}
use bismark_passive.Util.{Hex, null, overrun, text, buffer_to_hex}
use bismark_passive.Anonymization.{Hmac, Anonymizer, anonymize_ip, anonymize_domain}
use bismark_passive.Whitelist.{Whitelist}
use bismark_passive.Whitelist
use bismark_passive.Bloom.{Bloom}
use bismark_passive.Bloom

-- `dns_a_entry_t`
pub record AEntry : Type 0 where
  pub packet_id : ℕ
  pub mac_id : ℕ
  pub domain_name : List ℕ
  pub ip_address : ℕ
  pub ttl : ℤ

-- `dns_cname_entry_t`
pub record CnameEntry : Type 0 where
  pub packet_id : ℕ
  pub mac_id : ℕ
  pub domain_name : List ℕ
  pub cname : List ℕ
  pub ttl : ℤ

-- `dns_table_t`; `none` for a whitelist that is NULL
pub record DnsTable : Type 0 where
  pub a_entries : List AEntry
  pub cname_entries : List CnameEntry
  pub a_length : ℕ
  pub cname_length : ℕ
  pub num_dropped_a_entries : ℕ
  pub num_dropped_cname_entries : ℕ
  pub whitelist : Option Whitelist
  pub bloom : Bloom

-- `dns_table_init`: all bytes zero, then the two pointers
unfoldable pub dns_table_init : Option Whitelist → Bloom → DnsTable
dns_table_init whitelist bloom = record {
  a_entries =
      replicate dns_table_a_entries
        (record { packet_id = 0; mac_id = 0; domain_name = []; ip_address = 0; ttl = pos 0 });
  cname_entries =
      replicate dns_table_cname_entries
        (record { packet_id = 0; mac_id = 0; domain_name = []; cname = []; ttl = pos 0 });
  a_length = 0;
  cname_length = 0;
  num_dropped_a_entries = 0;
  num_dropped_cname_entries = 0;
  whitelist = whitelist;
  bloom = bloom;
}

-- `dns_table_add_a`
pub add_a : DnsTable → AEntry → DnsTable × ℤ
add_a t new_entry =
    if leb dns_table_a_entries t.a_length
    then (record t { num_dropped_a_entries = t.num_dropped_a_entries + 1 }, negsuc 0)
    else (
      record t { a_entries = set t.a_entries t.a_length new_entry; a_length = t.a_length + 1 },
      pos 0,
    )

-- `dns_table_add_cname`
pub add_cname : DnsTable → CnameEntry → DnsTable × ℤ
add_cname t new_entry =
    if leb dns_table_cname_entries t.cname_length
    then (record t { num_dropped_cname_entries = t.num_dropped_cname_entries + 1 }, negsuc 0)
    else (
      record t {
        cname_entries = set t.cname_entries t.cname_length new_entry;
        cname_length = t.cname_length + 1;
      },
      pos 0,
    )

-- `table->whitelist && !domain_whitelist_lookup(table->whitelist, name)`
abbrev pub whitelisted : Option Whitelist → List ℕ → Bool
whitelisted none name = false
whitelisted (some w) name = eqb_ℤ (Whitelist.lookup w name) (pos 0)

abbrev hex_text : Hex → Option (List ℕ)
hex_text (text s) = some s
hex_text _ = none

pub dns_header : DnsTable → Call
dns_header t = record {
  format = "%d %d\n";
  args = int (pos t.num_dropped_a_entries) ∷ int (pos t.num_dropped_cname_entries) ∷ [];
}

pub a_line : AEntry → ℕ → List ℕ → ℕ → Call
a_line e domain_anonymized domain_string address_digest = record {
  format = "%PRIu16 %PRIu8 %u %s %PRIx64 %PRId32\n";
  args =
      uint e.packet_id
      ∷ uint e.mac_id
      ∷ uint domain_anonymized
      ∷ str domain_string
      ∷ uint address_digest
      ∷ int e.ttl
      ∷ [];
}

pub cname_line : CnameEntry → ℕ → List ℕ → ℕ → List ℕ → Call
cname_line e domain_anonymized domain_string cname_anonymized cname_string = record {
  format = "%PRIu16 %PRIu8 %u %s %u %s %PRId32\n";
  args =
      uint e.packet_id
      ∷ uint e.mac_id
      ∷ uint domain_anonymized
      ∷ str domain_string
      ∷ uint cname_anonymized
      ∷ str cname_string
      ∷ int e.ttl
      ∷ [];
}

module _ (sha1_hmac : Hmac) (p : Platform) (a : Anonymizer) where
  -- The string to print, behind the flag that tells whether it is anonymized: the name itself, or the
  -- array with its digest in hexadecimal text, whose block ends before the string is printed. `none`
  -- is the return of -1, or a lookup that goes wrong.
  pub name_string : DnsTable → List ℕ → Option (ℕ × Pointed)
  name_string t name = do
    malware_flag ← Bloom.lookup t.bloom name
    if whitelisted t.whitelist name || eqb_ℤ malware_flag (pos 0)
        then some (0, alive name)
        else (anonymize_domain sha1_hmac a name >>= λ digest.
            hex_text (buffer_to_hex digest) >>= λ s. some (1, dead s))

  module _ {H : Type 0} (gzprintf : Printf H) where
    -- The body of each of the two loops.
    pub write_a : DnsTable → AEntry → H → Option H
    unfolding name_string
    write_a t e handle = do
      address_digest ← anonymize_ip sha1_hmac p a e.ip_address
      (domain_anonymized, domain_string) ← name_string t e.domain_name
      gzprintf handle
          (a_line e domain_anonymized (read p (domain_string ∷ []) 0 domain_string) address_digest)

    pub write_cname : DnsTable → CnameEntry → H → Option H
    unfolding name_string
    write_cname t e handle = do
      (domain_anonymized, domain_string) ← name_string t e.domain_name
      (cname_anonymized, cname_string) ← name_string t e.cname
      gzprintf handle (
          cname_line e domain_anonymized
            (read p (domain_string ∷ cname_string ∷ []) 0 domain_string) cname_anonymized
            (read p (domain_string ∷ cname_string ∷ []) 1 cname_string))

    pub write_all : {E : Type 0} → (E → H → Option H) → List E → H → Option H
    write_all write [] handle = some handle
    write_all write (e ∷ es) handle = write e handle >>= write_all write es

    -- `dns_table_write_update`
    pub write_update : DnsTable → H → Option H
    unfolding write_a write_cname write_all
    write_update t handle = do
      handle₁ ← gzprintf handle (dns_header t)
      handle₂ ← write_all (write_a t) (take t.a_length t.a_entries) handle₁
      handle₃ ← gzprintf handle₂ blank_line
      handle₄ ← write_all (write_cname t) (take t.cname_length t.cname_entries) handle₃
      gzprintf handle₄ blank_line
