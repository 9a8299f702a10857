-- ===== src/Dns/Tests.antt =====
-- Records in an empty table, and the update after one of each kind.
use bismark_passive.Prelude.{
  ℕ, ◌%◌, ◌&&◌, ◌≡◌, refl, none, some, List, [], ◌∷◌, arith, if◌then◌else◌, length-replicate,
}
use bismark_passive.Prelude.Int.{ℤ, pos, negsuc}
use bismark_passive.Constants.{dns_table_a_entries, dns_table_cname_entries}
use bismark_passive.Whitelist
use bismark_passive.Bloom.{Bloom}
use bismark_passive.Bloom
use bismark_passive.Bloom.Hashes.{bloom_lookup-load_failed}
use bismark_passive.Dns.{DnsTable, AEntry, CnameEntry, dns_table_init, add_a}
use bismark_passive.Dns.Records.{IsValid}

abbrev unloaded : Bloom
unloaded = record { asize = 0; a = []; nfuncs = 0; funcs = none }

-- a filter with a few bits set
abbrev filter : Bloom
filter = (Bloom.load (Bloom.bloom_whitelist_init unloaded) (some (255 ∷ 1 ∷ []))).0

-- "a.b"
abbrev host_name : List ℕ
host_name = 97 ∷ 46 ∷ 98 ∷ []

abbrev record_a : AEntry
record_a = record {
  packet_id = 7;
  mac_id = 1;
  domain_name = host_name;
  ip_address = 0x08080808;
  ttl = pos 60;
}

abbrev record_cname : CnameEntry
record_cname = record {
  packet_id = 7;
  mac_id = 1;
  domain_name = host_name;
  cname = 99 ∷ host_name;
  ttl = pos 60;
}

abbrev start : DnsTable
start = dns_table_init (some (Whitelist.load host_name)) filter

start-IsValid : IsValid start
unfolding dns_table_init
start-IsValid = record {
  a_width = length-replicate dns_table_a_entries _;
  cname_width = length-replicate dns_table_cname_entries _;
  a_within = omega arith;
  cname_within = omega arith;
}

abbrev one : DnsTable
one = (add_a start record_a).0

abbrev answer : List ℕ → ℤ
answer domain =
    if Bloom.get_bit filter.a (Bloom.sax_hash domain % 2500000)
      && Bloom.get_bit filter.a (Bloom.sdbm_hash domain % 2500000)
    then pos 0
    else negsuc 0

abbrev both : DnsTable
both = record {
  a_entries = record_a ∷ [];
  cname_entries = record_cname ∷ [];
  a_length = 1;
  cname_length = 1;
  num_dropped_a_entries = 0;
  num_dropped_cname_entries = 2;
  whitelist = some (Whitelist.load host_name);
  bloom = filter;
}

bloom_lookup-load_failed_example :
    Bloom.lookup (Bloom.load (Bloom.bloom_whitelist_init unloaded) none).0 host_name ≡ none
bloom_lookup-load_failed_example = bloom_lookup-load_failed unloaded host_name refl
