-- ===== src/Main/Updates/Keeps.antt =====
-- Updates keep the invariant of the whole state.
use bismark_passive.Prelude.{
  ℕ, ◌+◌, ◌≡◌, refl, true, false, Bool, Option, some, arith, length-replicate,
}
use bismark_passive.Prelude.Int.{ℤ, pos}
use bismark_passive.Prelude.Printf.{Printf}
use bismark_passive.Prelude.All.{after, OnSuccess, >>=-OnSuccess, with_handle-OnSuccess}
use bismark_passive.Constants.{
  packet_data_buffer_entries, dns_table_a_entries, dns_table_cname_entries,
}
use bismark_passive.Whitelist.{Whitelist}
use bismark_passive.Bloom.{Bloom}
use bismark_passive.Packets.{packet_series_init, PacketData}
use bismark_passive.Packets
use bismark_passive.Packets.Series
use bismark_passive.Flow.{FlowTable}
use bismark_passive.Flow.Update
use bismark_passive.Flow.Valid
use bismark_passive.Flow.Update.Writes.{write_update-IsValid}
use bismark_passive.Flow.Update.Advance.{advance_base_timestamp-IsValid}
use bismark_passive.Dns.{dns_table_init}
use bismark_passive.Dns
use bismark_passive.DnsParser.References.{Referring}
use bismark_passive.Address.{AddressTable}
use bismark_passive.Address
use bismark_passive.Address.Ring
use bismark_passive.Address.Update.{address-write_update}
use bismark_passive.Drops
use bismark_passive.Drops.Counts.{drop_statistics_init-IsValid}
use bismark_passive.Main.{Build, Libraries, Daemon, zeroed_packets}
use bismark_passive.Main.Consistent.{Consistent}
use bismark_passive.Main.Updates.{
  Answers, Staged, next_period, write_tables, write_update, write_preamble, write_urls,
  update_filename, staged_if,
}

pub packet_series_init-IsValid : Series.IsValid (packet_series_init zeroed_packets)
packet_series_init-IsValid = record {
  width =
      length-replicate packet_data_buffer_entries
        (record { timestamp = pos 0; size = 0; flow = 0 });
  within = omega arith;
  counter = omega arith;
}

pub dns_table_init-Referring :
    (n : ℕ) (w : Option Whitelist) (b : Bloom) → Referring n (dns_table_init w b)
unfolding dns_table_init
dns_table_init-Referring n w b = record {
  valid = record {
    a_width = length-replicate dns_table_a_entries _;
    cname_width = length-replicate dns_table_cname_entries _;
    a_within = omega arith;
    cname_within = omega arith;
  };
  addresses = tt;
  aliases = tt;
}

-- A mapping that is sent stays in the ring.
sent-IsValid :
    (t : AddressTable) → Ring.IsValid t → Ring.IsValid (record t { added_since_last_update = 0 })
sent-IsValid t v = record {
  width = v.width;
  within = v.within;
  last_in = v.last_in;
  start = v.start;
  oldest = v.oldest;
  added = omega arith;
}

pub staged_if-OnSuccess :
    {A : Type 0} (P : A → Type 0) (b : Bool) (a : A) → P a → OnSuccess P (staged_if b a)
staged_if-OnSuccess P true a h = h
staged_if-OnSuccess P false a h = tt

-- What an update that is staged leaves: a consistent state with the next number, a file under the
-- number before, and the counters of alarms and of frequent updates as they were.
pub record Renewed (libs : Libraries) (d d' : Daemon) : Type 0 where
  pub consistent : Consistent libs d'
  pub number : d'.sequence_number ≡ d.sequence_number + 1
  pub id : d'.bismark_id ≡ d.bismark_id
  pub session : d'.start_timestamp_microseconds ≡ d.start_timestamp_microseconds
  pub alarms : d'.alarm_count ≡ d.alarm_count

-- The tables of flows and addresses after a write.
record Noted (libs : Libraries) (d d' : Daemon) : Type 0 where
  pub flow_table : FlowTable
  pub address_table : AddressTable
  pub is : d' ≡ record d { flow_table = flow_table; address_table = address_table }
  pub flows : Valid.IsValid libs.platform flow_table
  pub addresses : Ring.IsValid address_table

module _ (build : Build) (libs : Libraries) {G : Type 0} (gzprintf : Printf G) where
  next_period-Renewed :
      (now : ℤ) (d d' : Daemon)
      → Consistent libs d
      → Noted libs d d'
      → Renewed libs d (next_period build libs now d')
  unfolding next_period
  next_period-Renewed now d d' c n = rw n.is (record {
    consistent = record {
      packets = packet_series_init-IsValid;
      flows = advance_base_timestamp-IsValid libs.platform n.flow_table now n.flows;
      records = dns_table_init-Referring 0 (some d.domain_whitelist) d.bloom_whitelist;
      addresses = n.addresses;
      devices = c.devices;
      drops = drop_statistics_init-IsValid libs.platform d.drop_statistics c.drops;
      initialized = c.initialized;
    };
    number = refl;
    id = refl;
    session = refl;
    alarms = refl;
  })

  sent_mappings :
      (d : Daemon) (h : G)
      → Consistent libs d
      → OnSuccess
          (λ r. Ring.IsValid r.0)
          (Address.write_update libs.sha1_hmac libs.platform d.anonymizer gzprintf d.address_table
            h)
  sent_mappings d h c =
      rw
        (address-write_update libs.sha1_hmac libs.platform d.anonymizer gzprintf c.initialized
          d.address_table h c.addresses)
        (with_handle-OnSuccess Ring.IsValid (record d.address_table { added_since_last_update = 0 })
          _ (sent-IsValid d.address_table c.addresses))

  write_tables-Noted :
      (d : Daemon) (h : G)
      → Consistent libs d
      → OnSuccess (λ r. Noted libs d r.0) (write_tables build libs gzprintf d h)
  unfolding write_tables
  write_tables-Noted d h c =
      let Result : Daemon × G → Type 0 = λ r. Noted libs d r.0 in
      let a = d.anonymizer in
      after Result (Packets.write_update gzprintf d.packet_data h) _ λ h₁.
        >>=-OnSuccess {A = FlowTable × G} (λ r. Valid.IsValid libs.platform r.0) Result
          (Update.write_update libs.sha1_hmac libs.platform a gzprintf d.flow_table h₁) _
          (write_update-IsValid libs.sha1_hmac libs.platform d.anonymizer c.initialized gzprintf
            d.flow_table h₁ c.flows)
          λ r flows.
            after Result (Dns.write_update libs.sha1_hmac libs.platform a gzprintf d.dns_table r.1)
              _
              λ h₃.
                >>=-OnSuccess {A = AddressTable × G} (λ r. Ring.IsValid r.0) Result
                  (Address.write_update libs.sha1_hmac libs.platform a gzprintf d.address_table h₃)
                  _ (sent_mappings d h₃ c)
                  λ r' addresses.
                    after Result (Drops.write_update gzprintf d.drop_statistics r'.1) _ λ h₅.
                      after Result (write_urls build libs gzprintf d h₅) _ λ h₆. record {
                        flow_table = r.0;
                        address_table = r'.0;
                        is = refl;
                        flows = flows;
                        addresses = addresses;
                      }

  -- After an update that is staged the state is consistent, and the update bears the number that the
  -- next one is one more than.
  pub write_update-Renewed :
      (system : Answers G) (d : Daemon)
      → Consistent libs d
      → OnSuccess
          (λ r. Renewed libs d r.0 × (r.1.filename ≡ update_filename d))
          (write_update build libs gzprintf system d)
  unfolding write_update
  write_update-Renewed system d c =
      let Result : Daemon × Staged G → Type 0 =
        λ r. Renewed libs d r.0 × (r.1.filename ≡ update_filename d) in
      after Result system.handle _ λ h₀.
        after Result
          (write_preamble build libs gzprintf d system.current_timestamp system.statistics h₀) _
          λ h₁.
            >>=-OnSuccess {A = Daemon × G} (λ r. Noted libs d r.0) Result
              (write_tables build libs gzprintf d h₁) _ (write_tables-Noted d h₁ c)
              λ r n.
                staged_if-OnSuccess Result system.renamed _
                  (next_period-Renewed system.current_timestamp d r.0 c n, refl)
