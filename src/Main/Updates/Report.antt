-- ===== src/Main/Updates/Report.antt =====
-- What an update contains.
use mathlib.Core.Path.{fun_ext}
use bismark_passive.Prelude.{
  ℕ, ◌≡◌, refl, sym, ap, ◌∙◌, true, false, inl, inr, Bool-cases, Option, none, some, List, [], ◌∷◌,
  ◌++◌, map, take, length, ◌==◌, if◌then◌else◌,
}
use mathlib.Core.List.{reverse}
use bismark_passive.Prelude.Int.{ℤ}
use bismark_passive.Prelude.Printf.{
  ◌>>=◌, >>=_some, >>=_assoc, Call, Printf, blank_line, with_handle, put_all, step, step_with, str,
}
use bismark_passive.Constants.{drop_statistics_maximum_packet_size}
use bismark_passive.Anonymization.{anonymization_digest_length, anonymization_write_update}
use bismark_passive.Whitelist.{domain_line}
use bismark_passive.Whitelist.Lines.{whitelist-write_update}
use bismark_passive.Packets.{series_header, packet_line}
use bismark_passive.Packets
use bismark_passive.Packets.Series.{packets, series-write_update}
use bismark_passive.Flow.Update.{header_line}
use bismark_passive.Flow.Update
use bismark_passive.Flow.Update.Writes.{sent, flow_lines, write_update_lem}
use bismark_passive.Bloom
use bismark_passive.Dns.{dns_header}
use bismark_passive.Dns
use bismark_passive.Dns.Update.{published_a, published_cname, dns-write_update}
use bismark_passive.Address.{address_header}
use bismark_passive.Address
use bismark_passive.Address.Ring
use bismark_passive.Address.Ring.{mappings}
use bismark_passive.Address.Update.{published_line, address-write_update}
use bismark_passive.Drops.Counts.{count_lines, drops-write_update}
use bismark_passive.Main.{Build, Libraries, Daemon}
use bismark_passive.Main.Updates.{
  Answers, Statistics, version_line, id_line, statistics_line, update_filename, staged_if,
  next_period, write_statistics, write_whitelist, write_preamble, write_urls, write_tables,
  write_update,
}

abbrev pub statistics_lines : Option Statistics → List Call
statistics_lines none = []
statistics_lines (some s) = statistics_line s ∷ []

-- The whitelist is sent with the first update only.
pub whitelist_lines : Daemon → List Call
whitelist_lines d =
    if d.sequence_number == 0
    then map domain_line (take d.domain_whitelist.size d.domain_whitelist.domains)
      ++ blank_line ∷ []
    else blank_line ∷ []

abbrev pub seed_line : Daemon → Call
seed_line d = record { format = "%s\n\n"; args = str d.anonymizer.seed_hex_digest ∷ [] }

-- The version, the identity of the update, the statistics of libpcap, the whitelist and the digest of
-- the seed.
pub preamble : Daemon → ℤ → Option Statistics → List Call
preamble d now statistics =
    version_line
    ∷ id_line d now
    ∷ (statistics_lines statistics ++ blank_line ∷ (whitelist_lines d ++ seed_line d ∷ []))

module _ (libs : Libraries) (answer : List ℕ → ℤ) (d : Daemon) where
  pub packet_lines : List Call
  packet_lines =
      series_header d.packet_data ∷ map packet_line (packets d.packet_data) ++ blank_line ∷ []

  pub new_flow_lines : List Call
  new_flow_lines =
      header_line d.flow_table
        ∷ flow_lines libs.sha1_hmac libs.platform d.anonymizer 0 d.flow_table.entries
      ++ (blank_line ∷ [])

  pub dns_lines : List Call
  dns_lines =
      let t = d.dns_table in
      dns_header t
      ∷ (map (published_a libs.sha1_hmac libs.platform d.anonymizer t answer)
            (take t.a_length t.a_entries)
          ++ blank_line
            ∷ (map (published_cname libs.sha1_hmac libs.platform d.anonymizer t answer)
                  (take t.cname_length t.cname_entries)
                ++ blank_line ∷ []))

  pub new_mapping_lines : List Call
  new_mapping_lines =
      let t = d.address_table in
      address_header t
        ∷ map (published_line libs.sha1_hmac libs.platform d.anonymizer)
            (reverse (take t.added_since_last_update (mappings t)))
      ++ blank_line ∷ []

  pub drop_lines : List Call
  drop_lines =
      count_lines 0 (take drop_statistics_maximum_packet_size d.drop_statistics.packet_sizes)
      ++ blank_line ∷ []

  -- Packets, new flows, DNS records, new mappings and drops.
  pub tables : List Call
  unfolding packet_lines new_flow_lines dns_lines new_mapping_lines drop_lines
  tables = packet_lines ++ (new_flow_lines ++ (dns_lines ++ (new_mapping_lines ++ drop_lines)))

-- The flows and mappings that have been sent are noted.
abbrev pub noted : Daemon → Daemon
noted d = record d {
  flow_table = record d.flow_table { entries = map sent d.flow_table.entries };
  address_table = record d.address_table { added_since_last_update = 0 };
}

module _ (build : Build) (libs : Libraries) {G : Type 0} (gzprintf : Printf G) (d : Daemon) where
  write_whitelist-lines :
      (h : G) → write_whitelist build libs gzprintf d h ≡ put_all gzprintf h (whitelist_lines d)
  unfolding write_whitelist whitelist_lines
  write_whitelist-lines h = elim (Bool-cases (d.sequence_number == 0)) [
    | inl first ↦ rw first (whitelist-write_update gzprintf d.domain_whitelist h)
    | inr later ↦ rw later (sym (>>=_some (gzprintf h blank_line)))
  ]

  write_statistics-lines :
      (s : Option Statistics) (h : G)
      → write_statistics build libs gzprintf s h ≡ put_all gzprintf h (statistics_lines s)
  write_statistics-lines none h = refl
  write_statistics-lines (some s) h = sym (>>=_some (gzprintf h (statistics_line s)))

  one_line : (c : Call) (h : G) → gzprintf h c ≡ put_all gzprintf h (c ∷ [])
  one_line c h = sym (>>=_some (gzprintf h c))

  write_preamble-lines :
      (now : ℤ) (s : Option Statistics) (h : G)
      → write_preamble build libs gzprintf d now s h
        ≡ (put_all gzprintf h (preamble d now s) >>= λ h'. some h')
  unfolding write_preamble anonymization_write_update preamble
  write_preamble-lines now s =
      let last = whitelist_lines d ++ seed_line d ∷ [] in
      let rest = statistics_lines s ++ blank_line ∷ last in
      step gzprintf some (λ h. gzprintf h version_line) _ (version_line ∷ []) (id_line d now ∷ rest)
        (one_line version_line)
        (step gzprintf some (λ h. gzprintf h (id_line d now)) _ (id_line d now ∷ []) rest
          (one_line (id_line d now))
          (step gzprintf some (write_statistics build libs gzprintf s) _ (statistics_lines s)
            (blank_line ∷ last) (write_statistics-lines s)
            (step gzprintf some (λ h. gzprintf h blank_line) _ (blank_line ∷ []) last
              (one_line blank_line)
              (step gzprintf some (write_whitelist build libs gzprintf d) _ (whitelist_lines d)
                (seed_line d ∷ []) write_whitelist-lines
                λ h.
                  one_line (seed_line d) h
                  ∙ sym (>>=_some (put_all gzprintf h (seed_line d ∷ [])))))))

  module _ (answer : List ℕ → ℤ) (addresses : Ring.IsValid d.address_table)
      (init : d.anonymizer.initialized ≡ true)
      (long : (key bytes : List ℕ)
        → length (libs.sha1_hmac key bytes) ≡ anonymization_digest_length)
      (answers : (name : List ℕ) → Bloom.lookup d.dns_table.bloom name ≡ some (answer name))
      (no_urls : build.http_url ≡ false) where
    write_tables-lines :
        (h : G)
        → write_tables build libs gzprintf d h
          ≡ (put_all gzprintf h (tables libs answer d) >>= with_handle (noted d))
    unfolding write_tables write_urls tables packet_lines new_flow_lines dns_lines new_mapping_lines
        drop_lines
    write_tables-lines =
        let end = with_handle (noted d) in
        let a = d.anonymizer in
        let mapped = new_mapping_lines libs answer d ++ drop_lines libs answer d in
        let resolved = dns_lines libs answer d ++ mapped in
        let flowed = new_flow_lines libs answer d ++ resolved in
        step gzprintf end (Packets.write_update gzprintf d.packet_data) _
          (packet_lines libs answer d) flowed (series-write_update gzprintf d.packet_data)
          (step_with gzprintf end
            (Update.write_update libs.sha1_hmac libs.platform a gzprintf d.flow_table)
            (noted d).flow_table _ (new_flow_lines libs answer d) resolved
            (write_update_lem libs.sha1_hmac libs.platform a init gzprintf d.flow_table)
            (step gzprintf end
              (Dns.write_update libs.sha1_hmac libs.platform a gzprintf d.dns_table) _
              (dns_lines libs answer d) mapped
              (dns-write_update libs.sha1_hmac libs.platform a d.dns_table answer long init answers
                gzprintf)
              (step_with gzprintf end
                (Address.write_update libs.sha1_hmac libs.platform a gzprintf d.address_table)
                (noted d).address_table _ (new_mapping_lines libs answer d)
                (drop_lines libs answer d)
                (λ h.
                  address-write_update libs.sha1_hmac libs.platform a gzprintf init d.address_table
                    h addresses)
                λ h. rw (no_urls, drops-write_update gzprintf d.drop_statistics h) refl)))

    -- In a build without the URLs of requests, with the address ring in order, the digests set up
    -- and of 20 bytes, and while the Bloom filter answers, an update consists of the version, the
    -- identity of the update, the statistics of libpcap, the whitelist if it is the first, the
    -- digest of the seed, the packets, the flows not sent before, the DNS records, the new mappings
    -- and the drops, in this order. A name of the DNS records that is not in clear shows what is
    -- left of the array, behind its block, that held its keyed hash. If the file is opened, all
    -- calls succeed and it can be renamed, then it is staged under the number of the update, and
    -- the next period begins with these flows and mappings noted as sent; otherwise the program
    -- exits.
    pub main-write_update :
        (system : Answers G)
        → write_update build libs gzprintf system d ≡ (
            system.handle >>= λ h.
            put_all gzprintf h
              (preamble d system.current_timestamp system.statistics ++ tables libs answer d)
            >>= λ contents. staged_if system.renamed (
              next_period build libs system.current_timestamp (noted d),
              record { filename = update_filename d; contents = contents },
            ))
    unfolding write_update
    main-write_update system =
        ap (λ f. system.handle >>= f)
          (fun_ext (
            step gzprintf _
              (write_preamble build libs gzprintf d system.current_timestamp system.statistics) _
              (preamble d system.current_timestamp system.statistics) (tables libs answer d)
              (λ h. write_preamble-lines system.current_timestamp system.statistics h ∙ >>=_some _)
              λ h.
                rw (write_tables-lines h)
                  (>>=_assoc (put_all gzprintf h (tables libs answer d)) _ _)))
