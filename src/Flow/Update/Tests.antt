-- ===== src/Flow/Update/Tests.antt =====
-- Updates of a table with one flow, and of a table of three entries.
use bismark_passive.Prelude.{◌≡◌, ◌≢◌, refl, some, List, [], ◌∷◌}
use bismark_passive.Prelude.Int.{pos, negsuc, int_laws}
use bismark_passive.Prelude.Printf.{◌>>=◌, Call, blank_line, put_all, record_call, with_handle}
use bismark_passive.Samples.{platform, hmac, anonymizer}
use bismark_passive.Flow.{FlowTable, occupied_but_unsent, occupied, flow_table_entry_init}
use bismark_passive.Flow.Live.{Live}
use bismark_passive.Flow.Update.Advance.{
  seen_at, advance_base_timestamp-seen_at, advance_base_timestamp-set_back,
}
use bismark_passive.Flow.Update.{advance_base_timestamp}
use bismark_passive.Prelude.{take}
use bismark_passive.Anonymization.{anonymize_ip}
use bismark_passive.Flow.Update.{
  write_loop, write_flow, address_digest, write_update, header_line, flow_line,
}
use bismark_passive.Flow.Update.Writes.{write_update-once}
use bismark_passive.Flow.Samples.{query, first, home, home_live, home_seen}

advance_base_timestamp-seen_at_example :
    let t' = advance_base_timestamp (first platform query (pos 1000)).0 (pos 1030) in
    Live t' (home platform query)
    × (seen_at t' (home platform query)
        ≡ seen_at (first platform query (pos 1000)).0 (home platform query))
advance_base_timestamp-seen_at_example =
    advance_base_timestamp-seen_at (first platform query (pos 1000)).0 (pos 1030)
      (home platform query) (home_live platform query (pos 1000)) (rw home_seen (omega int_laws))
      (rw home_seen (omega int_laws))

advance_base_timestamp-set_back_example :
    let t' = advance_base_timestamp (first platform query (pos 1000)).0 (negsuc 49999) in
    Live t' (home platform query)
    × (seen_at t' (home platform query)
        ≢ seen_at (first platform query (pos 1000)).0 (home platform query))
advance_base_timestamp-set_back_example =
    advance_base_timestamp-set_back (first platform query (pos 1000)).0 (negsuc 49999)
      (home platform query) (home_live platform query (pos 1000)) (rw home_seen (omega int_laws))

-- A flow to send, between an unused entry and one that was sent.
abbrev small : FlowTable
small = record {
  entries =
      flow_table_entry_init
      ∷ record query { occupied = occupied_but_unsent; num_packets = 12 }
      ∷ record query { occupied = occupied; port_source = 40001 }
      ∷ [];
  base_timestamp_seconds = pos 1000;
  num_elements = 2;
  num_expired_flows = 0;
  num_dropped_flows = 0;
}

abbrev small_sent : FlowTable
small_sent = record small {
  entries =
      flow_table_entry_init
      ∷ record query { occupied = occupied; num_packets = 12 }
      ∷ record query { occupied = occupied; port_source = 40001 }
      ∷ [];
}

abbrev small_lines : List Call
small_lines =
    header_line small
    ∷ flow_line 1 query
        (platform.word64 (take 8 (hmac anonymizer.seed (platform.bytes32 query.ip_source))))
        (platform.word64 (take 8 (hmac anonymizer.seed (platform.bytes32 query.ip_destination))))
    ∷ blank_line
    ∷ []

small-write_update :
    write_update hmac platform anonymizer record_call small [] ≡ some (small_sent, small_lines)
unfolding write_update write_loop write_flow address_digest anonymize_ip flow_line
small-write_update = refl

write_update-once_example :
    write_update hmac platform anonymizer record_call small_sent []
    ≡ (put_all record_call [] (header_line small_sent ∷ blank_line ∷ []) >>= with_handle small_sent)
write_update-once_example =
    write_update-once hmac platform anonymizer refl record_call small small_sent [] small_lines []
      small-write_update
