-- ===== src/Flow/Update.antt =====
-- src/flow_table.c: what is done with the flow table at each update. A PRI macro in a format stands
-- by its name.
pub mod Advance
pub mod Writes
mod Tests
use bismark_passive.Prelude.{
  ℕ, zero, suc, ◌+◌, Bool, true, false, ◌&&◌, not, Option, none, some, List, [], ◌∷◌, leb,
  if◌then◌else◌,
}
use bismark_passive.Prelude.Int.{ℤ, pos, ◌-ℤ◌, ltb_ℤ, to_int16}
use bismark_passive.Prelude.Printf.{◌>>=◌, blank_line, Call, Printf, int, uint}
use bismark_passive.Constants.{flow_table_min_update_offset, flow_threshold}
use bismark_passive.Constants.FlowId
use bismark_passive.Platform.{Platform}
use bismark_passive.Anonymization.{Hmac, Anonymizer, anonymize_ip}
use bismark_passive.Flow.{FlowEntry, FlowTable, occupied, deleted, is_live, is_unsent, dec32}

-- The test that an offset falls out of range when the base moves by `offset`.
pub too_old : ℤ → FlowEntry → Bool
too_old offset e =
    is_live e.occupied && ltb_ℤ (e.last_update_time_seconds -ℤ offset) flow_table_min_update_offset

-- The body of the loop of `flow_table_advance_base_timestamp`, on the entry.
pub advance_entry : ℤ → FlowEntry → FlowEntry
unfolding too_old
advance_entry offset e =
    if too_old offset e
    then record e { occupied = deleted }
    else if is_live e.occupied
    then record e { last_update_time_seconds = to_int16 (e.last_update_time_seconds -ℤ offset) }
    else e

-- The loop, with `num_elements`.
pub advance_loop : ℤ → List FlowEntry → ℕ → List FlowEntry × ℕ
unfolding too_old advance_entry
advance_loop offset [] num_elements = ([], num_elements)
advance_loop offset (e ∷ es) num_elements =
    let (rest, num) =
      advance_loop offset es (if too_old offset e then dec32 num_elements else num_elements) in
    (advance_entry offset e ∷ rest, num)

-- `flow_table_advance_base_timestamp`
pub advance_base_timestamp : FlowTable → ℤ → FlowTable
advance_base_timestamp t new_timestamp =
    let (entries, num) =
      advance_loop (new_timestamp -ℤ t.base_timestamp_seconds) t.entries t.num_elements in
    record t { entries = entries; base_timestamp_seconds = new_timestamp; num_elements = num }

-- `!flag`, printed by `%d`
abbrev pub not_int : Bool → ℤ
not_int true = pos 0
not_int false = pos 1

pub flow_line : ℕ → FlowEntry → ℕ → ℕ → Call
flow_line idx e source_digest destination_digest = record {
  format = "%d %d %PRIx64 %d %PRIx64 %PRIu8 %PRIu16 %PRIu16\n";
  args =
      int (pos (idx + FlowId.first_unreserved))
      ∷ int (not_int e.ip_source_unanonymized)
      ∷ uint source_digest
      ∷ int (not_int e.ip_destination_unanonymized)
      ∷ uint destination_digest
      ∷ uint e.transport_protocol
      ∷ uint e.port_source
      ∷ uint e.port_destination
      ∷ [];
}

pub header_line : FlowTable → Call
header_line t = record {
  format = "%ld %PRIu32 %d %d\n";
  args =
      int t.base_timestamp_seconds
      ∷ uint t.num_elements
      ∷ int (pos t.num_expired_flows)
      ∷ int (pos t.num_dropped_flows)
      ∷ [];
}

module _ (sha1_hmac : Hmac) (p : Platform) (a : Anonymizer) where
  -- The address, or its digest unless it is marked unanonymized; `none` for the return of -1.
  pub address_digest : Bool → ℕ → Option ℕ
  address_digest true address = some address
  address_digest false address = anonymize_ip sha1_hmac p a address

module _ (sha1_hmac : Hmac) (p : Platform) (a : Anonymizer) {H : Type 0} (gzprintf : Printf H) where
  -- The body of the loop of `flow_table_write_update`.
  pub write_flow : ℕ → FlowEntry → H → Option (FlowEntry × H)
  unfolding address_digest
  write_flow idx e handle =
      if is_unsent e.occupied
      then (do
        source ← address_digest sha1_hmac p a e.ip_source_unanonymized e.ip_source
        destination ← address_digest sha1_hmac p a e.ip_destination_unanonymized e.ip_destination
        handle' ← gzprintf handle (flow_line idx e source destination)
        some (record e { occupied = occupied }, handle'))
      else some (e, handle)

  pub write_loop : ℕ → List FlowEntry → H → Option (List FlowEntry × H)
  unfolding write_flow
  write_loop idx [] handle = some ([], handle)
  write_loop idx (e ∷ es) handle = do
    (e', handle') ← write_flow idx e handle
    (es', handle'') ← write_loop (idx + 1) es handle'
    some (e' ∷ es', handle'')

  -- `flow_table_write_update`; `none` is its return of -1, after which the program exits.
  pub write_update : FlowTable → H → Option (FlowTable × H)
  unfolding write_loop
  write_update t handle = do
    handle₁ ← gzprintf handle (header_line t)
    (entries, handle₂) ← write_loop 0 t.entries handle₁
    handle₃ ← gzprintf handle₂ blank_line
    some (record t { entries = entries }, handle₃)

pub threshold_line : ℕ → FlowEntry → Call
threshold_line idx e = record {
  format = "%d %PRIx32 %PRIx32 %PRIu8\n";
  args =
      int (pos (idx + FlowId.first_unreserved))
      ∷ uint e.ip_source
      ∷ uint e.ip_destination
      ∷ uint e.num_packets
      ∷ [];
}

unfoldable pub over_threshold : FlowEntry → Bool
over_threshold e = is_unsent e.occupied && leb flow_threshold e.num_packets

abbrev pub log_header : ℕ → ℤ → Call
log_header session_id sequence_number = record {
  format = "%PRIu64 %d\n\n";
  args = uint session_id ∷ int sequence_number ∷ [];
}

-- The log of flows over the threshold, for other measurements on the router.
module _ {H : Type 0} (fprintf : Printf H) where
  pub threshold_loop : ℕ → List FlowEntry → H → Option H
  threshold_loop idx [] handle = some handle
  threshold_loop idx (e ∷ es) handle =
      (if over_threshold e then fprintf handle (threshold_line idx e) else some handle)
      >>= threshold_loop (idx + 1) es

  -- `flow_table_write_thresholded_ips` on the log, once it is open.
  pub write_thresholded_ips : FlowTable → ℕ → ℤ → H → Option H
  unfolding threshold_loop
  write_thresholded_ips t session_id sequence_number handle =
      fprintf handle (log_header session_id sequence_number) >>= threshold_loop 0 t.entries
