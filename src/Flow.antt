-- ===== src/Flow.antt =====
-- src/flow_table.h and src/flow_table.c: the flows seen lately, in an open addressed hash table of
-- three probes, with the build's default options (anonymization and flow thresholding on).
-- `time_t` is an integer without bounds; the `int` counters of expired and dropped flows are
-- numbers without bounds, since their overflow has no meaning in C.
pub mod Live
pub mod Valid
pub mod Expire
pub mod Refresh
pub mod Scan
pub mod Loop
pub mod Insert
pub mod Process
pub mod Ids
pub mod Later
pub mod Update
mod Samples
mod Tests
pub mod Packets
use bismark_passive.Prelude.{
  ℕ, zero, suc, ◌+◌, ◌-◌, ◌*◌, ◌/◌, ◌%◌, ◌^◌, Bool, true, false, ◌&&◌, ◌||◌, Option, none, some,
  List, [], ◌∷◌, ◌++◌, ltb, ◌==◌, if◌then◌else◌, get_or, set, replicate,
}
use bismark_passive.Prelude.Int.{ℤ, pos, ◌+ℤ◌, ◌-ℤ◌, ltb_ℤ, to_int16}
use bismark_passive.Constants.FlowId
use bismark_passive.Constants.{
  flow_table_entries, flow_table_expiration_seconds, flow_table_max_update_offset,
  flow_table_min_update_offset, ht_num_probes,
}
use bismark_passive.Platform.{Platform}
use bismark_passive.Hashing.{fnv_hash_32}

-- the values of the field `occupied`
pub data Occupied : Type 0 where
  empty occupied_but_unsent occupied deleted : Occupied

-- `flow_table_entry_t`
pub record FlowEntry : Type 0 where
  pub ip_source : ℕ
  pub ip_destination : ℕ
  pub port_source : ℕ
  pub port_destination : ℕ
  pub transport_protocol : ℕ
  pub occupied : Occupied
  pub ip_source_unanonymized : Bool
  pub ip_destination_unanonymized : Bool
  pub num_packets : ℕ
  pub last_update_time_seconds : ℤ

-- `flow_table_t`
pub record FlowTable : Type 0 where
  pub entries : List FlowEntry
  pub base_timestamp_seconds : ℤ
  pub num_elements : ℕ
  pub num_expired_flows : ℕ
  pub num_dropped_flows : ℕ

pub flow_entry_compare : FlowEntry → FlowEntry → Bool
flow_entry_compare first second =
    first.ip_source == second.ip_source
    && first.ip_destination == second.ip_destination
    && first.transport_protocol == second.transport_protocol
    && first.port_source == second.port_source
    && first.port_destination == second.port_destination

-- `flow_table_entry_init`: all bytes zero
abbrev pub flow_table_entry_init : FlowEntry
flow_table_entry_init = record {
  ip_source = 0;
  ip_destination = 0;
  port_source = 0;
  port_destination = 0;
  transport_protocol = 0;
  occupied = empty;
  ip_source_unanonymized = false;
  ip_destination_unanonymized = false;
  num_packets = 0;
  last_update_time_seconds = pos 0;
}

pub flow_table_init : FlowTable
flow_table_init = record {
  entries = replicate flow_table_entries flow_table_entry_init;
  base_timestamp_seconds = pos 0;
  num_elements = 0;
  num_expired_flows = 0;
  num_dropped_flows = 0;
}

-- the tests `== ENTRY_OCCUPIED || == ENTRY_OCCUPIED_BUT_UNSENT`, and single ones
abbrev pub is_live : Occupied → Bool
is_live empty = false
is_live occupied_but_unsent = true
is_live occupied = true
is_live deleted = false

abbrev pub is_unsent : Occupied → Bool
is_unsent occupied_but_unsent = true
is_unsent _ = false

abbrev pub is_occupied : Occupied → Bool
is_occupied occupied = true
is_occupied _ = false

abbrev pub is_empty : Occupied → Bool
is_empty empty = true
is_empty _ = false

-- `&table->entries[idx]`, for an index in range
abbrev pub entry_at : FlowTable → ℕ → FlowEntry
entry_at t idx = get_or t.entries idx flow_table_entry_init

abbrev pub write_entry : FlowTable → ℕ → FlowEntry → FlowTable
write_entry t idx e = record t { entries = set t.entries idx e }

-- `++` and `--` in `uint32_t`, and `++` in the 4 bits of `num_packets`
abbrev pub inc32 : ℕ → ℕ
inc32 n = (n + 1) % 2 ^ 32

abbrev pub dec32 : ℕ → ℕ
dec32 n = (n + 2 ^ 32 - 1) % 2 ^ 32

abbrev pub inc4 : ℕ → ℕ
inc4 n = (n + 1) % 2 ^ 4

-- the hash of the first 13 bytes of an entry
pub flow_hash : Platform → FlowEntry → ℕ
flow_hash p e = fnv_hash_32 (
    p.bytes32 e.ip_source
    ++ (p.bytes32 e.ip_destination
        ++ (p.bytes16 e.port_source
            ++ (p.bytes16 e.port_destination ++ e.transport_protocol ∷ []))))

-- `(uint32_t)(hash + HT_C1*probe + HT_C2*probe*probe) % FLOW_TABLE_ENTRIES`. Both constants are 0.5
-- and the sum is exact in a `double`.
pub probe_index : Platform → ℕ → ℕ → ℕ
probe_index p hash probe = p.double_to_uint32 (hash + probe * (probe + 1) / 2) % flow_table_entries

-- The test of the first `if` of the loop: the entry is sent and too old.
pub is_expired : ℤ → ℤ → FlowEntry → Bool
is_expired base timestamp e =
    is_occupied e.occupied
    && ltb_ℤ (base +ℤ e.last_update_time_seconds +ℤ flow_table_expiration_seconds) timestamp

-- The first `if` of the loop.
pub expire : FlowTable → ℕ → ℤ → FlowTable
expire t idx timestamp =
    if is_expired t.base_timestamp_seconds timestamp (entry_at t idx)
    then record t {
      entries = set t.entries idx (record (entry_at t idx) { occupied = deleted });
      num_elements = dec32 t.num_elements;
      num_expired_flows = t.num_expired_flows + 1;
    }
    else t

-- The body of the second `if`: the flow is there already.
pub refresh : FlowTable → ℕ → ℤ → FlowTable
refresh t idx timestamp =
    let e = entry_at t idx in
    write_entry t idx (record e {
      last_update_time_seconds = to_int16 (timestamp -ℤ t.base_timestamp_seconds);
      num_packets =
          (if is_unsent e.occupied && ltb e.num_packets 63
            then inc4 e.num_packets
            else e.num_packets);
    })

-- How the loop over the probes ends: by its `return`, with the index of the flow, or by its end or
-- its `break`, with `first_available` (`none` for -1).
pub data Probed : Type 0 where
  matched : FlowTable → ℕ → Probed
  ended : FlowTable → Option ℕ → Probed

abbrev pub or_first : Option ℕ → ℕ → Option ℕ
or_first none idx = some idx
or_first (some a) idx = some a

-- The loop, from the given probe on, for so many rounds.
pub probe_loop : Platform → FlowEntry → ℤ → ℕ → ℕ → FlowTable → Option ℕ → Probed
probe_loop p new_entry timestamp zero probe t first_available = ended t first_available
probe_loop p new_entry timestamp (suc rounds) probe t first_available =
    let idx = probe_index p (flow_hash p new_entry) probe in
    let t' = expire t idx timestamp in
    let e = entry_at t' idx in
    let available =
      (if is_live e.occupied then first_available else or_first first_available idx) in
    let rest = probe_loop p new_entry timestamp rounds (probe + 1) t' available in
    if is_live e.occupied && flow_entry_compare new_entry e
    then matched (refresh t' idx timestamp) idx
    else if is_empty e.occupied
    then ended t' available
    else rest

-- What follows the loop.
pub insert_flow : FlowEntry → ℤ → FlowTable → Option ℕ → FlowTable × ℕ
insert_flow new_entry timestamp t none =
    (record t { num_dropped_flows = t.num_dropped_flows + 1 }, FlowId.error)
insert_flow new_entry timestamp t (some idx) =
    let base = (if t.num_elements == 0 then timestamp else t.base_timestamp_seconds) in
    (
      record t {
        entries = set t.entries idx (record new_entry {
          occupied = occupied_but_unsent;
          num_packets = 1;
          last_update_time_seconds = to_int16 (timestamp -ℤ base);
        });
        base_timestamp_seconds = base;
        num_elements = inc32 t.num_elements;
      },
      idx + FlowId.first_unreserved,
    )

abbrev pub finish : FlowEntry → ℤ → Probed → FlowTable × ℕ
finish new_entry timestamp (matched t idx) = (t, idx + FlowId.first_unreserved)
finish new_entry timestamp (ended t available) = insert_flow new_entry timestamp t available

-- The test that a timestamp is too far from the base of a table in use.
pub out_of_bounds : FlowTable → ℤ → Bool
out_of_bounds t timestamp =
    let offset = timestamp -ℤ t.base_timestamp_seconds in
    ltb 0 t.num_elements
    && (ltb_ℤ flow_table_max_update_offset offset || ltb_ℤ offset flow_table_min_update_offset)

-- `flow_table_process_flow`: the new table and the flow id that is returned.
pub process_flow : Platform → FlowTable → FlowEntry → ℤ → FlowTable × ℕ
process_flow p t new_entry timestamp =
    if out_of_bounds t timestamp
    then (record t { num_dropped_flows = t.num_dropped_flows + 1 }, FlowId.error)
    else finish new_entry timestamp (probe_loop p new_entry timestamp ht_num_probes 0 t none)
