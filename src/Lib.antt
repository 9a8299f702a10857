-- ===== src/Lib.antt =====
-- bismark-passive, the passive measurement daemon of the BISmark home routers: it captures the packet
-- headers that pass a router, keeps for each update period the packets, their flows and the devices
-- behind them, anonymizes what identifies people, and writes a compressed update every 30 seconds.
--
-- Each packet goes first to the flow table, which returns the packet's flow id, and to the packet
-- series, which stores its time, size and flow id; the address table learns the hardware address of
-- each device of the home network, and the parser of DNS responses fills the DNS table. At an alarm an
-- update writes each table in turn, marks what it has written, and begins the next period.
--
-- What models what (a C function keeps its name, less the prefix that its file repeats):
-- - Constants, Constants/FlowId: src/constants.h, the sizes and the reserved flow ids.
-- - Platform: what C leaves to the compiler and the machine, a parameter of the components: the bytes
--   of integers in memory, the conversions and the rounding of `double`, the size of a pointer, and
--   what is read of an array whose block has ended, as `dns_table_write_update` does.
-- - Hashing: src/hashing.h, `fnv_hash_32`.
-- - Util, Util/Encoding, Util/Ranges: src/util.c, `buffer_to_hex` and `is_address_private`.
-- - Anonymization: src/anonymization.c. Its static variables are the record `Anonymizer`; `sha1_hmac`
--   of the PolarSSL copy is a parameter.
-- - Flow: src/flow_table.h and `flow_table_process_flow` of src/flow_table.c; `probe_loop` is its
--   loop, `expire`, `refresh` and `insert_flow` are the blocks in it and behind it. Flow/Update: the
--   other functions of the file. The files below them hold the proofs: Flow/Valid the invariant,
--   Flow/Ids and Flow/Later what the returned ids mean, Flow/Packets the packet counter, Flow/Update/Advance the
--   move of the base timestamp, Flow/Update/Writes what is written.
-- - Packets: src/packet_series.h and src/packet_series.c; Packets/Times decodes the distances.
-- - Address: src/address_table.h and src/address_table.c; Address/Lookup has the specification of the
--   ring, a list of the last pairs, newest first.
-- - Drops: src/drop_statistics.h and src/drop_statistics.c.
-- - Whitelist: src/whitelist.h and src/whitelist.c; Whitelist/Entries says what a line of
--   its file is, Whitelist/Names which names a line covers.
-- - Bloom: src/bloom-whitelist.h and src/bloom-whitelist.c.
-- - Dns: src/dns_table.h and src/dns_table.c; it asks Whitelist and Bloom which names to publish.
-- - Devices: src/device_throughput_table.h and src/device_throughput_table.c.
-- - Http: src/http_table.h, src/http_table.c and `add_url` of src/http_parser.c. HttpParser: the rest
--   of src/http_parser.c; `strtok` is written out for the separator that it is called with.
-- - Bytes: reads of captured memory in network byte order.
-- - DnsParser: src/dns_parser.c, with `dn_expand` of the resolver library as a parameter.
--   DnsParser/Sections parses a message first and adds its records then; DnsParser/References says
--   what the records of the DNS table refer to.
-- - Ethertype: the types of src/ethertype.h that the program tells apart.
-- - Main: src/main.c, its static variables as the record `Daemon`. Main/Frames is
--   `get_flow_entry_for_packet`, Main/Packets `process_packet` (its statistics for debugging are in
--   Main/Packets/Debug), Main/Updates `write_update`, `write_frequent_update` and `write_flow_log`,
--   Main/Signals `handle_signals`, Main/Identity `initialize_bismark_id`, Main/Start `main` up to the
--   loop of libpcap. Main/Consistent is the invariant of the whole state; Main/Runs has the runs of
--   the program, packets and alarms in any order, and Main/Interleavings its executions by steps of
--   `process_packet`, with signals that arrive at any time.
-- - Hasher: src/hasher.c. BloomTest: src/bloom-test.c. Scanning: what they and Main/Identity use of
--   `scanf` and `printf`.
-- - Uploads: src/upload_failures.h and src/upload_failures.c.
-- - Prelude: the shared names, Boolean tests, lists as C arrays, signed integers with the conversions
--   to 16 and 32 bits, and calls of printf. Samples and the Tests modules run theorems on data.
--
-- Conventions: an array is a list of fixed length, a pointer that a function updates is an argument
-- and a result, and a failed call of gzprintf or fprintf ends the function with `none`, as the code
-- returns -1 (the program exits then). What a call prints is a format and its arguments; the handle
-- and the library behind it are a parameter of the functions that write. Unsigned fields wrap at
-- their width; `time_t`, `int64_t` times and the `int` counters of events are numbers without bounds.
--
-- Loops over an array are recursion on the list, loops over indices recursion on the number of rounds
-- that the code makes (3 probes, the length of the ring), so no fuel is needed.
--
-- Memory that holds a captured packet is a list of bytes, pointers into it are offsets, and a read
-- behind it gives `none`.
--
-- Not modelled: messages to the standard error output, and those that say what is being written; in
-- src/ethertype.h the types that the program does not use; in src/constants.h the options of libpcap
-- and the names of files that no call prints; src/sha1.c, src/sha1.h and src/polarssl_config.h, a
-- library; the tests.
pub mod Prelude
pub mod Constants
pub mod Platform
pub mod Hashing
pub mod Util
pub mod Scanning
pub mod Anonymization
pub mod Samples
pub mod Hasher
pub mod BloomTest
pub mod Flow
pub mod Packets
pub mod Address
pub mod Whitelist
pub mod Bloom
pub mod Bytes
pub mod Dns
pub mod DnsParser
pub mod Devices
pub mod Ethertype
pub mod Http
pub mod HttpParser
pub mod Drops
pub mod Main
pub mod Uploads
mod Tests
