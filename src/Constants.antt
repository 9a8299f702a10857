-- ===== src/Constants.antt =====
-- src/constants.h: the sizes of the tables, the reserved flow ids, and the periods.
pub mod FlowId
use bismark_passive.Prelude.{ℕ, ◌+◌, ◌-◌}
use bismark_passive.Prelude.Int.{ℤ, pos, negsuc}

abbrev pub packet_data_buffer_entries : ℕ
packet_data_buffer_entries = 65536

abbrev pub flow_table_entries : ℕ
flow_table_entries = FlowId.last_unreserved - FlowId.first_unreserved + 1

abbrev pub dns_table_a_entries : ℕ
dns_table_a_entries = 1024

abbrev pub dns_table_cname_entries : ℕ
dns_table_cname_entries = 1024

abbrev pub http_table_url_entries : ℕ
http_table_url_entries = 1024

abbrev pub mac_table_entries : ℕ
mac_table_entries = 256

abbrev pub flow_table_expiration_seconds : ℤ
flow_table_expiration_seconds = pos 1800

abbrev pub flow_table_max_update_offset : ℤ
flow_table_max_update_offset = pos 32767

-- INT16_MIN, -32768
abbrev pub flow_table_min_update_offset : ℤ
flow_table_min_update_offset = negsuc 32767

abbrev pub flow_threshold : ℕ
flow_threshold = 10

abbrev pub drop_statistics_maximum_packet_size : ℕ
drop_statistics_maximum_packet_size = 1500

abbrev pub device_throughput_table_size : ℕ
device_throughput_table_size = 32

abbrev pub ht_num_probes : ℕ
ht_num_probes = 3

abbrev pub num_micros_per_second : ℕ
num_micros_per_second = 1000000

abbrev pub bloomsize : ℕ
bloomsize = 2500000

abbrev pub numhash : ℕ
numhash = 2

abbrev pub max_url : ℕ
max_url = 1024
