-- ===== src/Main/Updates/FrequentReport.antt =====
-- What a frequent update contains.
use bismark_passive.Prelude.{List, [], ◌∷◌}
use bismark_passive.Prelude.Int.{ℤ, pos}
use bismark_passive.Prelude.Printf.{Call, Printf, str}
use bismark_passive.Util.Encoding.{hex_digits}
use bismark_passive.Devices.Writes.{device_lines}
use bismark_passive.Main.{Libraries, Daemon}
use bismark_passive.Main.Updates.{number_line, timestamp_line, frequent_file_format_version}

abbrev address_line : Daemon → Call
address_line d = record { format = "%s\n\n"; args = str (hex_digits d.bismark_mac) ∷ [] }

-- The version, the time, the digest of the router's address, and the sums of the devices.
pub frequent_report : {F : Type 0} → Libraries → Printf F → Daemon → ℤ → List Call
frequent_report libs fprintf d now =
    number_line libs fprintf (pos frequent_file_format_version)
    ∷ timestamp_line libs fprintf now
    ∷ address_line d
    ∷ device_lines libs.sha1_hmac d.anonymizer d.device_throughput_table
