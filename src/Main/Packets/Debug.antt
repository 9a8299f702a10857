-- ===== src/Main/Packets/Debug.antt =====
-- The statistics that `process_packet` prints in front of a packet, unless it is built without
-- debugging. They change its static counter only.
use bismark_passive.Prelude.{ℕ, ◌+◌, ◌%◌, List, [], ◌∷◌, ◌++◌, ◌==◌, if◌then◌else◌}
use bismark_passive.Prelude.Int.{pos}
use bismark_passive.Prelude.Printf.{Call, int, uint}
use bismark_passive.Main.{Daemon}
use bismark_passive.Main.Updates.{Statistics}

abbrev rule : Call
rule = record { format = "-----\n"; args = [] }

-- `++packets_received`
abbrev pub count_received : ℕ → ℕ
count_received packets_received = packets_received + 1

-- Once for every thousand packets.
pub received_statistics : Statistics → Daemon → List Call
received_statistics statistics d =
    rule
    ∷ record { format = "STATISTICS (printed once for every thousand packets)\n"; args = [] }
    ∷ record {
      format = "Libpcap has dropped %d packets since process creation\n";
      args = uint statistics.ps_drop ∷ [];
    }
    ∷ record {
      format = "There are %d entries in the flow table\n";
      args = int (pos d.flow_table.num_elements) ∷ [];
    }
    ∷ record {
      format = "The flow table has dropped %d flows\n";
      args = int (pos d.flow_table.num_dropped_flows) ∷ [];
    }
    ∷ record {
      format = "The flow table has expired %d flows\n";
      args = int (pos d.flow_table.num_expired_flows) ∷ [];
    }
    ∷ rule
    ∷ []

pub overflow_statistics : Daemon → List Call
overflow_statistics d =
    record {
      format = "%d packets have overflowed the packet table!\n";
      args = uint d.packet_data.discarded_by_overflow ∷ [];
    }
    ∷ []

-- What is printed, with the count of packets that includes this one.
pub debug_statistics : ℕ → Statistics → Daemon → List Call
unfolding received_statistics overflow_statistics
debug_statistics packets_received statistics d =
    (if packets_received % 1000 == 0 then received_statistics statistics d else [])
    ++ (if d.packet_data.discarded_by_overflow % 1000 == 1 then overflow_statistics d else [])
