-- ===== src/Main/Packets/Tests.antt =====
-- A DNS response on a new state.
use bismark_passive.Prelude.{◌+◌, ◌≡◌, refl, some, [], ◌∷◌, arith, List, ℕ}
use bismark_passive.Samples.{anonymizer}
use bismark_passive.Bytes.{byte_at, read16}
use bismark_passive.Main.{Daemon}
use bismark_passive.Main.Consistent.{Consistent, Unchanged}
use bismark_passive.Main.Frames.{tcp_packet, with_ports, with_request, unextracted}
use bismark_passive.Main.Frames.Requests.{tcp_packet_lem}
use bismark_passive.Main.Packets.{process_packet}
use bismark_passive.Main.Packets.Accounts.{Accounted, process_packet-Accounted}
use bismark_passive.Main.Packets.Keeps.{process_packet-returns}
use bismark_passive.Main.Start.{initialized_daemon}
use bismark_passive.Main.Start.Ready.{initialized_daemon-Ready}
use bismark_passive.Main.Packets.Samples.{header, frame-Readable}
use bismark_passive.Main.Samples.{
  identity, default_build, full_build, libraries, inputs, daemon, frame,
}

daemon-Consistent : Consistent libraries daemon
daemon-Consistent =
    (initialized_daemon-Ready default_build libraries inputs identity
      (record { domains = []; size = 0 }) anonymizer refl).consistent

process_packet-returns_example :
    (d' : Daemon) × (process_packet default_build libraries header frame daemon ≡ some d')
    × Unchanged libraries daemon d'
process_packet-returns_example =
    process_packet-returns default_build libraries header frame daemon frame-Readable
      daemon-Consistent refl

processed :
    (d' : Daemon) × (process_packet default_build libraries header frame daemon ≡ some d')
    × Unchanged libraries daemon d'
processed =
    process_packet-returns default_build libraries header frame daemon frame-Readable
      daemon-Consistent refl

process_packet-Accounted_example : Accounted default_build libraries header frame daemon processed.0
unfolding initialized_daemon
process_packet-Accounted_example =
    process_packet-Accounted default_build libraries header frame daemon processed.0 frame-Readable
      daemon-Consistent (omega arith) processed.1

-- The start of a TCP header to port 80 without options.
abbrev tcp : List ℕ
tcp = 4 ∷ 0 ∷ 0 ∷ 80 ∷ 0 ∷ 0 ∷ 0 ∷ 0 ∷ 0 ∷ 0 ∷ 0 ∷ 0 ∷ 80 ∷ []

source_port : read16 tcp 0 ≡ some 1024
unfolding read16 byte_at
source_port = refl

destination_port : read16 tcp (0 + 2) ≡ some 80
unfolding read16 byte_at
destination_port = refl

data_offset : byte_at tcp (0 + 12) ≡ some 80
unfolding byte_at
data_offset = refl

tcp_packet_lem_example :
    tcp_packet full_build tcp 13 0 (unextracted 2048)
    ≡ some (with_request (with_ports (unextracted 2048) 1024 80) 40 13)
tcp_packet_lem_example =
    tcp_packet_lem full_build tcp 13 0 1024 80 (unextracted 2048) refl source_port destination_port
      data_offset
