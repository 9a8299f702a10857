-- ===== src/Main/Packets/Samples.antt =====
-- A captured frame, on which the tests run the theorems.
use bismark_passive.Prelude.{◌≡◌, arith, length, length-append, length-replicate, replicate, ℕ}
use bismark_passive.Main.Packets.{PacketHeader}
use bismark_passive.Main.Packets.Stages.{Readable}
use bismark_passive.Main.Samples.{now, frame, response_start}

abbrev pub header : PacketHeader
header = record { ts = now; caplen = 90; len = 90 }

length-frame : length frame ≡ 102
length-frame =
    omega (arith, length-append response_start (replicate 60 0), length-replicate {A = ℕ} 60 0)

pub frame-Readable : Readable header frame
frame-Readable = record {
  headers = omega (arith, length-frame);
  slack = omega (arith, length-frame);
}
