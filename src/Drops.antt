-- ===== src/Drops.antt =====
-- src/drop_statistics.h and src/drop_statistics.c: how many packets of each size were dropped.
pub mod Counts
use bismark_passive.Prelude.{
  ℕ, zero, suc, ◌+◌, ◌/◌, ◌%◌, ◌^◌, Option, none, some, List, [], ◌∷◌, ltb, if◌then◌else◌, get_or,
  set, take,
}
use bismark_passive.Prelude.Printf.{◌>>=◌, blank_line, Call, Printf, uint}
use bismark_passive.Constants.{drop_statistics_maximum_packet_size}
use bismark_passive.Platform.{Platform}

-- `drop_statistics_t`: the array `packet_sizes` of 1501 counters
pub record DropStatistics : Type 0 where
  pub packet_sizes : List ℕ

pub clear : ℕ → List ℕ → List ℕ
clear zero ns = ns
clear (suc k) [] = []
clear (suc k) (n ∷ ns) = 0 ∷ clear k ns

-- `drop_statistics_init`: `memset` over as many bytes as the pointer has, 4 for each counter
pub drop_statistics_init : Platform → DropStatistics → DropStatistics
unfolding clear
drop_statistics_init p s = record { packet_sizes = clear (p.pointer_size / 4) s.packet_sizes }

-- `drop_statistics_process_packet`
pub process_packet : DropStatistics → ℕ → DropStatistics
process_packet s size =
    let idx =
      (if ltb drop_statistics_maximum_packet_size size
        then drop_statistics_maximum_packet_size
        else size) in
    record { packet_sizes = set s.packet_sizes idx ((get_or s.packet_sizes idx 0 + 1) % 2 ^ 32) }

pub count_line : ℕ → ℕ → Call
count_line idx count = record { format = "%PRIu32 %PRIu32\n"; args = uint idx ∷ uint count ∷ [] }

module _ {H : Type 0} (gzprintf : Printf H) where
  -- The body of the loop.
  pub write_count : ℕ → ℕ → H → Option H
  write_count idx count handle =
      if ltb 0 count then gzprintf handle (count_line idx count) else some handle

  pub write_counts : ℕ → List ℕ → H → Option H
  unfolding write_count
  write_counts idx [] handle = some handle
  write_counts idx (n ∷ ns) handle = write_count idx n handle >>= write_counts (idx + 1) ns

  -- `drop_statistics_write_update`, over the indices below the largest size; `none` is its -1.
  pub write_update : DropStatistics → H → Option H
  unfolding write_counts
  write_update s handle =
      write_counts 0 (take drop_statistics_maximum_packet_size s.packet_sizes) handle >>= λ handle'.
      gzprintf handle' blank_line
