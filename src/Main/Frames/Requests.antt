-- ===== src/Main/Frames/Requests.antt =====
-- Where a request is looked for, and what becomes of short frames.
use bismark_passive.Prelude.{
  ℕ, ◌+◌, ◌*◌, ◌/◌, ◌<◌, ◌≡◌, refl, ap, true, inl, inr, Option-cases, none, some, List, arith,
  length, ltb, if◌then◌else◌,
}
use bismark_passive.Bytes.{byte_at, read16, read16-none, array_at}
use bismark_passive.Main.{Build, Daemon}
use bismark_passive.Main.Frames.{
  Extracted, with_ports, with_request, skipped, tcp_packet, get_flow_entry_for_packet,
  tcp_header_size,
}

skipped_lem :
    (doff : ℕ)
    → tcp_header_size + skipped doff ≡ (if ltb 5 doff then 4 * doff else 4 * doff + tcp_header_size)
unfolding skipped
skipped_lem doff = ground arith

-- In a build with the URLs of requests, a segment to port 80 has its request looked for behind the
-- TCP header, by its data offset, if the header has options; behind a header without options, of 5
-- words, it is looked for 20 bytes too late.
pub tcp_packet_lem :
    (build : Build) (bytes : List ℕ) (cap_length header source offset_bits : ℕ) (x : Extracted)
    → build.http_url ≡ true
    → read16 bytes header ≡ some source
    → read16 bytes (header + 2) ≡ some 80
    → byte_at bytes (header + 12) ≡ some offset_bits
    → let doff = offset_bits / 16 in
      let at = header + (if ltb 5 doff then 4 * doff else 4 * doff + tcp_header_size) in
      tcp_packet build bytes cap_length header x
      ≡ some (with_request (with_ports x source 80) at cap_length)
unfolding tcp_packet
tcp_packet_lem build bytes cap_length header source offset_bits x on e₁ e₂ e₃ =
    let doff = offset_bits / 16 in
    let is : header + tcp_header_size + skipped doff
        ≡ header + (if ltb 5 doff then 4 * doff else 4 * doff + tcp_header_size) =
      omega (arith, skipped_lem doff) in
    rw (e₁, e₂, on, e₃) (ap (λ at. some (with_request (with_ports x source 80) at cap_length)) is)

-- The type of a frame is read whatever its length is: with fewer than 14 bytes in memory, behind it.
pub get_flow_entry_for_packet-short :
    (build : Build) (bytes : List ℕ) (cap_length full_length : ℕ) (d : Daemon)
    → length bytes < 14
    → get_flow_entry_for_packet build bytes cap_length full_length d ≡ none
unfolding get_flow_entry_for_packet
get_flow_entry_for_packet-short build bytes cap_length full_length d short =
    let no_type = read16-none bytes 12 short in
    elim (Option-cases (array_at bytes 0 6)) [
      | inl e ↦ rw e refl
      | inr (dhost, e) ↦ elim (Option-cases (array_at bytes 6 6)) [
        | inl e' ↦ rw (e, e') refl
        | inr (shost, e') ↦ rw (e, e', no_type) refl
      ]
    ]
