-- ===== src/Main/Frames/Fields.antt =====
-- What is extracted from a frame is what stands in it.
use bismark_passive.Prelude.{
  ℕ, ◌+◌, ◌*◌, ◌%◌, ◌≡◌, refl, Bool, true, false, ◌&&◌, ◌||◌, subst, inl, inr, Bool-cases, Option,
  none, some, List, ◌==◌, get_or,
}
use bismark_passive.Prelude.Int.{ℤ, pos, negsuc}
use bismark_passive.Prelude.Printf.{◌>>=◌}
use bismark_passive.Prelude.All.{OnSuccess, >>=-OnSuccess}
use bismark_passive.Bytes.{byte_at, read16, read32}
use bismark_passive.Flow.{FlowEntry}
use bismark_passive.Address.{AddressTable, no_mapping, same_mapping}
use bismark_passive.Address
use bismark_passive.Address.Ring
use bismark_passive.Address.Lookup.{lookup_id, lookup-IsValid}
use bismark_passive.Main.{Build}
use bismark_passive.Main.Frames.{
  Extracted, unextracted, with_ports, tcp_packet, udp_packet, transport_packet, ip_packet,
  ipproto_tcp, ipproto_udp, ns_defaultport,
}

-- A protocol whose header begins with two ports.
abbrev pub has_ports : ℕ → Bool
has_ports protocol = protocol == 6 || protocol == 17

-- The two numbers behind an IP header of so many words.
pub record Ports (bytes : List ℕ) (e : FlowEntry) : Type 0 where
  pub version_ihl : ℕ
  pub first_byte : byte_at bytes 14 ≡ some version_ihl
  pub source : read16 bytes (14 + version_ihl % 16 * 4) ≡ some e.port_source
  pub destination : read16 bytes (14 + version_ihl % 16 * 4 + 2) ≡ some e.port_destination

-- The entry of a flow has the fields of the frame's IPv4 header, and of its transport header if that
-- has ports; otherwise the ports are 0.
pub record Describes (bytes : List ℕ) (e : FlowEntry) : Type 0 where
  pub protocol : byte_at bytes 23 ≡ some e.transport_protocol
  pub ip_source : read32 bytes 26 ≡ some e.ip_source
  pub ip_destination : read32 bytes 30 ≡ some e.ip_destination
  pub ports : has_ports e.transport_protocol ≡ true → Ports bytes e
  pub no_ports :
      has_ports e.transport_protocol ≡ false → (e.port_source ≡ 0) × (e.port_destination ≡ 0)

-- The id of a device is the index of the pair of the packet's destination and the frame's.
abbrev pub Device : List ℕ → AddressTable → Extracted → Type 0
Device dhost addresses x =
    (i : ℕ)
    → x.mac_id ≡ pos i
    → same_mapping (get_or addresses.entries i no_mapping) x.flow_entry.ip_destination dhost ≡ true

-- The headers that the entry is filled from, as far as they are read before the ports.
abbrev Fields : List ℕ → ℕ → ℕ → Extracted → Type 0
Fields bytes kind version_ihl x =
    (byte_at bytes 14 ≡ some version_ihl)
    × (byte_at bytes 23 ≡ some x.flow_entry.transport_protocol)
    × (read32 bytes 26 ≡ some x.flow_entry.ip_source)
    × (read32 bytes 30 ≡ some x.flow_entry.ip_destination)
    × (x.flow_entry.port_source ≡ 0)
    × (x.flow_entry.port_destination ≡ 0)
    × (x.mac_id ≡ negsuc 0)
    × (x.ether_type ≡ kind)

-- A chain that succeeds has the result of its first step.
pub bind_first {ℓ} :
    {A B : Type ℓ} (Q : B → Type ℓ) (o : Option A) (f : A → Option B)
    → ((a : A) → o ≡ some a → OnSuccess Q (f a))
    → OnSuccess Q (o >>= f)
bind_first Q none f later = tt
bind_first Q (some a) f later = later a refl

no_index : (z : ℤ) (i : ℕ) → z ≡ negsuc 0 → z ≡ pos i → ⊥
no_index z i e e' = cc

-- The result of a lookup is the index of what was looked up, or no index.
lookup-same_mapping :
    (t : AddressTable) (ip : ℕ) (mac : List ℕ) (i : ℕ)
    → Ring.IsValid t
    → (Address.lookup t ip mac).1 ≡ pos i
    → same_mapping (get_or (Address.lookup t ip mac).0.entries i no_mapping) ip mac ≡ true
lookup-same_mapping t ip mac i v e = elim (lookup_id t ip mac v) [
  | inl (public, none_there) ↦ absurd (no_index _ i none_there e)
  | inr (private, (j, is, found)) ↦
      let same : j ≡ i = cc in
      subst
        (λ (k : ℕ).
          same_mapping (get_or (Address.lookup t ip mac).0.entries k no_mapping) ip mac ≡ true)
        same found
]

module _ (build : Build) (bytes : List ℕ) (cap_length kind : ℕ) where
  abbrev pub Good : List ℕ → AddressTable × Extracted → Type 0
  Good dhost r = Describes bytes r.1.flow_entry × Device dhost r.0 r.1 × (r.1.ether_type ≡ kind)

  with_ports-Describes :
      (version_ihl source dest : ℕ) (x : Extracted)
      → Fields bytes kind version_ihl x
      → has_ports x.flow_entry.transport_protocol ≡ true
      → read16 bytes (14 + version_ihl % 16 * 4) ≡ some source
      → read16 bytes (14 + version_ihl % 16 * 4 + 2) ≡ some dest
      → Describes bytes (with_ports x source dest).flow_entry
  with_ports-Describes version_ihl source dest x f ported e₁ e₂ = record {
    protocol = f.1;
    ip_source = f.2;
    ip_destination = f.3;
    ports =
        λ _. record { version_ihl = version_ihl; first_byte = f.0; source = e₁; destination = e₂ };
    no_ports = λ e. cc;
  }

  tcp_packet-Good :
      (version_ihl : ℕ) (dhost : List ℕ) (t : AddressTable) (x : Extracted)
      → Fields bytes kind version_ihl x
      → has_ports x.flow_entry.transport_protocol ≡ true
      → OnSuccess
          (λ x'. Good dhost (t, x'))
          (tcp_packet build bytes cap_length (14 + version_ihl % 16 * 4) x)
  unfolding tcp_packet
  tcp_packet-Good version_ihl dhost t x f ported =
      let header : ℕ = 14 + version_ihl % 16 * 4 in
      let Q : Extracted → Type 0 = λ x'. Good dhost (t, x') in
      bind_first Q (read16 bytes header) _ λ source e₁.
        bind_first Q (read16 bytes (header + 2)) _ λ dest e₂.
          let described = with_ports-Describes version_ihl source dest x f ported e₁ e₂ in
          elim (Bool-cases (build.http_url && dest == 80)) [
            | inl request ↦ rw request (
                bind_first Q (byte_at bytes (header + 12)) _
                  λ offset_bits _. (described, λ i e. absurd (no_index x.mac_id i f.6 e), f.7))
            | inr other ↦ rw other (described, λ i e. absurd (no_index x.mac_id i f.6 e), f.7)
          ]

  udp_packet-Good :
      (version_ihl : ℕ) (dhost : List ℕ) (t : AddressTable) (x : Extracted)
      → Ring.IsValid t
      → Fields bytes kind version_ihl x
      → has_ports x.flow_entry.transport_protocol ≡ true
      → OnSuccess
          (Good dhost)
          (udp_packet build bytes cap_length (14 + version_ihl % 16 * 4) dhost t x)
  unfolding udp_packet
  udp_packet-Good version_ihl dhost t x v f ported =
      let header : ℕ = 14 + version_ihl % 16 * 4 in
      bind_first (Good dhost) (read16 bytes header) _ λ source e₁.
        bind_first (Good dhost) (read16 bytes (header + 2)) _ λ dest e₂.
          let described = with_ports-Describes version_ihl source dest x f ported e₁ e₂ in
          elim (Bool-cases (source == ns_defaultport)) [
            | inl response ↦ rw response (
              described,
              λ i e. lookup-same_mapping t x.flow_entry.ip_destination dhost i v e,
              f.7,
            )
            | inr other ↦ rw other (described, λ i e. absurd (no_index x.mac_id i f.6 e), f.7)
          ]

  transport_packet-Good :
      (version_ihl : ℕ) (dhost : List ℕ) (t : AddressTable) (x : Extracted)
      → Ring.IsValid t
      → Fields bytes kind version_ihl x
      → OnSuccess
          (Good dhost)
          (transport_packet build bytes cap_length (14 + version_ihl % 16 * 4) dhost t x)
  unfolding transport_packet
  transport_packet-Good version_ihl dhost t x v f =
      let protocol = x.flow_entry.transport_protocol in
      elim (Bool-cases (protocol == ipproto_tcp)) [
        | inl tcp ↦
            let ported : has_ports protocol ≡ true = rw tcp refl in
            rw tcp (
              >>=-OnSuccess (λ x'. Good dhost (t, x')) (Good dhost) _ _
                (tcp_packet-Good version_ihl dhost t x f ported) λ x' good. good)
        | inr not_tcp ↦ elim (Bool-cases (protocol == ipproto_udp)) [
          | inl udp ↦
              let ported : has_ports protocol ≡ true = rw (not_tcp, udp) refl in
              rw (not_tcp, udp) (udp_packet-Good version_ihl dhost t x v f ported)
          | inr other ↦
              let portless : has_ports protocol ≡ false = rw (not_tcp, other) refl in
              rw (not_tcp, other)
                (
                  record {
                    protocol = f.1;
                    ip_source = f.2;
                    ip_destination = f.3;
                    ports = λ e. cc;
                    no_ports = λ _. (f.4, f.5);
                  },
                  λ i e. absurd (no_index x.mac_id i f.6 e),
                  f.7,
                )
        ]
      ]

  pub ip_packet-Good :
      (shost dhost : List ℕ) (t : AddressTable)
      → Ring.IsValid t
      → OnSuccess (Good dhost) (ip_packet build bytes cap_length shost dhost t (unextracted kind))
  unfolding ip_packet
  ip_packet-Good shost dhost t v = bind_first (Good dhost) (byte_at bytes 14) _ λ version_ihl e₁.
      bind_first (Good dhost) (byte_at bytes 23) _ λ protocol e₂.
        bind_first (Good dhost) (read32 bytes 26) _ λ saddr e₃.
          bind_first (Good dhost) (read32 bytes 30) _ λ daddr e₄.
            transport_packet-Good version_ihl dhost _ _
              (lookup-IsValid _ daddr dhost (lookup-IsValid t saddr shost v))
              (e₁, e₂, e₃, e₄, refl, refl, refl, refl)
