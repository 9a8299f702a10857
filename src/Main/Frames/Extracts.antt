-- ===== src/Main/Frames/Extracts.antt =====
-- What a frame as a whole leaves to its caller.
use bismark_passive.Prelude.{
  ℕ, ◌≡◌, sym, ap, ◌∙◌, true, false, subst, inl, inr, Bool-cases, some, List, ◌==◌,
}
use bismark_passive.Prelude.Int.{pos}
use bismark_passive.Prelude.Printf.{◌>>=◌}
use bismark_passive.Prelude.All.{OnSuccess, >>=-OnSuccess}
use bismark_passive.Bytes.{read16, array_at}
use bismark_passive.Ethertype
use bismark_passive.Address.{AddressTable}
use bismark_passive.Address.Ring
use bismark_passive.Devices.{DeviceTable}
use bismark_passive.Main.{Build, Daemon}
use bismark_passive.Main.Frames.{Extracted, unextracted, ip_packet, get_flow_entry_for_packet}
use bismark_passive.Main.Frames.Fields.{bind_first, Describes, Device, Good, ip_packet-Good}

-- What a frame leaves: the type and, for IPv4, the flow and perhaps a device.
pub record FromFrame (bytes : List ℕ) (r : Daemon × Extracted) : Type 0 where
  pub kind : read16 bytes 12 ≡ some r.1.ether_type
  pub described : (r.1.ether_type == Ethertype.ip) ≡ true → Describes bytes r.1.flow_entry
  pub device :
      (dhost : List ℕ) → array_at bytes 0 6 ≡ some dhost → Device dhost r.0.address_table r.1
  pub only_ip : (i : ℕ) → r.1.mac_id ≡ pos i → (r.1.ether_type == Ethertype.ip) ≡ true

-- In the record of the state only the two tables differ.
abbrev with_tables : Daemon → DeviceTable → AddressTable → Daemon
with_tables d devices addresses = record d {
  device_throughput_table = devices;
  address_table = addresses;
}

from_ip :
    (build : Build) (bytes shost dhost : List ℕ) (cap_length kind : ℕ) (d : Daemon)
    (devices : DeviceTable)
    → Ring.IsValid d.address_table
    → read16 bytes 12 ≡ some kind
    → array_at bytes 0 6 ≡ some dhost
    → (kind == Ethertype.ip) ≡ true
    → OnSuccess (FromFrame bytes) (
        ip_packet build bytes cap_length shost dhost d.address_table (unextracted kind) >>= λ r.
        some (with_tables d devices r.0, r.1))
from_ip build bytes shost dhost cap_length kind d devices v is to ip =
    let Q : Daemon × Extracted → Type 0 = FromFrame bytes in
    >>=-OnSuccess (Good build bytes cap_length kind dhost) Q
      (ip_packet build bytes cap_length shost dhost d.address_table (unextracted kind)) _
      (ip_packet-Good build bytes cap_length kind shost dhost d.address_table v)
      λ r (described, device, same). record {
        kind = is ∙ ap some (sym same);
        described = λ _. described;
        device = λ dhost' e.
            let same' : dhost ≡ dhost' = cc in
            subst (λ (h : List ℕ). Device h r.0 r.1) same' device;
        only_ip = λ _ _. rw same ip;
      }

from_other :
    (bytes : List ℕ) (kind : ℕ) (d : Daemon) (devices : DeviceTable)
    → read16 bytes 12 ≡ some kind
    → (kind == Ethertype.ip) ≡ false
    → FromFrame bytes (record d { device_throughput_table = devices }, unextracted kind)
from_other bytes kind d devices is other = record {
  kind = is;
  described = λ e. cc;
  device = λ dhost e i e'. cc;
  only_ip = λ i e. cc;
}

pub get_flow_entry_for_packet-FromFrame :
    (build : Build) (bytes : List ℕ) (cap_length full_length : ℕ) (d : Daemon)
    → Ring.IsValid d.address_table
    → OnSuccess (FromFrame bytes) (get_flow_entry_for_packet build bytes cap_length full_length d)
unfolding get_flow_entry_for_packet
get_flow_entry_for_packet-FromFrame build bytes cap_length full_length d v =
    let Q : Daemon × Extracted → Type 0 = FromFrame bytes in
    bind_first Q (array_at bytes 0 6) _ λ dhost e₁. bind_first Q (array_at bytes 6 6) _ λ shost e₂.
      bind_first Q (read16 bytes 12) _ λ kind e₃. elim (Bool-cases (kind == Ethertype.ip)) [
        | inl ip ↦ rw ip (from_ip build bytes shost dhost cap_length kind d _ v e₃ e₁ ip)
        | inr other ↦ rw other (from_other bytes kind d _ e₃ other)
      ]
