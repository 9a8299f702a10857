-- ===== src/Devices.antt =====
-- src/device_throughput_table.h and src/device_throughput_table.c: the bytes of each device, for the
-- frequent updates.
pub mod Sums
pub mod Writes
use bismark_passive.Prelude.{
  ℕ, ◌+◌, ◌%◌, ◌^◌, Option, none, some, List, [], ◌∷◌, if◌then◌else◌, leb, get_or, set, take,
  same_bytes, replicate,
}
use bismark_passive.Prelude.Int.{ℤ, pos, negsuc, to_int32}
use bismark_passive.Prelude.Printf.{◌>>=◌, blank_line, Call, Printf, int, str}
use bismark_passive.Constants.{device_throughput_table_size}
use bismark_passive.Util.{Hex, null, overrun, text, buffer_to_hex}
use bismark_passive.Anonymization.{Hmac, Anonymizer, anonymize_mac}

-- `device_throughput_table_entry_t`
pub record DeviceEntry : Type 0 where
  pub mac_address : List ℕ
  pub bytes_transferred : ℕ

-- `device_throughput_table_t`
pub record DeviceTable : Type 0 where
  pub entries : List DeviceEntry
  pub length : ℕ

abbrev pub no_device : DeviceEntry
no_device = record { mac_address = replicate 6 0; bytes_transferred = 0 }

abbrev pub device_throughput_table_init : DeviceTable → DeviceTable
device_throughput_table_init t = record t { length = 0 }

-- The loop over the entries in use: the index of the device.
pub find_loop : List ℕ → ℕ → List DeviceEntry → Option ℕ
find_loop mac idx [] = none
find_loop mac idx (e ∷ es) =
    let rest = find_loop mac (idx + 1) es in if same_bytes e.mac_address mac then some idx else rest

-- `+=` on the entry of a device
abbrev pub more_bytes : DeviceEntry → ℕ → DeviceEntry
more_bytes e n = record e { bytes_transferred = (e.bytes_transferred + n) % 2 ^ 32 }

pub add_or_append : DeviceTable → List ℕ → ℕ → Option ℕ → DeviceTable × ℤ
add_or_append t mac n (some idx) = (
  record t { entries = set t.entries idx (more_bytes (get_or t.entries idx no_device) n) },
  pos 0,
)
add_or_append t mac n none = if leb device_throughput_table_size t.length then (t, negsuc 0) else (
  record {
    entries = set t.entries t.length (record { mac_address = mac; bytes_transferred = n });
    length = t.length + 1;
  },
  pos 0,
)

-- `device_throughput_table_record`
pub record_bytes : DeviceTable → List ℕ → ℕ → DeviceTable × ℤ
unfolding find_loop add_or_append
record_bytes t mac n = add_or_append t mac n (find_loop mac 0 (take t.length t.entries))

abbrev hex_text : Hex → Option (List ℕ)
hex_text (text s) = some s
hex_text _ = none

-- The number is printed as an `int32_t`.
pub device_line : List ℕ → ℕ → Call
device_line s n = record { format = "%s %PRId32\n"; args = str s ∷ int (to_int32 (pos n)) ∷ [] }

module _ (sha1_hmac : Hmac) (a : Anonymizer) {H : Type 0} (fprintf : Printf H) where
  pub write_devices : List DeviceEntry → H → Option H
  write_devices [] handle = some handle
  write_devices (e ∷ es) handle = do
    digest_mac ← anonymize_mac sha1_hmac a e.mac_address
    s ← hex_text (buffer_to_hex digest_mac)
    handle' ← fprintf handle (device_line s e.bytes_transferred)
    write_devices es handle'

  -- `device_throughput_table_write_update`; `none` is its -1.
  pub write_update : DeviceTable → H → Option H
  unfolding write_devices
  write_update t handle = do
    handle₁ ← fprintf handle (record { format = "%d\n"; args = int (pos t.length) ∷ [] })
    handle₂ ← write_devices (take t.length t.entries) handle₁
    fprintf handle₂ blank_line
