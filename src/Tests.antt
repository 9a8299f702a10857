-- ===== src/Tests.antt =====
-- The hash, hexadecimal text, digests of hardware addresses and URLs, drop statistics, devices and
-- upload failures on concrete input.
use bismark_passive.Prelude.{
  ℕ, ◌+◌, ◌≡◌, ◌∙◌, true, some, none, List, [], ◌∷◌, arith, ltb, if◌then◌else◌, length, replicate,
  length-replicate,
}
use bismark_passive.Prelude.Int.{ℤ, pos, negsuc}
use bismark_passive.Constants.{drop_statistics_maximum_packet_size}
use bismark_passive.Samples.{hmac, length-hmac, anonymizer}
use bismark_passive.Util.{buffer_to_hex, text, overrun, null}
use bismark_passive.Prelude.{◌||◌}
use bismark_passive.Util.{is_address_private}
use bismark_passive.Util.Ranges.{between, is_address_private-ranges}
use bismark_passive.Util.Encoding.{hex_digits, buffer_to_hex_lem}
use bismark_passive.Drops.{DropStatistics}
use bismark_passive.Devices.{DeviceTable, record_bytes, no_device}
use bismark_passive.Devices.Sums.{devices, known, add, record_bytes_lem}
use bismark_passive.Devices.Sums
use bismark_passive.Constants.{device_throughput_table_size}
use bismark_passive.Prelude.{false, leb, set, length-set}
use bismark_passive.Http.{strdup, url_text}
use bismark_passive.Http.Digests.{zero_only_last, url_text-strdup}
use bismark_passive.Prelude.Printf.{◌>>=◌}
use bismark_passive.Uploads.{UploadFailures}

abbrev two_bytes : List ℕ
two_bytes = 0x0f ∷ 0xa5 ∷ []

buffer_to_hex_lem_example : buffer_to_hex two_bytes ≡ (
    if ltb (length two_bytes) 512
    then text (hex_digits two_bytes)
    else if ltb (length two_bytes) 1024
    then overrun
    else null)
buffer_to_hex_lem_example = buffer_to_hex_lem two_bytes

abbrev mac : List ℕ
mac = 0 ∷ 17 ∷ 34 ∷ 51 ∷ 68 ∷ 85 ∷ []

abbrev dropped : DropStatistics
dropped = record { packet_sizes = replicate (drop_statistics_maximum_packet_size + 1) 4 }

abbrev unset : UploadFailures
unset = record { num_failures = pos 5; valid = true }

abbrev readings : List ℤ
readings = pos 2 ∷ negsuc 0 ∷ pos 2 ∷ []

-- one device that is about to wrap around
abbrev one_device : DeviceTable
one_device = record {
  entries =
      set (replicate device_throughput_table_size no_device) 0
        (record { mac_address = mac; bytes_transferred = 4294967000 });
  length = 1;
}

record_bytes_lem_example :
    let (t', result) = record_bytes one_device mac 1500 in
    let refused =
      (if known mac (devices one_device)
        then false
        else leb device_throughput_table_size one_device.length) in
    Sums.IsValid t'
    × (devices t' ≡ (if refused then devices one_device else add mac 1500 (devices one_device)))
    × (result ≡ (if refused then negsuc 0 else pos 0))
record_bytes_lem_example = record_bytes_lem one_device mac 1500 (record {
  width =
      length-set (replicate device_throughput_table_size no_device) 0 _
      ∙ length-replicate device_throughput_table_size no_device;
  within = omega arith;
})

-- a digest with a 0 in it
abbrev digest : List ℕ
digest = hmac anonymizer.seed (0 ∷ 47 ∷ [])

url_text-strdup_example :
    (strdup digest >>= url_text)
    ≡ (if zero_only_last digest then some (hex_digits digest) else none)
url_text-strdup_example = url_text-strdup digest (length-hmac anonymizer.seed (0 ∷ 47 ∷ []))

is_address_private-ranges_example : is_address_private 0xac1f_0001 ≡ (
    between 0x0a00_0000 0x0aff_ffff 0xac1f_0001
    || between 0xac10_0000 0xac1f_ffff 0xac1f_0001
    || between 0xc0a8_0000 0xc0a8_ffff 0xac1f_0001)
is_address_private-ranges_example = is_address_private-ranges 0xac1f_0001 (omega arith)
