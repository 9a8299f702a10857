-- ===== src/Devices/Writes.antt =====
-- `device_throughput_table_write_update`: what it prints.
use mathlib.Core.Path.{fun_ext}
use bismark_passive.Prelude.{
  ◌≤◌, ◌≡◌, refl, sym, ap, true, List, [], ◌∷◌, ◌++◌, map, arith, length, take, drop,
  length-take_le, ◌-◌, ◌%◌, ◌^◌, ltb, if◌then◌else◌,
}
use bismark_passive.Prelude.Int.{pos, negsuc, to_int32}
use bismark_passive.Prelude.Printf.{
  ◌>>=◌, >>=_some, Call, Printf, blank_line, int, str, put_all, put_all-append,
}
use bismark_passive.Util.Encoding.{hex_digits, buffer_to_hex-hex_digits}
use bismark_passive.Anonymization.{Hmac, Anonymizer, anonymize_mac, eth_alen}
use bismark_passive.Devices.{DeviceEntry, DeviceTable, device_line, write_devices, write_update}

module _ (sha1_hmac : Hmac) (a : Anonymizer) where
  -- The line of a device: the manufacturer's part of its address in clear, the rest hashed, and its sum
  -- modulo 2^32, with 2^32 taken off from 2^31 on.
  pub published_device : DeviceEntry → Call
  published_device e =
      let sum = e.bytes_transferred % 2 ^ 32 in
      record {
        format = "%s %PRId32\n";
        args =
            str (
              hex_digits
                (take eth_alen (take 3 e.mac_address ++ drop 3 (sha1_hmac a.seed e.mac_address))))
            ∷ int (if ltb sum (2 ^ 31) then pos sum else negsuc (2 ^ 32 - 1 - sum))
            ∷ [];
      }

  abbrev pub count_line : DeviceTable → Call
  count_line t = record { format = "%d\n"; args = int (pos t.length) ∷ [] }

  pub device_lines : DeviceTable → List Call
  device_lines t =
      count_line t ∷ (map published_device (take t.length t.entries) ++ blank_line ∷ [])

  module _ {H : Type 0} (fprintf : Printf H) (init : a.initialized ≡ true) where
    write_devices-lines :
        (es : List DeviceEntry) (h : H)
        → write_devices sha1_hmac a fprintf es h ≡ put_all fprintf h (map published_device es)
    unfolding write_devices published_device device_line to_int32 anonymize_mac
    write_devices-lines [] h = refl
    write_devices-lines (e ∷ es) h =
        let digest =
          take eth_alen (take 3 e.mac_address ++ drop 3 (sha1_hmac a.seed e.mac_address)) in
        let short : length digest ≤ 511 = omega (
          arith,
          length-take_le eth_alen (take 3 e.mac_address ++ drop 3 (sha1_hmac a.seed e.mac_address)),
        ) in
        rw (init, buffer_to_hex-hex_digits digest short)
          (ap (λ f. fprintf h (published_device e) >>= f) (fun_ext (write_devices-lines es)))

    pub devices-write_update :
        (t : DeviceTable) (h : H)
        → write_update sha1_hmac a fprintf t h ≡ put_all fprintf h (device_lines t)
    unfolding write_update device_lines
    devices-write_update t h =
        ap (λ f. fprintf h (count_line t) >>= f)
          (fun_ext λ h₁.
            rw
              (
                write_devices-lines (take t.length t.entries) h₁,
                put_all-append fprintf h₁ (map published_device (take t.length t.entries))
                    (blank_line ∷ []),
              )
              (ap (λ f. put_all fprintf h₁ (map published_device (take t.length t.entries)) >>= f)
                (fun_ext λ h₂. sym (>>=_some (fprintf h₂ blank_line)))))
