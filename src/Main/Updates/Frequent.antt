-- ===== src/Main/Updates/Frequent.antt =====
-- Frequent updates keep the invariant of the whole state.
use bismark_passive.Prelude.{refl, arith}
use bismark_passive.Prelude.Int.{pos}
use bismark_passive.Prelude.Printf.{Printf}
use bismark_passive.Prelude.All.{OnSuccess, after}
use bismark_passive.Util.{buffer_to_hex}
use bismark_passive.Devices
use bismark_passive.Main.{Libraries, Daemon}
use bismark_passive.Main.Consistent.{Consistent, Unchanged}
use bismark_passive.Main.Updates.{
  Answers, Staged, write_frequent_update, number_line, timestamp_line, mac_line,
  frequent_file_format_version,
}
use bismark_passive.Main.Updates.Keeps.{staged_if-OnSuccess}

-- A frequent update leaves the number of the next update as it is.
pub write_frequent_update-Unchanged :
    {F : Type 0} (libs : Libraries) (fprintf : Printf F) (system : Answers F) (d : Daemon)
    → Consistent libs d
    → OnSuccess (λ r. Unchanged libs d r.0) (write_frequent_update libs fprintf system d)
unfolding write_frequent_update
write_frequent_update-Unchanged {F} libs fprintf system d c =
    let Result : Daemon × Staged F → Type 0 = λ r. Unchanged libs d r.0 in
    after Result system.handle _ λ h₀.
      after Result (fprintf h₀ (number_line libs fprintf (pos frequent_file_format_version))) _
        λ h₁.
          after Result (fprintf h₁ (timestamp_line libs fprintf system.current_timestamp)) _ λ h₂.
            after Result (mac_line libs fprintf (buffer_to_hex d.bismark_mac)) _ λ line.
              after Result (fprintf h₂ line) _ λ h₃.
                after Result
                  (Devices.write_update libs.sha1_hmac d.anonymizer fprintf
                    d.device_throughput_table h₃)
                  _
                  λ contents. staged_if-OnSuccess Result system.renamed _ (record {
                    consistent = record {
                      packets = c.packets;
                      flows = c.flows;
                      records = c.records;
                      addresses = c.addresses;
                      devices = record { width = c.devices.width; within = omega arith };
                      drops = c.drops;
                      initialized = c.initialized;
                    };
                    number = refl;
                    id = refl;
                    session = refl;
                    alarms = refl;
                  })
