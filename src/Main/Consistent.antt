-- ===== src/Main/Consistent.antt =====
-- The invariant of the whole state.
use bismark_passive.Prelude.{◌≡◌, ◌∙◌, true}
use bismark_passive.Flow.Valid
use bismark_passive.Packets.Series
use bismark_passive.Address.Ring
use bismark_passive.Devices.Sums
use bismark_passive.Drops.Counts
use bismark_passive.DnsParser.References.{Referring}
use bismark_passive.Main.{Libraries, Daemon}

-- Every component is valid, the digests are set up, and the DNS records are
-- those of packets in the series.
pub record Consistent (libs : Libraries) (d : Daemon) : Type 0 where
  pub packets : Series.IsValid d.packet_data
  pub flows : Valid.IsValid libs.platform d.flow_table
  pub records : Referring d.packet_data.length d.dns_table
  pub addresses : Ring.IsValid d.address_table
  pub devices : Sums.IsValid d.device_throughput_table
  pub drops : Counts.IsValid d.drop_statistics
  pub initialized : d.anonymizer.initialized ≡ true

-- A step that leaves a consistent state, and what names and counts the updates as it was.
pub record Unchanged (libs : Libraries) (d d' : Daemon) : Type 0 where
  pub consistent : Consistent libs d'
  pub number : d'.sequence_number ≡ d.sequence_number
  pub id : d'.bismark_id ≡ d.bismark_id
  pub session : d'.start_timestamp_microseconds ≡ d.start_timestamp_microseconds
  pub alarms : d'.alarm_count ≡ d.alarm_count

pub Unchanged-trans :
    (libs : Libraries) (d d' d'' : Daemon)
    → Unchanged libs d d'
    → Unchanged libs d' d''
    → Unchanged libs d d''
Unchanged-trans libs d d' d'' first second = record {
  consistent = second.consistent;
  number = second.number ∙ first.number;
  id = second.id ∙ first.id;
  session = second.session ∙ first.session;
  alarms = second.alarms ∙ first.alarms;
}
