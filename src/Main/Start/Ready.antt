-- ===== src/Main/Start/Ready.antt =====
-- The state in which the program starts.
use bismark_passive.Prelude.{◌+◌, ◌≡◌, refl, true, false, Bool, some, arith, length-replicate}
use bismark_passive.Prelude.All.{OnSuccess, >>=-OnSuccess, after, OnSuccess-some}
use bismark_passive.Constants.{drop_statistics_maximum_packet_size, device_throughput_table_size}
use bismark_passive.Anonymization.{Anonymizer, anonymization_init}
use bismark_passive.Anonymization.Laws.{anonymization_init-initialized}
use bismark_passive.Whitelist.{Whitelist}
use bismark_passive.Flow.Valid.{flow_table_init-IsValid}
use bismark_passive.Address.Ring.{address_table_init-IsValid}
use bismark_passive.Devices.{no_device}
use bismark_passive.Drops.Counts.{drop_statistics_init-IsValid}
use bismark_passive.Main.{Build, Libraries, Daemon}
use bismark_passive.Main.Identity.{Identity, initialize_bismark_id}
use bismark_passive.Main.Consistent.{Consistent}
use bismark_passive.Main.Updates.Keeps.{packet_series_init-IsValid, dns_table_init-Referring}
use bismark_passive.Main.Start.{
  Inputs, start, static_anonymizer, static_drops, whitelist_of_argument, initialized_daemon,
  proceed_if,
}

-- What `main` sets up.
pub record Ready (libs : Libraries) (d : Daemon) : Type 0 where
  pub consistent : Consistent libs d
  pub number : d.sequence_number ≡ 0
  pub alarms : d.alarm_count ≡ 0

module _ (build : Build) (libs : Libraries) (inputs : Inputs) where
  pub initialized_daemon-Ready :
      (id : Identity) (w : Whitelist) (a : Anonymizer)
      → a.initialized ≡ true
      → Ready libs (initialized_daemon build libs inputs id w a)
  unfolding initialized_daemon
  initialized_daemon-Ready id w a init = record {
    consistent = record {
      packets = packet_series_init-IsValid;
      flows = flow_table_init-IsValid libs.platform;
      records = dns_table_init-Referring 0 _ _;
      addresses = address_table_init-IsValid;
      devices = record {
        width = length-replicate device_throughput_table_size no_device;
        within = omega arith;
      };
      drops =
          drop_statistics_init-IsValid libs.platform static_drops
            (length-replicate (drop_statistics_maximum_packet_size + 1) 0);
      initialized = init;
    };
    number = refl;
    alarms = refl;
  }

  proceed_if-OnSuccess :
      {A : Type 0} (P : A → Type 0) (b : Bool) (a : A) → P a → OnSuccess P (proceed_if b a)
  proceed_if-OnSuccess P true a h = h
  proceed_if-OnSuccess P false a h = tt

  start-OnSuccess : OnSuccess (Ready libs) (start build libs inputs)
  unfolding start
  start-OnSuccess = after (Ready libs) (initialize_bismark_id build inputs.id_file) _ λ id.
      after (Ready libs) (whitelist_of_argument inputs.heap inputs.whitelist_file) _ λ w.
        >>=-OnSuccess (λ a. a.initialized ≡ true) (Ready libs)
          (anonymization_init libs.sha1_hmac static_anonymizer inputs.seed_file) _
          (anonymization_init-initialized libs.sha1_hmac static_anonymizer inputs.seed_file)
          λ a init. proceed_if-OnSuccess (Ready libs) _ _ (initialized_daemon-Ready id w a init)

-- Wherever the loop starts, the state is consistent: the tables are empty, the digests are set up, and
-- updates and alarms are counted from 0.
pub start-Consistent :
    (build : Build) (libs : Libraries) (inputs : Inputs) (d : Daemon)
    → start build libs inputs ≡ some d
    → Ready libs d
start-Consistent build libs inputs d e =
    OnSuccess-some (Ready libs) (start build libs inputs) d (start-OnSuccess build libs inputs) e
