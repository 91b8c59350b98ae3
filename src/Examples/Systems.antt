-- ===== src/Examples/Systems.antt =====
-- The default configuration of an HBM4 system, and a hierarchical address.
use hbmsim.Prelude.{
  invalid_argument, arith, ◌≡◌, ◌⊎◌, refl, ok, err, out_of_range, true, false, some, if◌then◌else◌,
}
use hbmsim.Bandwidth
use hbmsim.Topology
use hbmsim.Mapping.{zero_address}
use hbmsim.Dram.Profiles.{AddressLevel, hbm4_standard, hbm4_organization, rfm_support}
use hbmsim.Dram.Address.{
  set_level, at_level, level_eqb, level_index, hierarchical, at_level-set_level,
}
use hbmsim.Timing.Spec.{default_timing, hbm4_8000}
use hbmsim.Controller.Policies.{open_page, all_bank, refresh_duration}
use hbmsim.Controller.Scheduler.{fr_fcfs}
use hbmsim.System.Config.{HbmConfig, no_merging, validate}
use hbmsim.System.Config.Validity.{IsValid}
use hbmsim.EventQueue.{new_queue}
use hbmsim.System.State.{HbmSystem, make_system}
use hbmsim.System.State.Construction.{Starts, make_system-Outcome}

abbrev hbm4_config : HbmConfig
hbm4_config = record {
  device = record {
    custom_organization = hbm4_organization;
    custom_timing = default_timing;
    standard = some hbm4_standard;
  };
  controller = record {
    max_active_transactions = 1_024;
    row_policy = open_page;
    scheduler = fr_fcfs;
    refresh_policy = all_bank;
    write_drain_high_watermark = 16;
    write_drain_low_watermark = 4;
    read_queue_capacity = 0;
    write_queue_capacity = 0;
    request_merge_policy = no_merging;
    starvation_threshold = 0;
    refresh_interval = 3_900_000;
    enable_rfm = true;
    rfm_activation_threshold = 32;
  };
  simulation = record {
    simulation_access_granularity_bytes = 64;
    retain_completions = false;
    detailed_stats = true;
  };
}

hbm4_config_test : validate hbm4_config ≡ ok tt
unfolding validate hbm4_standard hbm4_8000 rfm_support refresh_duration Topology.validate
    Bandwidth.validate
hbm4_config_test = refl

-- Refresh management without a threshold.
no_threshold_test :
    validate (record hbm4_config {
      controller = record hbm4_config.controller { rfm_activation_threshold = 0 };
    })
    ≡ err invalid_argument
unfolding validate hbm4_standard hbm4_8000 rfm_support refresh_duration Topology.validate
    Bandwidth.validate
no_threshold_test = refl

make_system-Outcome_example :
    ((make_system hbm4_config new_queue ≡ err invalid_argument) × ¬ (IsValid hbm4_config))
    ⊎ (IsValid hbm4_config
        × ((s : HbmSystem) × (make_system hbm4_config new_queue ≡ ok s) × Starts hbm4_config s))
unfolding hbm4_standard
make_system-Outcome_example = make_system-Outcome hbm4_config new_queue (omega arith)

missing_level_test : at_level (hierarchical zero_address) AddressLevel.rank ≡ err out_of_range
unfolding at_level hierarchical level_index
missing_level_test = refl

at_level-set_level_example :
    at_level (set_level (hierarchical zero_address) AddressLevel.rank 3) AddressLevel.row ≡ (
      if level_eqb AddressLevel.rank AddressLevel.row
      then ok 3
      else at_level (hierarchical zero_address) AddressLevel.row)
at_level-set_level_example =
    at_level-set_level (hierarchical zero_address) AddressLevel.rank AddressLevel.row 3
