-- ===== src/System/Config.antt =====
-- The configuration of include/hbmsim/hbm_system.h and `HbmConfig::validate` of src/hbm_system.cpp.
pub mod Validity
use hbmsim.Prelude.{
  ℕ, ◌%◌, Bool, true, false, not, ◌&&◌, ◌||◌, Option, none, some, Result, ok, invalid_argument,
  ◌>>=◌, ◌>>◌, throw_if, ltb, ◌==◌,
}
use hbmsim.Bandwidth
use hbmsim.Topology
use hbmsim.Dram.Command.{rfm_per_bank}
use hbmsim.Dram.Standard.{HbmOrganization, HbmStandard}
use hbmsim.Timing.Spec.{HbmTimingSpec}
use hbmsim.Mapping.{HbmAddressMapper, make_mapper}
use hbmsim.Controller.Policies.{RowPolicy, RefreshPolicy, refresh_duration}
use hbmsim.Controller.Scheduler.{SchedulerKind}

-- Of a device with a standard, the organization and timing beside it are not read.
pub record DeviceSpec : Type 0 where
  pub custom_organization : HbmOrganization
  pub custom_timing : HbmTimingSpec
  pub standard : Option HbmStandard

abbrev pub organization : DeviceSpec → HbmOrganization
organization d = elim d.standard [ none ↦ d.custom_organization | some s ↦ s.organization ]

abbrev pub timing : DeviceSpec → HbmTimingSpec
timing d = elim d.standard [ none ↦ d.custom_timing | some s ↦ s.timing ]

pub data RequestMergePolicy : Type 0 where
  no_merging same_address_read : RequestMergePolicy

pub record ControllerConfig : Type 0 where
  pub max_active_transactions : ℕ
  pub row_policy : RowPolicy
  pub scheduler : SchedulerKind
  pub refresh_policy : RefreshPolicy
  pub write_drain_high_watermark : ℕ
  pub write_drain_low_watermark : ℕ
  pub read_queue_capacity : ℕ
  pub write_queue_capacity : ℕ
  pub request_merge_policy : RequestMergePolicy
  pub starvation_threshold : ℕ
  pub refresh_interval : ℕ
  pub enable_rfm : Bool
  pub rfm_activation_threshold : ℕ

pub record SimulationConfig : Type 0 where
  pub simulation_access_granularity_bytes : ℕ
  pub retain_completions : Bool
  pub detailed_stats : Bool

pub record HbmConfig : Type 0 where
  pub device : DeviceSpec
  pub controller : ControllerConfig
  pub simulation : SimulationConfig

-- `device.standard() && device.standard()->supports(HbmCommand::RfmPerBank)`
abbrev pub supports_rfm : Option HbmStandard → Bool
supports_rfm none = false
supports_rfm (some s) = s.supports rfm_per_bank

unfoldable pub validate : HbmConfig → Result (Unit {0})
unfolding refresh_duration
validate c = do
  throw_if (c.controller.max_active_transactions == 0) invalid_argument
  Topology.validate (organization c.device).topology
  Bandwidth.validate (organization c.device).pseudo_channel_rate
  throw_if
      ((organization c.device).address_interleave_bytes == 0
        || (organization c.device).columns_per_row == 0
        || (organization c.device).rows_per_bank == 0
        || (organization c.device).physical_burst_bytes == 0)
      invalid_argument
  throw_if (ltb c.controller.write_drain_high_watermark c.controller.write_drain_low_watermark)
      invalid_argument
  throw_if
      (not (c.simulation.simulation_access_granularity_bytes == 0)
        && ltb c.simulation.simulation_access_granularity_bytes
            (organization c.device).physical_burst_bytes)
      invalid_argument
  throw_if
      (not (c.simulation.simulation_access_granularity_bytes == 0)
        && not (
            c.simulation.simulation_access_granularity_bytes
              % (organization c.device).physical_burst_bytes
            == 0))
      invalid_argument
  throw_if
      (not (c.controller.refresh_interval == 0)
        && ltb c.controller.refresh_interval
            (refresh_duration c.controller.refresh_policy (timing c.device)))
      invalid_argument
  throw_if (c.controller.enable_rfm && not (supports_rfm c.device.standard)) invalid_argument
  throw_if (c.controller.enable_rfm && c.controller.rfm_activation_threshold == 0) invalid_argument

-- The mapper that the constructor of `HbmSystem` makes.
unfoldable pub address_mapper : HbmConfig → Result HbmAddressMapper
unfolding make_mapper
address_mapper c =
    make_mapper (organization c.device).topology (organization c.device).address_interleave_bytes
      (organization c.device).columns_per_row (organization c.device).rows_per_bank
      (organization c.device).address_mapping
