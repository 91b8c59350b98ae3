-- ===== src/System/Presets.antt =====
-- include/hbmsim/hbm_system.h and src/hbm_system.cpp: the device specifications that are made of nothing, of a
-- standard and of another specification, the edits of one, and the configurations that the program offers.
use hbmsim.Prelude.{
  ◌≡◌, ◌⊎◌, inl, inr, refl, arith, Option-cases, ◌>>=◌, true, false, Option, none, some, Result, ok,
  err, invalid_argument, logic_error,
}
use hbmsim.Bandwidth.{default_rate}
use hbmsim.Topology.{default_topology}
use hbmsim.Mapping.{linear}
use hbmsim.Dram.Standard.{HbmOrganization, HbmStandard}
use hbmsim.Dram.Profiles.{hbm2_standard, hbm3_standard, hbm4_standard}
use hbmsim.Timing.Spec.{HbmTimingSpec, default_timing}
use hbmsim.Controller.Policies.{open_page, all_bank}
use hbmsim.Controller.Scheduler.{fr_fcfs}
use hbmsim.System.Config.{
  DeviceSpec, ControllerConfig, SimulationConfig, HbmConfig, no_merging, same_address_read,
  organization, timing,
}

abbrev default_organization : HbmOrganization
default_organization = record {
  topology = default_topology;
  columns_per_row = 0;
  rows_per_bank = 0;
  physical_burst_bytes = 32;
  address_interleave_bytes = 32;
  address_mapping = linear;
  pseudo_channel_rate = default_rate;
}

-- `DeviceSpec device;`
abbrev default_device : DeviceSpec
default_device = record {
  custom_organization = default_organization;
  custom_timing = default_timing;
  standard = none;
}

abbrev pub custom : DeviceSpec
custom = record default_device {
  custom_organization = record {
    topology = default_topology;
    columns_per_row = 128;
    rows_per_bank = 16_384;
    physical_burst_bytes = 64;
    address_interleave_bytes = 64;
    address_mapping = linear;
    pseudo_channel_rate = record { bytes = 32; interval = 1_000 };
  };
}

-- A null pointer is `none`.
unfoldable pub from_standard : Option HbmStandard → Result DeviceSpec
from_standard none = err invalid_argument
from_standard (some s) = ok (record default_device { standard = some s })

unfoldable pub as_custom : DeviceSpec → DeviceSpec
as_custom d = record default_device {
  custom_organization = organization d;
  custom_timing = timing d;
}

-- An assignment through `edit_organization()` and `edit_timing()`.
unfoldable pub edit_organization :
    (HbmOrganization → HbmOrganization) → DeviceSpec → Result DeviceSpec
edit_organization edit d = elim d.standard [
  | some s ↦ err logic_error
  | none ↦ ok (record d { custom_organization = edit d.custom_organization })
]

unfoldable pub edit_timing : (HbmTimingSpec → HbmTimingSpec) → DeviceSpec → Result DeviceSpec
edit_timing edit d = elim d.standard [
  | some s ↦ err logic_error
  | none ↦ ok (record d { custom_timing = edit d.custom_timing })
]

-- The member initialisers.
abbrev default_controller : ControllerConfig
default_controller = record {
  max_active_transactions = 1_024;
  row_policy = open_page;
  scheduler = fr_fcfs;
  refresh_policy = all_bank;
  write_drain_high_watermark = 16;
  write_drain_low_watermark = 4;
  read_queue_capacity = 0;
  write_queue_capacity = 0;
  request_merge_policy = no_merging;
  starvation_threshold = 0;
  refresh_interval = 0;
  enable_rfm = false;
  rfm_activation_threshold = 0;
}

abbrev default_simulation : SimulationConfig
default_simulation = record {
  simulation_access_granularity_bytes = 0;
  retain_completions = false;
  detailed_stats = true;
}

-- The device of `from_standard`, which is not called on a null pointer here.
abbrev device_of : HbmStandard → DeviceSpec
device_of s = record default_device { standard = some s }

unfoldable pub hbm4_8000 : HbmConfig
unfolding hbm4_standard
hbm4_8000 = record {
  device = device_of hbm4_standard;
  controller = default_controller;
  simulation = default_simulation;
}

-- A configuration of HBM2 or HBM3, which merges reads of the same address.
abbrev merging : HbmStandard → HbmConfig
merging s = record {
  device = device_of s;
  controller = record default_controller { request_merge_policy = same_address_read };
  simulation = default_simulation;
}

unfoldable pub hbm2_2000 : Result HbmConfig
unfolding hbm2_standard
hbm2_2000 = hbm2_standard >>= λ s. ok (merging s)

unfoldable pub hbm3_6400 : Result HbmConfig
unfolding hbm3_standard
hbm3_6400 = hbm3_standard >>= λ s. ok (merging s)

-- The timing and the organization of a specification are kept when it leaves its standard, and both can
-- then be edited; with a standard neither can.
pub as_custom-editable :
    (d : DeviceSpec) (edit : HbmOrganization → HbmOrganization)
    (retime : HbmTimingSpec → HbmTimingSpec)
    → (organization (as_custom d) ≡ organization d)
      × (timing (as_custom d) ≡ timing d)
      × ((e : DeviceSpec) × (edit_organization edit (as_custom d) ≡ ok e)
          × (organization e ≡ edit (organization d))
          × (timing e ≡ timing d))
      × ((e : DeviceSpec) × (edit_timing retime (as_custom d) ≡ ok e)
          × (organization e ≡ organization d)
          × (timing e ≡ retime (timing d)))
      × ((d.standard ≡ none)
          ⊎ ((edit_organization edit d ≡ err logic_error)
              × (edit_timing retime d ≡ err logic_error)))
unfolding as_custom edit_organization edit_timing
as_custom-editable d edit retime = (
  refl,
  refl,
  (record (as_custom d) { custom_organization = edit (organization d) }, refl, refl, refl),
  (record (as_custom d) { custom_timing = retime (timing d) }, refl, refl, refl),
  elim (Option-cases d.standard) [ inl e ↦ inl e | inr (s, e) ↦ inr (ground arith, ground arith) ],
)
