-- ===== src/Controller/State.antt =====
-- include/hbmsim/controller/hbm_controller.h: the configuration and the state of a controller. Its policy
-- objects are functions of the configuration; the mapper and the counters, which it has by reference, are
-- fields: the system puts its counters in before a call and takes them out after it.
use hbmsim.Prelude.{ℕ, Bool, false, Option, none, List, [], length, replicate}
use hbmsim.Types.{HbmOp}
use hbmsim.Bandwidth.{BandwidthRate}
use hbmsim.Mapping.{HbmAddress, HbmAddressMapper}
use hbmsim.Dram.Command.{HbmCommand}
use hbmsim.Dram.Standard.{HbmBankState, HbmStandard, idle_bank}
use hbmsim.Timing.Spec.{HbmTimingSpec}
use hbmsim.Timing.Engine.{HbmTimingEngine, make_engine}
use hbmsim.Statistics.{HbmStats}
use hbmsim.Controller.Access.{HbmAccess, LogicalCompletion}
use hbmsim.Controller.Policies.{RowPolicy, RefreshPolicy}
use hbmsim.Controller.Reservations.{Reservations}
use hbmsim.Controller.Scheduler.{SchedulerKind}
use hbmsim.Controller.Wakeups.{Wakeups}
use hbmsim.Controller.WriteDrain.{WriteDrain}

pub record HbmControllerConfig : Type 0 where
  pub channel : ℕ
  pub first_flat_bank : ℕ
  pub bank_count : ℕ
  pub pseudo_channel_count : ℕ
  pub timing : HbmTimingSpec
  pub standard : Option HbmStandard
  pub data_rate : BandwidthRate
  pub scheduler : SchedulerKind
  pub row_policy : RowPolicy
  pub refresh_policy : RefreshPolicy
  pub write_drain_high_watermark : ℕ
  pub write_drain_low_watermark : ℕ
  pub read_queue_capacity : ℕ
  pub write_queue_capacity : ℕ
  pub enable_request_merging : Bool
  pub starvation_threshold : ℕ
  pub refresh_interval : ℕ
  pub enable_rfm : Bool
  pub detailed_stats : Bool
  pub rfm_activation_threshold : ℕ

pub record PhysicalAccess : Type 0 where
  pub op : HbmOp
  pub address : HbmAddress
  pub bytes : ℕ
  pub command : HbmCommand
  pub issued_at : ℕ
  pub completion_time : ℕ
  pub completions : List LogicalCompletion

pub record HbmControllerStep : Type 0 where
  pub wake_at : Option ℕ
  pub issued_access : Option PhysicalAccess

pub record Candidate : Type 0 where
  pub is_write : Bool
  pub index : ℕ
  pub command : HbmCommand
  pub ready_at : ℕ
  pub priority : ℕ

pub record MaintenanceCandidate : Type 0 where
  pub requested : HbmCommand
  pub command : HbmCommand
  pub local_bank : ℕ
  pub ready_at : ℕ
  pub final_command : Bool

pub record HbmController : Type 0 where
  pub config : HbmControllerConfig
  pub mapper : HbmAddressMapper
  pub stats : HbmStats
  pub timing_engine : HbmTimingEngine
  pub read_queue : List HbmAccess
  pub write_queue : List HbmAccess
  pub banks : List HbmBankState
  pub data_bus_ready_at : List ℕ
  pub unified_command_bus_ready_at : ℕ
  pub row_command_bus_ready_at : ℕ
  pub column_command_bus_ready_at : ℕ
  pub refresh_busy_until : ℕ
  pub refresh_stall_accounted_until : ℕ
  pub wakeups : Wakeups
  pub draining_writes : Bool
  pub refresh_pending : Bool
  pub outstanding_accesses : ℕ
  pub next_per_bank_refresh : ℕ
  pub reserved_reads : ℕ
  pub reserved_writes : ℕ

-- The constructor.
unfoldable pub make_controller : HbmControllerConfig → HbmAddressMapper → HbmStats → HbmController
unfolding make_engine
make_controller config mapper stats = record {
  config = config;
  mapper = mapper;
  stats = stats;
  timing_engine = make_engine config.timing;
  read_queue = [];
  write_queue = [];
  banks = replicate config.bank_count idle_bank;
  data_bus_ready_at = replicate config.pseudo_channel_count 0;
  unified_command_bus_ready_at = 0;
  row_command_bus_ready_at = 0;
  column_command_bus_ready_at = 0;
  refresh_busy_until = 0;
  refresh_stall_accounted_until = 0;
  wakeups = record { wakeup_at = none; refresh_due_at = none; next_refresh_due = none };
  draining_writes = false;
  refresh_pending = false;
  outstanding_accesses = 0;
  next_per_bank_refresh = 0;
  reserved_reads = 0;
  reserved_writes = 0;
}

-- What the reservations and the write drain see of the state.
abbrev pub reservations : HbmController → Reservations
reservations c = record {
  read_queue_capacity = c.config.read_queue_capacity;
  write_queue_capacity = c.config.write_queue_capacity;
  read_queue_size = length c.read_queue;
  write_queue_size = length c.write_queue;
  reserved_reads = c.reserved_reads;
  reserved_writes = c.reserved_writes;
}

abbrev pub write_drain : HbmController → WriteDrain
write_drain c = record {
  write_drain_high_watermark = c.config.write_drain_high_watermark;
  write_drain_low_watermark = c.config.write_drain_low_watermark;
  draining_writes = c.draining_writes;
}
