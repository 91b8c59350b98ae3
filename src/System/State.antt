-- ===== src/System/State.antt =====
-- include/hbmsim/hbm_system.h and src/hbm_system.cpp: the state of a system and its constructor. The map of
-- parents is an association list; what the lambdas of scheduled events capture is a value of `SystemEvent`,
-- with the token that they share; the counters are put into a controller before a call and taken out after.
pub mod Construction
use hbmsim.Prelude.{
  ℕ, zero, suc, ◌/◌, Bool, true, false, Option, none, some, List, [], ◌∷◌, replicate, Result, ok,
  ◌>>=◌, ◌>>◌, ◌==◌, if◌then◌else◌, mul32, set,
}
use hbmsim.Statistics.{
  HbmStats, ChannelStats, ResourceStats, QueueStats, HbmLatencyBreakdown, no_latency,
}
use hbmsim.EventQueue.{EventQueue}
use hbmsim.Topology.{channel_count}
use hbmsim.Mapping.{HbmAddressMapper, bank_count}
use hbmsim.Controller.Access.{HbmAccessClass, row_closed}
use hbmsim.Controller.State.{HbmController, HbmControllerConfig, PhysicalAccess, make_controller}
use hbmsim.System.Config.{
  HbmConfig, RequestMergePolicy, no_merging, same_address_read, organization, timing, validate,
  address_mapper,
}
use hbmsim.System.Transaction.{HbmTransaction, HbmCompletion}

pub record ParentRequest : Type 0 where
  pub transaction : HbmTransaction
  pub remaining_accesses : ℕ
  pub completion_time : ℕ
  pub completion_channel : ℕ
  pub last_access_class : HbmAccessClass
  pub last_latency_breakdown : HbmLatencyBreakdown
  pub admitted_bytes : ℕ

-- `ParentRequest{transaction}`
abbrev pub new_parent : HbmTransaction → ParentRequest
new_parent t = record {
  transaction = t;
  remaining_accesses = 0;
  completion_time = 0;
  completion_channel = 0;
  last_access_class = row_closed;
  last_latency_breakdown = no_latency;
  admitted_bytes = 0;
}

-- The events: a controller's step, a refresh, the end of a transfer, and news of free places.
pub data SystemEvent : Type 0 where
  controller_wake : (channel when : ℕ) → SystemEvent
  refresh_due : (channel due : ℕ) → SystemEvent
  transfer_end : (issued : PhysicalAccess) (channel : ℕ) → SystemEvent
  capacity_freed : (channel when : ℕ) → SystemEvent

pub record PendingEvent : Type 0 where
  pub token : ℕ
  pub event : SystemEvent

pub record CapacityNotification : Type 0 where
  pub time : ℕ
  pub channel : ℕ
  pub read_slots : ℕ
  pub write_slots : ℕ

pub record HbmSystem : Type 0 where
  pub config : HbmConfig
  pub scheduler : EventQueue PendingEvent
  pub address_mapper : HbmAddressMapper
  pub stats : HbmStats
  pub controllers : List HbmController
  pub parents : List (ℕ × ParentRequest)
  pub pending_admissions : List ℕ
  pub completions : List HbmCompletion
  pub pending_events : List ℕ
  pub next_access_sequence : ℕ

-- The member initialisers of the counters.
abbrev no_use : ResourceStats
no_use = record { busy_time = 0; issued_commands = 0 }

abbrev no_waits : QueueStats
no_waits = record {
  max_read_depth = 0;
  max_write_depth = 0;
  rejected_transactions = 0;
  starvation_events = 0;
  queue_wait_time = 0;
  command_wait_time = 0;
  array_wait_time = 0;
  data_bus_wait_time = 0;
  refresh_stall_time = 0;
  data_service_time = 0;
  merged_accesses = 0;
}

abbrev pub channel_stats : Bool → ℕ → ℕ → ChannelStats
channel_stats detailed pseudo_channels banks = record {
  completed_bytes = 0;
  data_bus_busy_time = 0;
  refreshes = 0;
  per_bank_refreshes = 0;
  rfm_events = 0;
  command_bus = no_use;
  row_command_bus = no_use;
  column_command_bus = no_use;
  queue = no_waits;
  pseudo_channels = if detailed then replicate pseudo_channels no_use else [];
  banks = if detailed then replicate banks no_use else [];
}

abbrev pub new_stats : List ChannelStats → HbmStats
new_stats channels = record {
  submitted_transactions = 0;
  rejected_transactions = 0;
  completed_transactions = 0;
  modeled_accesses = 0;
  physical_accesses = 0;
  physical_read_bytes = 0;
  physical_write_bytes = 0;
  issued_commands = 0;
  read_bytes = 0;
  write_bytes = 0;
  row_hits = 0;
  row_closed = 0;
  row_conflicts = 0;
  act_commands = 0;
  pre_commands = 0;
  read_commands = 0;
  write_commands = 0;
  rfm_events = 0;
  channels = channels;
}

abbrev merges : RequestMergePolicy → Bool
merges no_merging = false
merges same_address_read = true

-- `controller_config` of a channel.
unfoldable pub controller_config : HbmConfig → ℕ → ℕ → HbmControllerConfig
controller_config c banks_per_channel channel = record {
  channel = channel;
  first_flat_bank = mul32 channel banks_per_channel;
  bank_count = banks_per_channel;
  pseudo_channel_count = (organization c.device).topology.pseudo_channels_per_channel;
  timing = timing c.device;
  standard = c.device.standard;
  data_rate = (organization c.device).pseudo_channel_rate;
  scheduler = c.controller.scheduler;
  row_policy = c.controller.row_policy;
  refresh_policy = c.controller.refresh_policy;
  write_drain_high_watermark = c.controller.write_drain_high_watermark;
  write_drain_low_watermark = c.controller.write_drain_low_watermark;
  read_queue_capacity = c.controller.read_queue_capacity;
  write_queue_capacity = c.controller.write_queue_capacity;
  enable_request_merging = merges c.controller.request_merge_policy;
  starvation_threshold = c.controller.starvation_threshold;
  refresh_interval = c.controller.refresh_interval;
  enable_rfm = c.controller.enable_rfm;
  detailed_stats = c.simulation.detailed_stats;
  rfm_activation_threshold = c.controller.rfm_activation_threshold;
}

-- The loop over the channels, from one on.
abbrev make_controllers : HbmConfig → HbmAddressMapper → HbmStats → ℕ → ℕ → ℕ → List HbmController
make_controllers c mapper stats banks channel zero = []
make_controllers c mapper stats banks channel (suc rest) =
    make_controller (controller_config c banks channel) mapper stats
    ∷ make_controllers c mapper stats banks (suc channel) rest

-- The constructor, on a scheduler.
unfoldable pub make_system : HbmConfig → EventQueue PendingEvent → Result HbmSystem
unfolding validate address_mapper bank_count channel_count controller_config make_controller
make_system config scheduler = do
  validate config
  mapper ← address_mapper config
  let channels = channel_count (organization config.device).topology
  let banks = bank_count mapper / channels
  let stats = new_stats (
      replicate channels (
        channel_stats config.simulation.detailed_stats
          (organization config.device).topology.pseudo_channels_per_channel banks))
  ok (record {
    config = config;
    scheduler = scheduler;
    address_mapper = mapper;
    stats = stats;
    controllers = make_controllers config mapper stats banks 0 channels;
    parents = [];
    pending_admissions = [];
    completions = [];
    pending_events = [];
    next_access_sequence = 0;
  })

-- `parents_.find(id)`, an assignment through the iterator, and `parents_.erase(iterator)`.
abbrev pub find_parent : ℕ → List (ℕ × ParentRequest) → Option ParentRequest
find_parent id [] = none
find_parent id ((k, parent) ∷ parents) = if k == id then some parent else find_parent id parents

abbrev pub set_parent : ℕ → ParentRequest → List (ℕ × ParentRequest) → List (ℕ × ParentRequest)
set_parent id parent [] = []
set_parent id parent ((k, old) ∷ parents) =
    (k, (if k == id then parent else old)) ∷ set_parent id parent parents

abbrev pub erase_parent : ℕ → List (ℕ × ParentRequest) → List (ℕ × ParentRequest)
erase_parent id [] = []
erase_parent id ((k, parent) ∷ parents) =
    if k == id then parents else (k, parent) ∷ erase_parent id parents

-- A controller with the system's counters, and the system after a call of it.
abbrev pub lend : HbmSystem → HbmController → HbmController
lend s c = record c { stats = s.stats }

abbrev pub put_back : HbmSystem → ℕ → HbmController → HbmSystem
put_back s channel c = record s { controllers = set s.controllers channel c; stats = c.stats }
