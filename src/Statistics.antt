-- ===== src/Statistics.antt =====
-- include/hbmsim/stats.h: the counters that the system and its controllers share.
use hbmsim.Prelude.{ℕ, zero, suc, List, [], ◌∷◌, Result, ok, err, out_of_range, ◌>>=◌, add64}

pub record ResourceStats : Type 0 where
  pub busy_time : ℕ
  pub issued_commands : ℕ

pub record QueueStats : Type 0 where
  pub max_read_depth : ℕ
  pub max_write_depth : ℕ
  pub rejected_transactions : ℕ
  pub starvation_events : ℕ
  pub queue_wait_time : ℕ
  pub command_wait_time : ℕ
  pub array_wait_time : ℕ
  pub data_bus_wait_time : ℕ
  pub refresh_stall_time : ℕ
  pub data_service_time : ℕ
  pub merged_accesses : ℕ

pub record ChannelStats : Type 0 where
  pub completed_bytes : ℕ
  pub data_bus_busy_time : ℕ
  pub refreshes : ℕ
  pub per_bank_refreshes : ℕ
  pub rfm_events : ℕ
  pub command_bus : ResourceStats
  pub row_command_bus : ResourceStats
  pub column_command_bus : ResourceStats
  pub queue : QueueStats
  pub pseudo_channels : List ResourceStats
  pub banks : List ResourceStats

pub record HbmLatencyBreakdown : Type 0 where
  pub queue_wait : ℕ
  pub command_phase : ℕ
  pub data_ready : ℕ
  pub data_bus_wait : ℕ
  pub data_service : ℕ

abbrev pub no_latency : HbmLatencyBreakdown
no_latency = record {
  queue_wait = 0;
  command_phase = 0;
  data_ready = 0;
  data_bus_wait = 0;
  data_service = 0;
}

-- `HbmLatencyBreakdown::total`
unfoldable pub total : HbmLatencyBreakdown → ℕ
total l =
    add64 (add64 (add64 (add64 l.queue_wait l.command_phase) l.data_ready) l.data_bus_wait)
      l.data_service

pub record HbmStats : Type 0 where
  pub submitted_transactions : ℕ
  pub rejected_transactions : ℕ
  pub completed_transactions : ℕ
  pub modeled_accesses : ℕ
  pub physical_accesses : ℕ
  pub physical_read_bytes : ℕ
  pub physical_write_bytes : ℕ
  pub issued_commands : ℕ
  pub read_bytes : ℕ
  pub write_bytes : ℕ
  pub row_hits : ℕ
  pub row_closed : ℕ
  pub row_conflicts : ℕ
  pub act_commands : ℕ
  pub pre_commands : ℕ
  pub read_commands : ℕ
  pub write_commands : ℕ
  pub rfm_events : ℕ
  pub channels : List ChannelStats

-- An element of a vector by `.at(index)`, changed in place.
unfoldable pub change_at : {A : Type 0} → (A → Result A) → ℕ → List A → Result (List A)
change_at change index [] = err out_of_range
change_at change zero (x ∷ xs) = change x >>= λ y. ok (y ∷ xs)
change_at change (suc index) (x ∷ xs) = change_at change index xs >>= λ ys. ok (x ∷ ys)

-- `stats_.channels.at(channel)`, changed in place.
unfoldable pub change_channel :
    (ChannelStats → Result ChannelStats) → ℕ → HbmStats → Result HbmStats
unfolding change_at
change_channel change channel s =
    change_at change channel s.channels >>= λ channels. ok (record s { channels = channels })

-- `resource.issued_commands += 1; resource.busy_time += duration`
abbrev pub use_resource : ℕ → ℕ → ResourceStats → ResourceStats
use_resource commands duration r = record r {
  busy_time = add64 r.busy_time duration;
  issued_commands = add64 r.issued_commands commands;
}
