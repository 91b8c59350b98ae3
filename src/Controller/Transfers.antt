-- ===== src/Controller/Transfers.antt =====
-- `HbmController::issue` of src/controller/hbm_controller.cpp: the times of a data transfer, the stages that it
-- gives to the latency of each access that it serves, and the counters.
use hbmsim.Prelude.{
  ℕ, max, Bool, true, false, List, [], ◌∷◌, Result, ok, ◌>>=◌, if◌then◌else◌, add64, sub64, length,
}
use hbmsim.Statistics.{
  HbmStats, ChannelStats, QueueStats, HbmLatencyBreakdown, no_latency, use_resource, change_at,
  change_channel,
}
use hbmsim.Controller.Access.{HbmAccess, LogicalCompletion}
use hbmsim.Controller.State.{HbmControllerConfig}

-- The marks of an access's first command, if this is the first.
unfoldable pub begin_access : ℕ → HbmAccess → HbmAccess
begin_access now a = elim a.first_command_issued [
  | true ↦ a
  | false ↦ record a {
    first_command_issued = true;
    first_command_at = now;
    latency_breakdown = record a.latency_breakdown { queue_wait = sub64 now a.enqueued_at };
  }
]

-- What a first command adds to the channel's waiting time.
abbrev pub first_wait : ℕ → HbmAccess → ℕ
first_wait now a = if a.first_command_issued then 0 else sub64 now a.enqueued_at

-- When a transfer runs.
pub record Transfer : Type 0 where
  pub issued_at : ℕ
  pub cas_latency : ℕ
  pub bus_ready : ℕ
  pub duration : ℕ

abbrev pub data_ready : Transfer → ℕ
data_ready x = add64 x.issued_at x.cas_latency

abbrev pub data_start : Transfer → ℕ
data_start x = max (data_ready x) x.bus_ready

abbrev pub completion : Transfer → ℕ
completion x = add64 (data_start x) x.duration

-- The stages of an access that a transfer completes.
unfoldable pub finish_item : Transfer → HbmAccess → HbmAccess
unfolding begin_access
finish_item x a =
    let b = begin_access x.issued_at a in
    record b {
      latency_breakdown = record b.latency_breakdown {
        command_phase = sub64 x.issued_at b.first_command_at;
        data_ready = x.cas_latency;
        data_bus_wait = sub64 (data_start x) (data_ready x);
        data_service = x.duration;
      };
    }

abbrev count_stages : ℕ → HbmLatencyBreakdown → QueueStats → QueueStats
count_stages wait l q = record q {
  queue_wait_time = add64 q.queue_wait_time wait;
  command_wait_time = add64 q.command_wait_time l.command_phase;
  array_wait_time = add64 q.array_wait_time l.data_ready;
  data_bus_wait_time = add64 q.data_bus_wait_time l.data_bus_wait;
  data_service_time = add64 q.data_service_time l.data_service;
}

unfoldable pub count_items : Transfer → List HbmAccess → QueueStats → QueueStats
unfolding finish_item
count_items x [] q = q
count_items x (a ∷ items) q =
    count_items x items
      (count_stages (first_wait x.issued_at a) (finish_item x a).latency_breakdown q)

-- The channel's counters of a transfer, in detail or not.
abbrev count_merged : ℕ → ChannelStats → ChannelStats
count_merged merged s = record s {
  queue = record s.queue { merged_accesses = add64 s.queue.merged_accesses merged };
}

abbrev count_on_channel :
    HbmControllerConfig
    → Transfer
    → ℕ
    → ℕ
    → ℕ
    → ℕ
    → List HbmAccess
    → ChannelStats
    → Result ChannelStats
count_on_channel config x bank_index pseudo_channel started merged items s =
    let busy = record (count_merged merged s) {
      data_bus_busy_time = add64 s.data_bus_busy_time x.duration;
    } in
    elim config.detailed_stats [
      | false ↦ ok busy
      | true ↦ do
        pseudo_channels ←
            change_at (λ r. ok (use_resource 0 x.duration r)) pseudo_channel s.pseudo_channels
        banks ←
            change_at (λ r. ok (use_resource 0 (sub64 (completion x) started) r)) bank_index s.banks
        ok (record busy {
          pseudo_channels = pseudo_channels;
          banks = banks;
          queue = count_items x items busy.queue;
        })
    ]

unfoldable pub count_transfer :
    HbmControllerConfig
    → Transfer
    → Bool
    → ℕ
    → HbmAccess
    → List HbmAccess
    → HbmStats
    → Result HbmStats
unfolding change_channel change_at count_items
count_transfer config x is_write bank_index a merged s = do
  counted ←
      change_channel
        (count_on_channel config x bank_index a.address.pseudo_channel a.first_command_at
          (length merged) (a ∷ merged))
        config.channel s
  let physical = record counted { physical_accesses = add64 counted.physical_accesses 1 }
  ok (
      if is_write
      then record physical {
        physical_write_bytes = add64 physical.physical_write_bytes a.size_bytes;
      }
      else record physical {
        physical_read_bytes = add64 physical.physical_read_bytes a.size_bytes;
      })

unfoldable pub completion_of : HbmControllerConfig → Transfer → HbmAccess → LogicalCompletion
unfolding finish_item
completion_of config x a =
    let item = finish_item x a in
    record {
      logical = item.logical;
      access_class = item.access_class;
      latency_breakdown = if config.detailed_stats then item.latency_breakdown else no_latency;
    }
