-- ===== src/Examples/Driving.antt =====
-- A controller with three reads in its queue.
use hbmsim.Prelude.{
  get_elem?, ℕ, ◌+◌, ◌≡◌, refl, sym, ok, arith, true, false, none, some, List, map, [], ◌∷◌, Result,
  Option, Bool, inl, All,
}
use hbmsim.Types.{HbmOp}
use hbmsim.Bandwidth.{default_rate, transfer_time}
use hbmsim.Mapping.{zero_address}
use hbmsim.Statistics.{HbmStats, ChannelStats, ResourceStats, total, change_channel, change_at}
use hbmsim.Dram.Command.{read, is_data_command, to_dram_command, to_hbm_command}
use hbmsim.Dram.Profiles.{hbm4_standard}
use hbmsim.Timing.Spec.{hbm4_8000, constraints}
use hbmsim.Controller.Access.{LogicalAccess, HbmAccess, LogicalCompletion, new_access, can_merge}
use hbmsim.Controller.Policies.{use_auto_precharge, open_page, all_bank}
use hbmsim.Controller.Scheduler.{fr_fcfs, choose}
use hbmsim.Controller.State.{
  HbmController, HbmControllerConfig, HbmControllerStep, Candidate, PhysicalAccess, make_controller,
}
use hbmsim.Controller.Issue.{
  issue, issue_command, issue_data, count_wait, merge_with, merge_queue, overlaps, erase_at,
  after_data, classify,
}
use hbmsim.Controller.Transfers.{
  begin_access, finish_item, count_items, count_transfer, completion_of,
}
use hbmsim.Controller.Commands.{
  command_bus_ready, earliest_command, is_channel_command, record_issue, count_command,
}
use hbmsim.Controller.Banks.{local_bank, apply_to_banks}
use hbmsim.Timing.Engine.{
  record_command, earliest_issue, preceding_time, tighten, record_at, push_time, resource_key,
  resource_index, timing_command, make_engine,
}
use hbmsim.Dram.Standard.{idle_bank, apply_transition, resolve_prerequisite}
use hbmsim.Controller.Issue.Conservation.{queued, done, tally_done, issue-conserves}
use hbmsim.Controller.Issue.Latency.{IsTimed, HasTime, Partitions, issue-Partitions}
use hbmsim.Controller.Issue.Merging.{issue-Merges}
use hbmsim.Controller.Issue.Sharing.{Merges}
use hbmsim.Dram.Progress.{hbm4-IsProfile}
use hbmsim.Controller.Selection.{queue_of}
use hbmsim.Controller.Selection.Planned.{IsOpenFor}
use hbmsim.Controller.Selection.RowOpen.{choose_next-IsOpenFor}
use hbmsim.Controller.Drive.{drive, drive_idle, drive_queues, account_stall}
use hbmsim.Controller.Selection.{
  update_starvation, starve_queue, serves_writes, survey, planned, mark_eligible, candidate_of,
  defer_precharge, choose_next, auto_precharge,
}
use hbmsim.Controller.Refresh.{choose_maintenance, maintain_banks, request_of}
use hbmsim.Controller.WriteDrain.{update_write_drain}
use hbmsim.Controller.Planner.{next_command, next_decision}
use hbmsim.Controller.Drive.Conservation.{drive-conserves}
use hbmsim.Examples.Devices.{two_channels}
use hbmsim.Examples.Queues.{first_read, second_read}

abbrev pub config : HbmControllerConfig
config = record {
  channel = 0;
  first_flat_bank = 0;
  bank_count = 2;
  pseudo_channel_count = 1;
  timing = hbm4_8000;
  standard = some hbm4_standard;
  data_rate = default_rate;
  scheduler = fr_fcfs;
  row_policy = open_page;
  refresh_policy = all_bank;
  write_drain_high_watermark = 16;
  write_drain_low_watermark = 4;
  read_queue_capacity = 8;
  write_queue_capacity = 8;
  enable_request_merging = true;
  starvation_threshold = 0;
  refresh_interval = 0;
  enable_rfm = false;
  detailed_stats = true;
  rfm_activation_threshold = 32;
}

abbrev unused : ResourceStats
unused = record { busy_time = 0; issued_commands = 0 }

abbrev idle_channel : ChannelStats
idle_channel = record {
  completed_bytes = 0;
  data_bus_busy_time = 0;
  refreshes = 0;
  per_bank_refreshes = 0;
  rfm_events = 0;
  command_bus = unused;
  row_command_bus = unused;
  column_command_bus = unused;
  queue = record {
    max_read_depth = 0;
    max_write_depth = 0;
    rejected_transactions = 0;
    starvation_events = 0;
    queue_wait_time = 0;
    command_wait_time = 0;
    array_wait_time = 0;
    data_bus_wait_time = 0;
    refresh_stall_time = 0;
    data_service_time = 0;
    merged_accesses = 0;
  };
  pseudo_channels = unused ∷ [];
  banks = unused ∷ unused ∷ [];
}

abbrev pub no_stats : HbmStats
no_stats = record {
  submitted_transactions = 0;
  rejected_transactions = 0;
  completed_transactions = 0;
  modeled_accesses = 0;
  physical_accesses = 0;
  physical_read_bytes = 0;
  physical_write_bytes = 0;
  issued_commands = 0;
  read_bytes = 0;
  write_bytes = 0;
  row_hits = 0;
  row_closed = 0;
  row_conflicts = 0;
  act_commands = 0;
  pre_commands = 0;
  read_commands = 0;
  write_commands = 0;
  rfm_events = 0;
  channels = idle_channel ∷ [];
}

-- The second read merges with the first; the third is to another row.
abbrev third_read : HbmAccess
third_read = new_access (record first_read {
  parent_id = 3;
  sequence = 2;
  address = record zero_address { row = 9 };
  byte_address = 4_096;
})

abbrev busy : HbmController
busy = record (make_controller config two_channels no_stats) {
  read_queue = new_access first_read ∷ new_access second_read ∷ third_read ∷ [];
  banks = record idle_bank { open_row = some 0 } ∷ idle_bank ∷ [];
}

abbrev candidate : Candidate
candidate = record { is_write = false; index = 0; command = read; ready_at = 500; priority = 3 }

abbrev no_access : PhysicalAccess
no_access = record {
  op = HbmOp.read;
  address = zero_address;
  bytes = 0;
  command = read;
  issued_at = 0;
  completion_time = 0;
  completions = [];
}

sent : Result (Option PhysicalAccess × HbmController) → PhysicalAccess
sent (ok (some r, c)) = r
sent _ = no_access

left : Result (Option PhysicalAccess × HbmController) → HbmController
left (ok (r, c)) = c
left _ = busy

parents : Result (Option PhysicalAccess × HbmController) → List ℕ
parents r = map (λ (l : LogicalCompletion). l.parent_id) (sent r).completions

issue_test : parents (issue busy candidate 500) ≡ 1 ∷ 2 ∷ []
unfolding parents sent issue issue_command issue_data begin_access count_wait merge_with merge_queue
    overlaps erase_at finish_item count_items count_transfer completion_of after_data classify
    can_merge command_bus_ready record_issue count_command record_command record_at push_time
    resource_key resource_index timing_command make_engine make_controller hbm4_8000 hbm4_standard
    local_bank apply_to_banks apply_transition change_channel change_at transfer_time total
issue_test = refl

issued :
    issue busy candidate 500
    ≡ ok (some (sent (issue busy candidate 500)), left (issue busy candidate 500))
unfolding sent left issue issue_command issue_data begin_access count_wait merge_with merge_queue
    overlaps erase_at finish_item count_items count_transfer completion_of after_data classify
    can_merge command_bus_ready record_issue count_command record_command record_at push_time
    resource_key resource_index timing_command make_engine make_controller hbm4_8000 hbm4_standard
    local_bank apply_to_banks apply_transition change_channel change_at transfer_time total
issued = refl

abbrev any_access : LogicalAccess → Bool
any_access l = true

issue-conserves_example :
    queued any_access busy
    ≡ done any_access (some (sent (issue busy candidate 500)))
      + queued any_access (left (issue busy candidate 500))
issue-conserves_example =
    issue-conserves any_access busy (left (issue busy candidate 500)) candidate 500
      (some (sent (issue busy candidate 500))) issued

new-IsTimed : (a : LogicalAccess) → a.arrival_time ≡ 0 → IsTimed 500 (new_access a)
new-IsTimed a e = record {
  arrived = sym e;
  in_past = omega arith;
  now_word = omega arith;
  waited = inl refl;
}

busy-HasTime : HasTime busy false 500 1_000_000
unfolding hbm4_8000 transfer_time make_controller
busy-HasTime = record {
  limit_word = omega arith;
  cas_word = omega arith;
  buses = ground arith;
  transfers = ground arith;
}

issue-Partitions_example :
    All
      (Partitions (sent (issue busy candidate 500)).completion_time)
      (sent (issue busy candidate 500)).completions
unfolding make_controller
issue-Partitions_example =
    issue-Partitions busy (left (issue busy candidate 500)) candidate 500 1_000_000
      (sent (issue busy candidate 500)) refl busy-HasTime
      (
        new-IsTimed first_read refl,
        (new-IsTimed second_read refl, (new-IsTimed third_read.logical refl, tt)),
      )
      issued

issue-Merges_example :
    (a : HbmAccess) × (others : List LogicalAccess) × (get_elem? busy.read_queue 0 ≡ some a)
    × (map (λ (l : LogicalCompletion). l.logical) (sent (issue busy candidate 500)).completions
        ≡ a.logical ∷ others)
    × Merges true [] false a.logical others (left (issue busy candidate 500)).read_queue
unfolding make_controller
issue-Merges_example =
    issue-Merges busy (left (issue busy candidate 500)) candidate 500
      (sent (issue busy candidate 500)) (omega arith) tt issued

step_of : Result (HbmControllerStep × HbmController) → HbmControllerStep
step_of (ok (step, c)) = step
step_of _ = record { wake_at = none; issued_access = none }

after : Result (HbmControllerStep × HbmController) → HbmController
after (ok (step, c)) = c
after _ = busy

driven : drive busy 500 ≡ ok (step_of (drive busy 500), after (drive busy 500))
unfolding step_of after drive drive_idle drive_queues choose_maintenance choose_next
    update_starvation starve_queue account_stall serves_writes survey planned earliest_command
    mark_eligible candidate_of defer_precharge update_write_drain maintain_banks request_of
    is_data_command to_dram_command to_hbm_command choose next_command next_decision
    resolve_prerequisite earliest_issue preceding_time tighten constraints auto_precharge
    use_auto_precharge is_channel_command issue issue_command issue_data begin_access count_wait
    merge_with merge_queue overlaps erase_at finish_item count_items count_transfer completion_of
    after_data classify can_merge command_bus_ready record_issue count_command record_command
    record_at push_time resource_key resource_index timing_command make_engine make_controller
    hbm4_8000 hbm4_standard local_bank apply_to_banks apply_transition change_channel change_at
    transfer_time total
driven = refl

drive_test : done any_access (step_of (drive busy 500)).issued_access ≡ 2
unfolding step_of tally_done drive drive_idle drive_queues choose_maintenance choose_next
    update_starvation starve_queue account_stall serves_writes survey planned earliest_command
    mark_eligible candidate_of defer_precharge update_write_drain maintain_banks request_of
    is_data_command to_dram_command to_hbm_command choose next_command next_decision
    resolve_prerequisite earliest_issue preceding_time tighten constraints auto_precharge
    use_auto_precharge is_channel_command issue issue_command issue_data begin_access count_wait
    merge_with merge_queue overlaps erase_at finish_item count_items count_transfer completion_of
    after_data classify can_merge command_bus_ready record_issue count_command record_command
    record_at push_time resource_key resource_index timing_command make_engine make_controller
    hbm4_8000 hbm4_standard local_bank apply_to_banks apply_transition change_channel change_at
    transfer_time total
drive_test = refl

drive-conserves_example :
    queued any_access busy
    ≡ done any_access (step_of (drive busy 500)).issued_access
      + queued any_access (after (drive busy 500))
drive-conserves_example =
    drive-conserves any_access busy (after (drive busy 500)) 500 (step_of (drive busy 500)) driven

chosen_of : Result (Option Candidate × HbmController) → Candidate
chosen_of (ok (some c, next)) = c
chosen_of _ = candidate

marked_of : Result (Option Candidate × HbmController) → HbmController
marked_of (ok (c, next)) = next
marked_of _ = busy

chosen :
    choose_next busy 500
    ≡ ok (some (chosen_of (choose_next busy 500)), marked_of (choose_next busy 500))
unfolding chosen_of marked_of drive drive_idle drive_queues choose_maintenance choose_next
    update_starvation starve_queue account_stall serves_writes survey planned earliest_command
    mark_eligible candidate_of defer_precharge update_write_drain maintain_banks request_of
    is_data_command to_dram_command to_hbm_command choose next_command next_decision
    resolve_prerequisite earliest_issue preceding_time tighten constraints auto_precharge
    use_auto_precharge is_channel_command issue issue_command issue_data begin_access count_wait
    merge_with merge_queue overlaps erase_at finish_item count_items count_transfer completion_of
    after_data classify can_merge command_bus_ready record_issue count_command record_command
    record_at push_time resource_key resource_index timing_command make_engine make_controller
    hbm4_8000 hbm4_standard local_bank apply_to_banks apply_transition change_channel change_at
    transfer_time total
chosen = refl

chosen_test : is_data_command (chosen_of (choose_next busy 500)).command ≡ true
unfolding chosen_of drive drive_idle drive_queues choose_maintenance choose_next update_starvation
    starve_queue account_stall serves_writes survey planned earliest_command mark_eligible
    candidate_of defer_precharge update_write_drain maintain_banks request_of is_data_command
    to_dram_command to_hbm_command choose next_command next_decision resolve_prerequisite
    earliest_issue preceding_time tighten constraints auto_precharge use_auto_precharge
    is_channel_command issue issue_command issue_data begin_access count_wait merge_with merge_queue
    overlaps erase_at finish_item count_items count_transfer completion_of after_data classify
    can_merge command_bus_ready record_issue count_command record_command record_at push_time
    resource_key resource_index timing_command make_engine make_controller hbm4_8000 hbm4_standard
    local_bank apply_to_banks apply_transition change_channel change_at transfer_time total
chosen_test = refl

choose_next-IsOpenFor_example :
    (a : HbmAccess) × (get_elem?
        (queue_of (chosen_of (choose_next busy 500)).is_write (marked_of (choose_next busy 500)))
        (chosen_of (choose_next busy 500)).index
      ≡ some a)
    × IsOpenFor (marked_of (choose_next busy 500)) a
unfolding make_controller
choose_next-IsOpenFor_example =
    choose_next-IsOpenFor busy (marked_of (choose_next busy 500)) 500
      (chosen_of (choose_next busy 500)) hbm4-IsProfile chosen chosen_test
