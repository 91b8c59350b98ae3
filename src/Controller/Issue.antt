-- ===== src/Controller/Issue.antt =====
-- `HbmController::issue` of src/controller/hbm_controller.cpp: a queued access gets its command, and with a
-- data command it leaves the queue, together with the reads that share its transfer.
pub mod Branches
pub mod ClosedPage
pub mod Conservation
pub mod Latency
pub mod Merging
pub mod Sharing
pub mod Survivors
use hbmsim.Prelude.{
  ℕ, zero, suc, max, Bool, true, false, not, ◌&&◌, ◌||◌, Option, none, some, List, [], ◌∷◌, map,
  Result, ok, logic_error, ◌>>=◌, ◌>>◌, throw_if, or_throw, if◌then◌else◌, ltb, leb, ◌==◌, add32,
  add64, sub64, get_at, get_elem?, set, any, holds, is_some, length,
}
use hbmsim.Types.{HbmOp}
use hbmsim.Bandwidth.{transfer_time}
use hbmsim.Dram.Command.{HbmCommand, act, pre_bank, pre_all, command_eqb}
use hbmsim.Dram.Standard.{HbmBankState, differs}
use hbmsim.Statistics.{
  HbmStats, ChannelStats, QueueStats, HbmLatencyBreakdown, no_latency, use_resource, change_at,
  change_channel,
}
use hbmsim.Controller.Access.{
  LogicalAccess, HbmAccess, HbmAccessClass, row_hit, row_conflict, LogicalCompletion, can_merge,
}
use hbmsim.Controller.Banks.{local_bank, change_bank, apply_to_banks}
use hbmsim.Controller.Commands.{record_issue}
use hbmsim.Controller.Policies.{use_auto_precharge}
use hbmsim.Controller.Selection.{with_queue, queue_of}
use hbmsim.Controller.State.{HbmController, HbmControllerConfig, Candidate, PhysicalAccess}
use hbmsim.Controller.Transfers.{
  begin_access, first_wait, Transfer, completion, count_transfer, completion_of,
}

unfoldable pub count_wait : HbmControllerConfig → ℕ → HbmStats → Result HbmStats
unfolding change_channel
count_wait config wait s = elim config.detailed_stats [
  | false ↦ ok s
  | true ↦
      change_channel
        (λ c. ok (record c {
          queue = record c.queue { queue_wait_time = add64 c.queue.queue_wait_time wait };
        }))
        config.channel s
]

-- An activation is counted, and at the threshold asks for refresh management.
unfoldable pub count_activation : HbmControllerConfig → HbmBankState → HbmBankState
count_activation config b =
    let activations = add32 b.activation_count 1 in
    if config.enable_rfm && leb config.rfm_activation_threshold activations
    then record b { rfm_pending = true; activation_count = 0 }
    else record b { activation_count = activations }

unfoldable pub issue_act :
    HbmController → Bool → ℕ → HbmAccess → ℕ → Result (Option PhysicalAccess × HbmController)
unfolding apply_to_banks count_activation
issue_act c is_write index a bank_index = do
  opened ← apply_to_banks c.config.standard act a.address.row bank_index c.banks
  banks ← change_bank (λ b. ok (count_activation c.config b)) bank_index opened
  ok (
    none,
    with_queue is_write (set (queue_of is_write c) index (record a { activated = true }))
        (record c { banks = banks }),
  )

unfoldable pub issue_precharge :
    HbmController
    → Bool
    → ℕ
    → HbmCommand
    → HbmAccess
    → HbmBankState
    → ℕ
    → Result (Option PhysicalAccess × HbmController)
unfolding apply_to_banks
issue_precharge c is_write index command a bank bank_index = do
  banks ← apply_to_banks c.config.standard command a.address.row bank_index c.banks
  ok (
    none,
    with_queue is_write
        (set (queue_of is_write c) index (
          if differs bank.open_row a.address.row
          then record a { access_class = row_conflict }
          else a))
        (record c { banks = banks }),
  )

-- A write that a read could observe: in the same domain, with a byte in common.
unfoldable pub overlaps : LogicalAccess → HbmAccess → Bool
overlaps logical write =
    write.metadata.ordering_domain == logical.metadata.ordering_domain
    && (if leb write.byte_address logical.byte_address
        then ltb (sub64 logical.byte_address write.byte_address) write.size_bytes
        else ltb (sub64 write.byte_address logical.byte_address) logical.size_bytes)

-- The accesses of a queue that merge with a leader, in its class, and those that stay.
unfoldable pub merge_queue :
    Bool → LogicalAccess → HbmAccessClass → List HbmAccess → List HbmAccess × List HbmAccess
unfolding can_merge
merge_queue enabled leader class [] = ([], [])
merge_queue enabled leader class (a ∷ queue) =
    let rest = merge_queue enabled leader class queue in
    if can_merge enabled leader a.logical
    then (record a { access_class = class } ∷ rest.0, rest.1)
    else (rest.0, a ∷ rest.1)

-- What leaves the queue with an access, and what stays.
unfoldable pub merge_with :
    HbmController → Bool → HbmAccess → List HbmAccess → List HbmAccess × List HbmAccess
unfolding overlaps merge_queue
merge_with c is_write a queue =
    if is_write || any (overlaps a.logical) c.write_queue
    then ([], queue)
    else merge_queue c.config.enable_request_merging a.logical a.access_class queue

-- `queue.erase(queue.begin() + index)`
unfoldable pub erase_at : {A : Type 0} → List A → ℕ → List A
erase_at [] index = []
erase_at (x ∷ xs) zero = xs
erase_at (x ∷ xs) (suc index) = x ∷ erase_at xs index

-- A data command closes the bank by its transition, or without a standard by a mark.
unfoldable pub after_data : HbmController → HbmCommand → HbmAccess → ℕ → Result (List HbmBankState)
unfolding apply_to_banks use_auto_precharge
after_data c command a bank_index = elim (is_some c.config.standard) [
  | true ↦ apply_to_banks c.config.standard command a.address.row bank_index c.banks
  | false ↦ elim (use_auto_precharge c.config.row_policy) [
    | true ↦ change_bank (λ b. ok (record b { precharge_pending = true })) bank_index c.banks
    | false ↦ ok c.banks
  ]
]

abbrev pub cas_latency_of : HbmControllerConfig → Bool → ℕ
cas_latency_of config is_write =
    if is_write && config.timing.use_extended_hbm_timing
    then config.timing.t_cwl
    else config.timing.t_cl

-- `if (!access.activated && access.access_class != HbmAccessClass::RowConflict)`
abbrev is_conflict : HbmAccessClass → Bool
is_conflict row_conflict = true
is_conflict _ = false

unfoldable pub classify : HbmAccess → HbmAccess
classify a =
    if not a.activated && not (is_conflict a.access_class)
    then record a { access_class = row_hit }
    else a

unfoldable pub issue_data :
    HbmController
    → Bool
    → ℕ
    → HbmCommand
    → HbmAccess
    → HbmBankState
    → ℕ
    → ℕ
    → Result (Option PhysicalAccess × HbmController)
unfolding classify merge_with erase_at after_data transfer_time count_transfer completion_of
issue_data c is_write index command begun bank bank_index now = do
  throw_if (not (holds bank.open_row begun.address.row)) logic_error
  let a = classify begun
  let parts = merge_with c is_write a (erase_at (queue_of is_write c) index)
  banks ← after_data c command a bank_index
  bus_ready ← get_at c.data_bus_ready_at a.address.pseudo_channel
  duration ← transfer_time c.config.data_rate a.size_bytes
  let x : Transfer = record {
    issued_at = now;
    cas_latency = cas_latency_of c.config is_write;
    bus_ready = bus_ready;
    duration = duration;
  }
  stats ← count_transfer c.config x is_write bank_index a parts.0 c.stats
  ok (
    some (record {
      op = if is_write then HbmOp.write else HbmOp.read;
      address = a.address;
      bytes = a.size_bytes;
      command = command;
      issued_at = now;
      completion_time = completion x;
      completions = map (completion_of c.config x) (a ∷ parts.0);
    }),
    with_queue is_write parts.1 (record c {
      stats = stats;
      banks = banks;
      data_bus_ready_at = set c.data_bus_ready_at a.address.pseudo_channel (completion x);
    }),
  )

-- The branches on the command, for an access that has begun.
unfoldable pub issue_command :
    HbmController
    → Candidate
    → HbmAccess
    → HbmBankState
    → ℕ
    → ℕ
    → Result (Option PhysicalAccess × HbmController)
unfolding issue_act issue_precharge issue_data
issue_command c candidate a bank bank_index now = elim (command_eqb candidate.command act) [
  | true ↦ issue_act c candidate.is_write candidate.index a bank_index
  | false ↦ elim (command_eqb candidate.command pre_bank || command_eqb candidate.command pre_all) [
    | true ↦
        issue_precharge c candidate.is_write candidate.index candidate.command a bank bank_index
    | false ↦
        issue_data c candidate.is_write candidate.index candidate.command a bank bank_index now
  ]
]

unfoldable pub issue :
    HbmController → Candidate → ℕ → Result (Option PhysicalAccess × HbmController)
unfolding begin_access count_wait local_bank record_issue issue_command
issue c candidate now = do
  a ← or_throw (get_elem? (queue_of candidate.is_write c) candidate.index) logic_error
  bank_index ← local_bank c.config.first_flat_bank c.config.bank_count a.address.flat_bank
  bank ← get_at c.banks bank_index
  let begun = record (begin_access now a) { command_eligible = false }
  waited ←
      (if a.first_command_issued
        then ok c.stats
        else count_wait c.config (first_wait now a) c.stats)
  noted ←
      record_issue
        (with_queue candidate.is_write (set (queue_of candidate.is_write c) candidate.index begun)
          (record c { stats = waited }))
        candidate.command begun.address bank_index now
  issue_command noted candidate begun bank bank_index now
