-- ===== src/Controller/Selection.antt =====
-- src/controller/hbm_controller.cpp: `update_starvation`, and `choose_next`, which command the queues
-- want issued next.
pub mod Planned
pub mod RowOpen
use hbmsim.Prelude.{
  ℕ, suc, Bool, true, false, not, ◌&&◌, ◌||◌, Option, none, some, List, [], ◌∷◌, Result, ok, ◌>>=◌,
  if◌then◌else◌, ltb, leb, ◌==◌, add64, sub64, get_at, is_some,
}
use hbmsim.Dram.Command.{
  HbmCommand, pre_bank, command_eqb, is_data_command, to_dram_command, to_hbm_command,
}
use hbmsim.Statistics.{HbmStats, change_channel}
use hbmsim.Controller.Access.{HbmAccess}
use hbmsim.Controller.Banks.{local_bank}
use hbmsim.Controller.Commands.{earliest_command}
use hbmsim.Controller.Planner.{next_command}
use hbmsim.Controller.Policies.{use_auto_precharge}
use hbmsim.Controller.Scheduler.{SchedulerCandidate, choose}
use hbmsim.Controller.State.{HbmController, Candidate}

-- The test of `update_starvation`.
unfoldable pub is_starved : ℕ → ℕ → HbmAccess → Bool
is_starved threshold now a =
    not a.starvation_reported && leb a.enqueued_at now && leb threshold (sub64 now a.enqueued_at)

abbrev report_starvation : ℕ → HbmStats → Result HbmStats
report_starvation channel s =
    change_channel
      (λ c. ok (record c {
        queue = record c.queue { starvation_events = add64 c.queue.starvation_events 1 };
      }))
      channel s

-- The counter after one access.
unfoldable pub starve_one : ℕ → ℕ → ℕ → HbmAccess → HbmStats → Result HbmStats
unfolding is_starved change_channel
starve_one channel threshold now a s =
    if is_starved threshold now a then report_starvation channel s else ok s

-- The loop over one queue.
unfoldable pub starve_queue :
    ℕ → ℕ → ℕ → List HbmAccess → HbmStats → Result (List HbmAccess × HbmStats)
unfolding is_starved starve_one
starve_queue channel threshold now [] s = ok ([], s)
starve_queue channel threshold now (a ∷ queue) s = do
  reported ← starve_one channel threshold now a s
  rest ← starve_queue channel threshold now queue reported
  ok (
    (if is_starved threshold now a then record a { starvation_reported = true } else a) ∷ rest.0,
    rest.1,
  )

unfoldable pub update_starvation : HbmController → ℕ → Result HbmController
unfolding starve_queue
update_starvation c now = elim (c.config.starvation_threshold == 0) [
  | true ↦ ok c
  | false ↦
      starve_queue c.config.channel c.config.starvation_threshold now c.read_queue c.stats
      >>= λ reads.
          starve_queue c.config.channel c.config.starvation_threshold now c.write_queue reads.1
          >>= λ writes.
              ok (record c { read_queue = reads.0; write_queue = writes.0; stats = writes.1 })
]

-- `config_.standard && row_policy_->use_auto_precharge()`
unfoldable pub auto_precharge : HbmController → Bool
unfolding use_auto_precharge
auto_precharge c = is_some c.config.standard && use_auto_precharge c.config.row_policy

-- The next command of an access, by the state of its bank.
unfoldable pub planned : HbmController → HbmAccess → Result HbmCommand
unfolding local_bank next_command auto_precharge
planned c a = do
  index ← local_bank c.config.first_flat_bank c.config.bank_count a.address.flat_bank
  bank ← get_at c.banks index
  next_command c.config.standard a.op a.address.row bank (auto_precharge c)

-- The marks of an access whose next command is ready at `ready`.
unfoldable pub mark_eligible : ℕ → ℕ → HbmAccess → HbmAccess
mark_eligible ready now a =
    if leb ready now && not a.command_eligible
    then record a { command_eligible = true; command_eligible_since = now }
    else if ltb now ready
    then record a { command_eligible = false }
    else a

-- The loop over the chosen queue: a candidate for each access, and the queue with its marks.
unfoldable pub survey :
    HbmController
    → Bool
    → ℕ
    → ℕ
    → List HbmAccess
    → Result (List SchedulerCandidate × List HbmAccess)
unfolding planned earliest_command mark_eligible is_data_command to_dram_command
survey c is_write now index [] = ok ([], [])
survey c is_write now index (a ∷ queue) = do
  command ← planned c a
  ready ← earliest_command c command a.address now
  generic ← to_dram_command command
  rest ← survey c is_write now (suc index) queue
  ok (
    record {
      queue_index = index;
      is_write = is_write;
      command = generic;
      ready_at = ready;
      sequence = a.sequence;
      row_hit = is_data_command command && not a.activated;
      data_command = is_data_command command;
      request_priority = a.metadata.priority;
    }
        ∷ rest.0,
    mark_eligible ready now a ∷ rest.1,
  )

unfoldable pub candidate_of : SchedulerCandidate → Candidate
unfolding to_hbm_command
candidate_of s = record {
  is_write = s.is_write;
  index = s.queue_index;
  command = to_hbm_command s.command;
  ready_at = s.ready_at;
  priority = if s.row_hit then 3 else if s.data_command then 2 else 1;
}

-- Whether an access replaces the one that waits so far, which stands with its sequence number.
abbrev pub precedes : ℕ → ℕ → Option (Candidate × ℕ) → Bool
precedes ready sequence none = true
precedes ready sequence (some (w, s)) =
    ltb ready w.ready_at || (ready == w.ready_at && ltb sequence s)

-- `find_waiting`: among the accesses to a bank whose next command is a data command, the earliest.
unfoldable pub find_waiting :
    HbmController
    → ℕ
    → ℕ
    → Bool
    → ℕ
    → List HbmAccess
    → Option (Candidate × ℕ)
    → Result (Option (Candidate × ℕ))
unfolding planned earliest_command is_data_command
find_waiting c now target_bank is_write index [] waiting = ok waiting
find_waiting c now target_bank is_write index (a ∷ queue) waiting =
    (elim (a.address.flat_bank == target_bank) [
      | false ↦ ok waiting
      | true ↦ planned c a >>= λ command. elim (is_data_command command) [
        | false ↦ ok waiting
        | true ↦ earliest_command c command a.address now >>= λ ready. ok (
            if precedes ready a.sequence waiting
            then some (
              record {
                is_write = is_write;
                index = index;
                command = command;
                ready_at = ready;
                priority = 2;
              },
              a.sequence,
            )
            else waiting)
      ]
    ])
    >>= λ next. find_waiting c now target_bank is_write (suc index) queue next

-- A precharge that is ready waits for the data commands that are still to come to its bank.
unfoldable pub defer_precharge : HbmController → ℕ → Candidate → Result Candidate
unfolding find_waiting
defer_precharge c now candidate =
    elim (ltb now candidate.ready_at || not (command_eqb candidate.command pre_bank)) [
      | true ↦ ok candidate
      | false ↦
          get_at (if candidate.is_write then c.write_queue else c.read_queue) candidate.index
          >>= λ a. find_waiting c now a.address.flat_bank false 0 c.read_queue none >>= λ reads.
              find_waiting c now a.address.flat_bank true 0 c.write_queue reads >>= λ waiting.
              ok (elim waiting [ none ↦ candidate | some (w, s) ↦ w ])
    ]

abbrev pub is_empty : {A : Type 0} → List A → Bool
is_empty [] = true
is_empty (x ∷ xs) = false

-- Whether the queue that is served next is the write queue.
unfoldable pub serves_writes : HbmController → Bool
serves_writes c = if c.draining_writes then not (is_empty c.write_queue) else is_empty c.read_queue

abbrev pub with_queue : Bool → List HbmAccess → HbmController → HbmController
with_queue true queue c = record c { write_queue = queue }
with_queue false queue c = record c { read_queue = queue }

abbrev pub queue_of : Bool → HbmController → List HbmAccess
queue_of true c = c.write_queue
queue_of false c = c.read_queue

unfoldable pub choose_next : HbmController → ℕ → Result (Option Candidate × HbmController)
unfolding serves_writes survey choose candidate_of defer_precharge
choose_next c now = survey c (serves_writes c) now 0 (queue_of (serves_writes c) c) >>= λ surveyed.
    let marked = with_queue (serves_writes c) surveyed.1 c in
    elim (choose c.config.scheduler surveyed.0 now) [
      | none ↦ ok (none, marked)
      | some selected ↦ defer_precharge marked now (candidate_of selected) >>= λ candidate.
          ok (some candidate, marked)
    ]
