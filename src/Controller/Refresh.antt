-- ===== src/Controller/Refresh.antt =====
-- src/controller/hbm_controller.cpp: refresh and refresh management, `choose_maintenance`,
-- `issue_maintenance`, `apply_idle_refresh`, `prepare_refresh_for_arrival` and `handle_refresh_event`. The
-- two loops take fuel: one round for each command, and one for each interval.
pub mod Load
pub mod Requests
pub mod Settling
pub mod Termination
use hbmsim.Prelude.{
  ℕ, zero, suc, ◌%◌, max, Bool, true, false, ◌&&◌, ◌||◌, Option, none, some, List, [], ◌∷◌, map,
  Result, ok, err, logic_error, ◌>>=◌, if◌then◌else◌, ltb, leb, ◌==◌, add32, add64, get_at, any,
  holds, length,
}
use hbmsim.Mapping.{bank_address}
use hbmsim.Dram.Command.{HbmCommand, refresh_all_bank, refresh_per_bank, rfm_all_bank, rfm_per_bank}
use hbmsim.Dram.Standard.{HbmBankState, CommandDecision}
use hbmsim.Statistics.{HbmStats, ChannelStats, change_channel}
use hbmsim.Controller.Banks.{any_bank_open, change_bank, apply_to_banks}
use hbmsim.Controller.Commands.{earliest_command, command_bus_ready, record_issue}
use hbmsim.Controller.Planner.{next_decision}
use hbmsim.Controller.Policies.{uses_all_bank_refresh, all_bank_command, maintenance_duration}
use hbmsim.Controller.State.{HbmController, MaintenanceCandidate}

abbrev pub maintenance : HbmCommand → CommandDecision → ℕ → ℕ → MaintenanceCandidate
maintenance requested d local_bank ready = record {
  requested = requested;
  command = d.command;
  local_bank = local_bank;
  ready_at = ready;
  final_command = d.final_command;
}

-- The candidate for one bank and one request.
unfoldable pub maintain :
    HbmController → ℕ → HbmCommand → ℕ → HbmBankState → Result MaintenanceCandidate
unfolding bank_address next_decision earliest_command
maintain c now requested index bank = do
  address ← bank_address c.mapper (add32 c.config.first_flat_bank index)
  d ← next_decision c.config.standard requested 0 bank (any_bank_open c.banks)
  ready ← earliest_command c d.command address now
  ok (maintenance requested d index ready)

-- What a bank asks for.
unfoldable pub request_of : HbmBankState → Option HbmCommand
request_of b =
    if b.rfm_pending
    then some rfm_per_bank
    else if b.refresh_pending
    then some refresh_per_bank
    else none

abbrev pub sooner : MaintenanceCandidate → Option MaintenanceCandidate → Bool
sooner m none = true
sooner m (some e) =
    ltb m.ready_at e.ready_at || (m.ready_at == e.ready_at && ltb m.local_bank e.local_bank)

-- The loop over the banks.
unfoldable pub maintain_banks :
    HbmController
    → ℕ
    → ℕ
    → List HbmBankState
    → Option MaintenanceCandidate
    → Result (Option MaintenanceCandidate)
unfolding maintain request_of
maintain_banks c now index [] earliest = ok earliest
maintain_banks c now index (b ∷ banks) earliest =
    (elim (request_of b) [
      | none ↦ ok earliest
      | some requested ↦ maintain c now requested index b >>= λ m.
          ok (if sooner m earliest then some m else earliest)
    ])
    >>= λ next. maintain_banks c now (suc index) banks next

-- The candidate for all banks, which are asked for by the first.
unfoldable pub maintain_all : HbmController → ℕ → HbmBankState → Result MaintenanceCandidate
unfolding bank_address next_decision earliest_command all_bank_command
maintain_all c now bank = do
  let requested = all_bank_command c.config.refresh_policy
  d ← next_decision c.config.standard requested 0 bank (any_bank_open c.banks)
  address ← bank_address c.mapper c.config.first_flat_bank
  ready ← earliest_command c d.command address now
  ok (maintenance requested d 0 ready)

-- `banks_.front()` of no banks, which C++ leaves undefined, throws here.
unfoldable pub choose_maintenance : HbmController → ℕ → Result (Option MaintenanceCandidate)
unfolding maintain_all maintain_banks
choose_maintenance c now = elim c.refresh_pending [
  | true ↦ get_at c.banks 0 >>= λ bank. maintain_all c now bank >>= λ m. ok (some m)
  | false ↦ maintain_banks c now 0 c.banks none
]

abbrev pub count_event : (ChannelStats → ChannelStats) → HbmController → Result HbmStats
count_event change c = change_channel (λ s. ok (change s)) c.config.channel c.stats

abbrev pub refreshed : HbmBankState → HbmBankState
refreshed b = record b { refresh_pending = false; activation_count = 0 }

abbrev pub managed : HbmBankState → HbmBankState
managed b = record b { rfm_pending = false; activation_count = 0 }

abbrev pub count_rfm : HbmController → Result HbmStats
count_rfm c =
    change_channel (λ s. ok (record s { rfm_events = add64 s.rfm_events 1 })) c.config.channel
      (record c.stats { rfm_events = add64 c.stats.rfm_events 1 })

-- The `switch` of `issue_maintenance`: what a final command settles.
unfoldable pub settle : HbmController → HbmCommand → ℕ → Result HbmController
unfolding change_channel
settle c refresh_all_bank index =
    count_event (λ s. record s { refreshes = add64 s.refreshes 1 }) c >>= λ stats.
    ok (record c { refresh_pending = false; stats = stats; banks = map refreshed c.banks })
settle c refresh_per_bank index = change_bank (λ b. ok (refreshed b)) index c.banks >>= λ banks.
    count_event (λ s. record s { per_bank_refreshes = add64 s.per_bank_refreshes 1 }) c >>= λ stats.
    ok (record c { stats = stats; banks = banks })
settle c rfm_all_bank index = count_rfm c >>= λ stats.
    ok (record c { refresh_pending = false; stats = stats; banks = map managed c.banks })
settle c rfm_per_bank index = change_bank (λ b. ok (managed b)) index c.banks >>= λ banks.
    count_rfm c >>= λ stats. ok (record c { stats = stats; banks = banks })
settle c _ index = err logic_error

unfoldable pub issue_maintenance : HbmController → MaintenanceCandidate → ℕ → Result HbmController
unfolding bank_address record_issue apply_to_banks settle maintenance_duration
issue_maintenance c m now =
    bank_address c.mapper (add32 c.config.first_flat_bank m.local_bank) >>= λ address.
    record_issue c m.command address m.local_bank now >>= λ noted.
    apply_to_banks c.config.standard m.command 0 m.local_bank noted.banks >>= λ banks.
    let applied = record noted { banks = banks } in
    elim m.final_command [
      | false ↦ ok applied
      | true ↦ settle applied m.requested m.local_bank >>= λ settled. ok (record settled {
        refresh_busy_until = add64 now (maintenance_duration m.requested c.config.timing);
      })
    ]

-- What `apply_idle_refresh` and `handle_refresh_event` share: a refresh is due.
unfoldable pub request_refresh : HbmController → Result HbmController
unfolding uses_all_bank_refresh
request_refresh c = elim (uses_all_bank_refresh c.config.refresh_policy) [
  | true ↦ ok (record c { refresh_pending = true })
  | false ↦
      change_bank (λ b. ok (record b { refresh_pending = true })) c.next_per_bank_refresh c.banks
      >>= λ banks. ok (record c {
        banks = banks;
        next_per_bank_refresh = add32 c.next_per_bank_refresh 1 % length banks;
      })
]

-- `pending()`
unfoldable pub is_refresh_pending : HbmController → Bool
is_refresh_pending c = c.refresh_pending || any (λ b. b.refresh_pending) c.banks

-- One round of the loop of `apply_idle_refresh`: the cursor moves, the candidate is issued.
unfoldable pub idle_round : HbmController → ℕ → Result (HbmController × ℕ)
unfolding choose_maintenance issue_maintenance command_bus_ready
idle_round c cursor = choose_maintenance c cursor >>= λ chosen. elim chosen [
  | none ↦ err logic_error
  | some m ↦ issue_maintenance c m (max cursor m.ready_at) >>= λ issued.
      ok (issued, max (max cursor m.ready_at) (command_bus_ready issued m.command))
]

unfoldable pub idle_rounds : ℕ → HbmController → ℕ → Option (Result HbmController)
unfolding is_refresh_pending idle_round
idle_rounds zero c cursor = none
idle_rounds (suc fuel) c cursor = elim (is_refresh_pending c) [
  | false ↦ some (ok c)
  | true ↦ elim (idle_round c cursor) [
    | err e ↦ some (err e)
    | ok (next, later) ↦ idle_rounds fuel next later
  ]
]

unfoldable pub apply_idle_refresh : ℕ → HbmController → ℕ → Option (Result HbmController)
unfolding request_refresh idle_rounds
apply_idle_refresh fuel c when = elim (request_refresh c) [
  | err e ↦ some (err e)
  | ok requested ↦ idle_rounds fuel requested (max when requested.refresh_busy_until)
]

abbrev pub with_next_due : ℕ → HbmController → HbmController
with_next_due due c = record c { wakeups = record c.wakeups { next_refresh_due = some due } }

-- The loop of `prepare_refresh_for_arrival`, at the refresh due next.
unfoldable pub catch_up : ℕ → ℕ → HbmController → ℕ → ℕ → Option (Result HbmController)
unfolding apply_idle_refresh
catch_up zero idle_fuel c now due = none
catch_up (suc fuel) idle_fuel c now due = elim (leb due now) [
  | false ↦ some (ok c)
  | true ↦ elim (apply_idle_refresh idle_fuel c due) [
    | none ↦ none
    | some (err e) ↦ some (err e)
    | some (ok next) ↦
        catch_up fuel idle_fuel (with_next_due (add64 due c.config.refresh_interval) next) now
          (add64 due c.config.refresh_interval)
  ]
]

unfoldable pub prepare_refresh_for_arrival :
    ℕ → ℕ → HbmController → ℕ → Option (Result HbmController)
unfolding catch_up
prepare_refresh_for_arrival fuel idle_fuel c now = elim (c.config.refresh_interval == 0) [
  | true ↦ some (ok c)
  | false ↦ elim c.wakeups.next_refresh_due [
    | none ↦
        catch_up fuel idle_fuel (with_next_due (add64 now c.config.refresh_interval) c) now
          (add64 now c.config.refresh_interval)
    | some due ↦ catch_up fuel idle_fuel c now due
  ]
]

unfoldable pub handle_refresh_event : ℕ → HbmController → ℕ → Option (Result HbmController)
unfolding apply_idle_refresh request_refresh
handle_refresh_event idle_fuel c now = elim (holds c.wakeups.refresh_due_at now) [
  | false ↦ some (ok c)
  | true ↦
      let claimed = record c { wakeups = record c.wakeups { refresh_due_at = none } } in
      elim (holds c.wakeups.next_refresh_due now) [
        | false ↦ some (ok claimed)
        | true ↦
            let due = with_next_due (add64 now c.config.refresh_interval) claimed in
            elim (c.outstanding_accesses == 0) [
              | true ↦ apply_idle_refresh idle_fuel due now
              | false ↦ some (request_refresh due)
            ]
      ]
]
