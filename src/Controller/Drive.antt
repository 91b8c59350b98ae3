-- ===== src/Controller/Drive.antt =====
-- src/controller/hbm_controller.cpp: the calls that the system makes, `reserve`, `cancel_reservation`,
-- `admit_reserved`, `drive` and `complete_access`, on the whole state of a controller.
pub mod Conservation
use hbmsim.Prelude.{
  ℕ, ◌-◌, max, Bool, true, false, Option, none, some, List, [], ◌∷◌, ◌++◌, Result, ok, err,
  logic_error, ◌>>=◌, ◌>>◌, throw_if, if◌then◌else◌, ltb, ◌==◌, add64, sub64, length,
}
use hbmsim.Types.{is_read}
use hbmsim.Statistics.{HbmStats, change_channel}
use hbmsim.Controller.Access.{
  HbmAccess, HbmAccessClass, row_hit, row_closed, row_conflict, LogicalCompletion,
}
use hbmsim.Controller.Issue.{issue}
use hbmsim.Controller.Refresh.{choose_maintenance, issue_maintenance, prepare_refresh_for_arrival}
use hbmsim.Controller.Reservations.{reserve, cancel_reservation, can_reserve}
use hbmsim.Controller.Selection.{update_starvation, choose_next}
use hbmsim.Controller.State.{HbmController, HbmControllerStep, reservations, write_drain}
use hbmsim.Controller.WriteDrain.{update_write_drain}

-- `HbmController::reserve` and `HbmController::cancel_reservation`.
unfoldable pub reserve_slots : HbmController → ℕ → ℕ → Result HbmController
unfolding reserve
reserve_slots c reads writes = reserve (reservations c) reads writes >>= λ s.
    ok (record c { reserved_reads = s.reserved_reads; reserved_writes = s.reserved_writes })

unfoldable pub cancel_slots : HbmController → ℕ → ℕ → Result HbmController
unfolding cancel_reservation
cancel_slots c reads writes = cancel_reservation (reservations c) reads writes >>= λ s.
    ok (record c { reserved_reads = s.reserved_reads; reserved_writes = s.reserved_writes })

-- The access joins its queue and takes the place that was reserved for it.
unfoldable pub enqueue : HbmController → HbmAccess → Result HbmController
enqueue c a = elim (is_read a.op) [
  | true ↦ do
    throw_if (c.reserved_reads == 0) logic_error
    ok (record c { reserved_reads = sub64 c.reserved_reads 1; read_queue = c.read_queue ++ a ∷ [] })
  | false ↦ do
    throw_if (c.reserved_writes == 0) logic_error
    ok (record c {
      reserved_writes = sub64 c.reserved_writes 1;
      write_queue = c.write_queue ++ a ∷ [];
    })
]

unfoldable pub count_depth : HbmController → HbmStats → Result HbmStats
unfolding change_channel
count_depth c s =
    change_channel
      (λ k. ok (record k {
        queue = record k.queue {
          max_read_depth = max k.queue.max_read_depth (length c.read_queue);
          max_write_depth = max k.queue.max_write_depth (length c.write_queue);
        };
      }))
      c.config.channel s

-- The part of `admit_reserved` after the refreshes.
unfoldable pub admit : HbmController → HbmAccess → Result HbmController
unfolding enqueue count_depth
admit c a = do
  queued ← enqueue c (record a { enqueued_at = a.arrival_time })
  stats ← count_depth queued queued.stats
  ok (record queued { outstanding_accesses = add64 c.outstanding_accesses 1; stats = stats })

unfoldable pub admit_reserved :
    ℕ → ℕ → HbmController → HbmAccess → ℕ → Option (Result HbmController)
unfolding prepare_refresh_for_arrival admit
admit_reserved fuel idle_fuel c a now = elim (prepare_refresh_for_arrival fuel idle_fuel c now) [
  | none ↦ none
  | some (err e) ↦ some (err e)
  | some (ok prepared) ↦ some (admit prepared a)
]

-- The stall that a busy refresh means, counted once.
unfoldable pub account_stall : HbmController → ℕ → Result HbmController
unfolding change_channel
account_stall c now =
    let from = max now c.refresh_stall_accounted_until in
    elim (ltb from c.refresh_busy_until) [
      | false ↦ ok c
      | true ↦
          (if c.config.detailed_stats
            then change_channel
                (λ k. ok (record k {
                  queue = record k.queue {
                    refresh_stall_time =
                        add64 k.queue.refresh_stall_time (sub64 c.refresh_busy_until from);
                  };
                }))
                c.config.channel c.stats
            else ok c.stats)
          >>= λ stats.
              ok (record c { stats = stats; refresh_stall_accounted_until = c.refresh_busy_until })
    ]

abbrev pub wait_until : ℕ → HbmControllerStep
wait_until time = record { wake_at = some time; issued_access = none }

-- The last part of `drive`: the queues.
unfoldable pub drive_queues : HbmController → ℕ → Result (HbmControllerStep × HbmController)
unfolding update_write_drain choose_next issue
drive_queues c now =
    let drained = record c {
      draining_writes = (update_write_drain (write_drain c) (length c.write_queue)).draining_writes;
    } in
    choose_next drained now >>= λ chosen. elim chosen.0 [
      | none ↦ ok (record { wake_at = none; issued_access = none }, chosen.1)
      | some candidate ↦ elim (ltb now candidate.ready_at) [
        | true ↦ ok (wait_until candidate.ready_at, chosen.1)
        | false ↦ issue chosen.1 candidate now >>= λ issued.
            ok (record { wake_at = some now; issued_access = issued.0 }, issued.1)
      ]
    ]

-- The part of `drive` after the wait for a refresh.
unfoldable pub drive_idle : HbmController → ℕ → Result (HbmControllerStep × HbmController)
unfolding choose_maintenance issue_maintenance drive_queues
drive_idle c now = choose_maintenance c now >>= λ chosen. elim chosen [
  | none ↦ drive_queues c now
  | some m ↦ elim (ltb now m.ready_at) [
    | true ↦ ok (wait_until m.ready_at, c)
    | false ↦ issue_maintenance c m now >>= λ issued.
        ok (wait_until (if m.final_command then issued.refresh_busy_until else now), issued)
  ]
]

unfoldable pub drive : HbmController → ℕ → Result (HbmControllerStep × HbmController)
unfolding update_starvation account_stall drive_idle
drive c now = update_starvation c now >>= λ starved. elim (ltb now starved.refresh_busy_until) [
  | true ↦
      account_stall starved now >>= λ stalled. ok (wait_until starved.refresh_busy_until, stalled)
  | false ↦ drive_idle starved now
]

abbrev pub count_class : HbmAccessClass → HbmStats → HbmStats
count_class row_hit s = record s { row_hits = add64 s.row_hits 1 }
count_class row_closed s = record s { row_closed = add64 s.row_closed 1 }
count_class row_conflict s = record s { row_conflicts = add64 s.row_conflicts 1 }

unfoldable pub complete_access : HbmController → LogicalCompletion → Result HbmController
unfolding change_channel
complete_access c access = do
  throw_if (c.outstanding_accesses == 0) logic_error
  stats ←
      change_channel
        (λ k. ok (record k { completed_bytes = add64 k.completed_bytes access.size_bytes }))
        c.config.channel c.stats
  ok (record c {
    outstanding_accesses = sub64 c.outstanding_accesses 1;
    stats = count_class access.access_class stats;
  })
