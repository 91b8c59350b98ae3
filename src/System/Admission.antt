-- ===== src/System/Admission.antt =====
-- src/hbm_system.cpp: `try_submit_now` and `pump_admissions`, with the events that these schedule. The fuel is
-- that of `HbmController::admit_reserved`; the loops over parts have as much as they need.
pub mod Frame
pub mod Submission
use hbmsim.Prelude.{
  ℕ, zero, suc, max, Bool, true, false, not, ◌||◌, Option, none, some, List, [], ◌∷◌, ◌++◌, Result,
  ok, err, out_of_range, Ran, ◌>>=◌, ◌>>>◌, or_throw, if◌then◌else◌, ltb, leb, ◌==◌, u64_max, add64,
  sub64, get_at, set, length, replicate, is_some,
}
use hbmsim.Types.{HbmOp, is_read}
use hbmsim.Statistics.{HbmStats, change_channel}
use hbmsim.EventQueue.{schedule_at}
use hbmsim.Controller.Access.{LogicalAccess, new_access}
use hbmsim.Controller.Drive.{reserve_slots, admit_reserved}
use hbmsim.Controller.Reservations.{can_reserve}
use hbmsim.Controller.State.{HbmController, reservations}
use hbmsim.Controller.Wakeups.{mark_wakeup, claim_refresh_event}
use hbmsim.System.Config.{organization}
use hbmsim.System.Splitting.{next_access}
use hbmsim.System.State.{
  HbmSystem, ParentRequest, new_parent, SystemEvent, controller_wake, refresh_due, PendingEvent,
  find_parent, set_parent, lend, put_back,
}
use hbmsim.System.Transaction.{
  HbmTransaction, SubmitStatus, accepted, backpressure, invalid, duplicate_id, arrival_in_future,
}

-- The event's token is the one that the scheduler gives next.
unfoldable pub schedule_event : HbmSystem → ℕ → SystemEvent → Result HbmSystem
unfolding schedule_at
schedule_event s when event =
    schedule_at s.scheduler when (record { token = s.scheduler.next_token; event = event })
    >>= λ scheduled.
        ok (record s { scheduler = scheduled.1; pending_events = scheduled.0 ∷ s.pending_events })

unfoldable pub schedule_controller_wake : HbmSystem → ℕ → ℕ → Result HbmSystem
unfolding schedule_event mark_wakeup
schedule_controller_wake s channel when =
    let time = max when s.scheduler.now in
    get_at s.controllers channel >>= λ c.
    let marked = mark_wakeup c.wakeups time in
    elim marked.0 [
      | false ↦ ok s
      | true ↦
          schedule_event
            (record s { controllers = set s.controllers channel (record c { wakeups = marked.1 }) })
            time (controller_wake channel time)
    ]

unfoldable pub schedule_refresh_due : HbmSystem → ℕ → Result HbmSystem
unfolding schedule_event claim_refresh_event
schedule_refresh_due s channel = get_at s.controllers channel >>= λ c.
    let claimed = claim_refresh_event c.wakeups in
    elim claimed.0 [
      | none ↦ ok s
      | some due ↦
          schedule_event
            (record s {
              controllers = set s.controllers channel (record c { wakeups = claimed.1 });
            })
            due (refresh_due channel due)
    ]

-- `next_access` with the system's parameters; a part is never missing of a transaction that has bytes left.
unfoldable pub next_part : HbmSystem → HbmTransaction → ℕ → Ran LogicalAccess
unfolding next_access
next_part s t offset =
    next_access (suc t.size_bytes) s.address_mapper
      (organization s.config.device).physical_burst_bytes
      s.config.simulation.simulation_access_granularity_bytes t offset
    >>> λ part. elim part [ none ↦ none | some access ↦ some (ok access) ]

-- `can_reserve(read, !read)`: one place in one of the queues.
abbrev pub reads : HbmOp → ℕ
reads op = if is_read op then 1 else 0

abbrev pub writes : HbmOp → ℕ
writes op = if is_read op then 0 else 1

abbrev pub has_room : HbmController → HbmOp → Bool
has_room c op = can_reserve (reservations c) (reads op) (writes op)

-- One part is reserved for and admitted.
unfoldable pub admit_part : ℕ → HbmSystem → HbmController → LogicalAccess → Ran HbmSystem
unfolding reserve_slots admit_reserved
admit_part fuel s c access =
    some (reserve_slots c (reads access.op) (writes access.op)) >>> λ reserved.
    let counted = record s {
      stats = record s.stats { modeled_accesses = add64 s.stats.modeled_accesses 1 };
      next_access_sequence = add64 s.next_access_sequence 1;
    } in
    admit_reserved fuel fuel (lend counted reserved)
      (new_access (record access { sequence = s.next_access_sequence })) s.scheduler.now
    >>> λ admitted. some (ok (put_back counted access.address.flat_channel admitted))

abbrev pub count_part : LogicalAccess → ParentRequest → ParentRequest
count_part access parent = record parent {
  admitted_bytes = add64 parent.admitted_bytes access.size_bytes;
  remaining_accesses = add64 parent.remaining_accesses 1;
}

-- The inner loop, over the parts of one transaction.
unfoldable pub admit_parts :
    ℕ → ℕ → HbmSystem → ParentRequest → List Bool → Ran (HbmSystem × ParentRequest × List Bool)
unfolding next_part can_reserve admit_part
admit_parts zero fuel s parent touched = none
admit_parts (suc rounds) fuel s parent touched =
    elim (ltb parent.admitted_bytes parent.transaction.size_bytes) [
      | false ↦ some (ok (s, parent, touched))
      | true ↦ next_part s parent.transaction parent.admitted_bytes >>> λ access.
          some (get_at s.controllers access.address.flat_channel) >>> λ c.
          elim (has_room c access.op) [
            | false ↦ some (ok (s, parent, touched))
            | true ↦ admit_part fuel s c access >>> λ next.
                admit_parts rounds fuel next (count_part access parent)
                  (set touched access.address.flat_channel true)
          ]
    ]

-- The transactions that stay in `pending_admissions` after the loop over them.
abbrev pub keep : ℕ → ParentRequest → List ℕ → List ℕ
keep id parent ids =
    if parent.admitted_bytes == parent.transaction.size_bytes then ids else id ∷ ids

-- The loop over the pending transactions.
unfoldable pub pump : ℕ → HbmSystem → List Bool → List ℕ → Ran (HbmSystem × List ℕ × List Bool)
unfolding admit_parts
pump fuel s touched [] = some (ok (s, [], touched))
pump fuel s touched (id ∷ ids) =
    some (or_throw (find_parent id s.parents) out_of_range) >>> λ parent.
    admit_parts (suc parent.transaction.size_bytes) fuel s parent touched >>> λ r.
    pump fuel (record r.0 { parents = set_parent id r.1 r.0.parents }) r.2 ids >>> λ rest.
    some (ok (rest.0, keep id r.1 rest.1, rest.2))

-- The loop over the channels.
unfoldable pub wake_touched : ℕ → List Bool → HbmSystem → Result HbmSystem
unfolding schedule_refresh_due schedule_controller_wake
wake_touched channel [] s = ok s
wake_touched channel (false ∷ touched) s = wake_touched (suc channel) touched s
wake_touched channel (true ∷ touched) s = schedule_refresh_due s channel >>= λ refreshed.
    schedule_controller_wake refreshed channel refreshed.scheduler.now >>= λ woken.
    wake_touched (suc channel) touched woken

unfoldable pub pump_admissions : ℕ → HbmSystem → Ran HbmSystem
unfolding pump wake_touched
pump_admissions fuel s =
    pump fuel s (replicate (length s.controllers) false) s.pending_admissions >>> λ r.
    some (wake_touched 0 r.2 (record r.0 { pending_admissions = r.1 }))

-- The early returns of `try_submit_now`.
unfoldable pub refusal : HbmSystem → HbmTransaction → Option SubmitStatus
refusal s t =
    if t.id == 0 || t.size_bytes == 0
    then some invalid
    else if ltb s.scheduler.now t.arrival_time
    then some arrival_in_future
    else if is_some (find_parent t.id s.parents)
    then some duplicate_id
    else if ltb (sub64 u64_max t.address) (sub64 t.size_bytes 1)
    then some invalid
    else none

-- The counters of a rejection; a channel out of range, which C++ leaves undefined, throws here.
unfoldable pub reject : HbmSystem → ℕ → Result HbmSystem
unfolding change_channel
reject s channel =
    change_channel
      (λ k. ok (record k {
        queue = record k.queue { rejected_transactions = add64 k.queue.rejected_transactions 1 };
      }))
      channel (record s.stats { rejected_transactions = add64 s.stats.rejected_transactions 1 })
    >>= λ stats. ok (record s { stats = stats })

-- A transaction becomes a parent whose parts are pending.
abbrev pub enter : HbmSystem → HbmTransaction → HbmSystem
enter s t = record s {
  parents = (t.id, new_parent t) ∷ s.parents;
  pending_admissions = s.pending_admissions ++ t.id ∷ [];
  stats = record s.stats { submitted_transactions = add64 s.stats.submitted_transactions 1 };
}

abbrev pub is_full : HbmSystem → HbmController → HbmTransaction → Bool
is_full s c t =
    leb s.config.controller.max_active_transactions (length s.parents) || not (has_room c t.op)

unfoldable pub try_submit_now : ℕ → HbmSystem → HbmTransaction → Ran (SubmitStatus × HbmSystem)
unfolding refusal next_part can_reserve reject pump_admissions
try_submit_now fuel s t = elim (refusal s t) [
  | some status ↦ some (ok (status, s))
  | none ↦ next_part s t 0 >>> λ first.
      some (get_at s.controllers first.address.flat_channel) >>> λ c. elim (is_full s c t) [
        | true ↦ some (reject s first.address.flat_channel) >>> λ rejected.
            some (ok (backpressure, rejected))
        | false ↦ pump_admissions fuel (enter s t) >>> λ next. some (ok (accepted, next))
      ]
]
