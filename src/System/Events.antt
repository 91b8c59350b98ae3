-- ===== src/System/Events.antt =====
-- src/hbm_system.cpp: what the scheduled events do, `drive_controller`, `finish_access` and `complete_parent`. The
-- callbacks of the client, who may keep a state of type W and may submit again, are parameters.
pub mod Completion
use hbmsim.Prelude.{
  ℕ, zero, suc, Bool, true, false, not, ◌&&◌, Option, none, some, List, [], ◌∷◌, ◌++◌, Result, ok,
  err, logic_error, Ran, ◌>>=◌, ◌>>◌, ◌>>>◌, throw_if, or_throw, if◌then◌else◌, leb, ◌==◌, add64,
  sub64, get_at, is_some,
}
use hbmsim.Types.{is_read}
use hbmsim.Statistics.{HbmStats}
use hbmsim.EventQueue.{EventQueue, take_next}
use hbmsim.Controller.Access.{LogicalCompletion}
use hbmsim.Controller.Drive.{drive, complete_access}
use hbmsim.Controller.Refresh.{handle_refresh_event}
use hbmsim.Controller.Reservations.{available_read_slots, available_write_slots}
use hbmsim.Controller.State.{HbmController, HbmControllerStep, PhysicalAccess, reservations}
use hbmsim.Controller.Wakeups.{clear_wakeup}
use hbmsim.System.Admission.{
  schedule_event, schedule_controller_wake, schedule_refresh_due, pump_admissions,
}
use hbmsim.System.State.{
  HbmSystem, ParentRequest, CapacityNotification, SystemEvent, controller_wake, refresh_due,
  transfer_end, capacity_freed, PendingEvent, find_parent, set_parent, erase_parent, lend, put_back,
}
use hbmsim.System.Transaction.{HbmCompletion}

-- What a completed access changes in its parent.
unfoldable pub note_completion : ℕ → ℕ → LogicalCompletion → ParentRequest → ParentRequest
note_completion channel time access parent =
    let fewer = record parent { remaining_accesses = sub64 parent.remaining_accesses 1 } in
    if leb parent.completion_time time
    then record fewer {
      completion_time = time;
      completion_channel = channel;
      last_access_class = access.access_class;
      last_latency_breakdown = access.latency_breakdown;
    }
    else fewer

-- All parts of a parent are admitted and completed.
abbrev pub is_complete : ParentRequest → Bool
is_complete parent =
    parent.remaining_accesses == 0 && parent.admitted_bytes == parent.transaction.size_bytes

abbrev pub completion_for : ParentRequest → HbmCompletion
completion_for parent = record {
  id = parent.transaction.id;
  op = parent.transaction.op;
  address = parent.transaction.address;
  size_bytes = parent.transaction.size_bytes;
  client = parent.transaction.client;
  channel = parent.completion_channel;
  access_class = parent.last_access_class;
  arrival_time = parent.transaction.arrival_time;
  completion_time = parent.completion_time;
  latency = sub64 parent.completion_time parent.transaction.arrival_time;
  latency_breakdown = parent.last_latency_breakdown;
  metadata = parent.transaction.metadata;
}

abbrev count_completion : HbmCompletion → HbmStats → HbmStats
count_completion completion s =
    let completed = record s { completed_transactions = add64 s.completed_transactions 1 } in
    if is_read completion.op
    then record completed { read_bytes = add64 completed.read_bytes completion.size_bytes }
    else record completed { write_bytes = add64 completed.write_bytes completion.size_bytes }

-- `complete_parent` up to its callbacks.
unfoldable pub retire : HbmSystem → ℕ → Result (HbmCompletion × HbmSystem)
retire s id = or_throw (find_parent id s.parents) logic_error >>= λ parent.
    let completion = completion_for parent in
    ok (
      completion,
      record s {
        stats = count_completion completion s.stats;
        completions =
            if s.config.simulation.retain_completions
            then s.completions ++ completion ∷ []
            else s.completions;
        parents = erase_parent id s.parents;
      },
    )

-- `finish_access` up to `complete_parent`.
unfoldable pub note_access :
    HbmSystem → LogicalCompletion → ℕ → ℕ → Result (ParentRequest × HbmSystem)
unfolding complete_access note_completion
note_access s access channel time = do
  c ← get_at s.controllers channel
  completed ← complete_access (lend s c) access
  parent ← or_throw (find_parent access.parent_id s.parents) logic_error
  throw_if (parent.remaining_accesses == 0) logic_error
  let noted = note_completion channel time access parent
  ok (
    noted,
    record (put_back s channel completed) { parents = set_parent access.parent_id noted s.parents },
  )

-- The news of a controller's free places.
unfoldable pub capacity_of : HbmSystem → ℕ → ℕ → Result CapacityNotification
unfolding available_read_slots available_write_slots
capacity_of s channel time = get_at s.controllers channel >>= λ c. ok (record {
  time = time;
  channel = channel;
  read_slots = available_read_slots (reservations c);
  write_slots = available_write_slots (reservations c);
})

-- The events that a step of a controller schedules.
unfoldable pub follow_up : Bool → HbmSystem → PhysicalAccess → ℕ → Result HbmSystem
unfolding schedule_event
follow_up has_capacity_callback s issued channel =
    schedule_event s issued.completion_time (transfer_end issued channel) >>= λ scheduled.
    if has_capacity_callback
    then schedule_event scheduled scheduled.scheduler.now
        (capacity_freed channel scheduled.scheduler.now)
    else ok scheduled

unfoldable pub after_step : ℕ → Bool → HbmSystem → Option PhysicalAccess → ℕ → Ran HbmSystem
unfolding pump_admissions follow_up
after_step fuel has_capacity_callback s none channel = some (ok s)
after_step fuel has_capacity_callback s (some issued) channel = pump_admissions fuel s >>> λ pumped.
    some (follow_up has_capacity_callback pumped issued channel)

unfoldable pub drive_controller : ℕ → Bool → HbmSystem → ℕ → Ran HbmSystem
unfolding drive after_step schedule_controller_wake
drive_controller fuel has_capacity_callback s channel = some (get_at s.controllers channel) >>> λ c.
    some (drive (lend s c) s.scheduler.now) >>> λ driven.
    after_step fuel has_capacity_callback (put_back s channel driven.1) driven.0.issued_access
      channel
    >>> λ next. elim driven.0.wake_at [
      | none ↦ some (ok next)
      | some when ↦ some (schedule_controller_wake next channel when)
    ]

-- `controllers_.at(channel)->clear_wakeup(when); drive_controller(channel);`
unfoldable pub wake_controller : ℕ → Bool → HbmSystem → ℕ → ℕ → Ran HbmSystem
unfolding clear_wakeup drive_controller
wake_controller fuel has_capacity_callback s channel when =
    some (get_at s.controllers channel) >>> λ c.
    drive_controller fuel has_capacity_callback
      (put_back s channel (record (lend s c) { wakeups = clear_wakeup c.wakeups when })) channel

-- The lambda of `schedule_refresh_due`.
unfoldable pub refresh_controller : ℕ → HbmSystem → ℕ → ℕ → Ran HbmSystem
unfolding handle_refresh_event schedule_controller_wake schedule_refresh_due
refresh_controller fuel s channel due = some (get_at s.controllers channel) >>> λ c.
    handle_refresh_event fuel (lend s c) due >>> λ refreshed.
    some (schedule_controller_wake (put_back s channel refreshed) channel due) >>> λ woken.
    elim (refreshed.outstanding_accesses == 0) [
      | true ↦ some (ok woken)
      | false ↦ some (schedule_refresh_due woken channel)
    ]

module _ {W : Type 0}
    (completion_callback : Option (HbmCompletion → W × HbmSystem → Ran (W × HbmSystem)))
    (capacity_callback : Option (CapacityNotification → W × HbmSystem → Ran (W × HbmSystem))) where
  -- `if (callback) callback(...)`
  abbrev call :
      {A : Type 0}
      → Option (A → W × HbmSystem → Ran (W × HbmSystem))
      → A
      → W × HbmSystem
      → Ran (W × HbmSystem)
  call none a ws = some (ok ws)
  call (some callback) a ws = callback a ws

  abbrev notify_capacity : ℕ → ℕ → W × HbmSystem → Ran (W × HbmSystem)
  notify_capacity channel time ws = elim capacity_callback [
    | none ↦ some (ok ws)
    | some callback ↦ some (capacity_of ws.1 channel time) >>> λ news. callback news ws
  ]

  unfoldable pub complete_parent : W × HbmSystem → ℕ → Ran (W × HbmSystem)
  unfolding retire capacity_of
  complete_parent ws id = some (retire ws.1 id) >>> λ retired.
      call completion_callback retired.0 (ws.0, retired.1) >>> λ told.
      notify_capacity retired.0.channel told.1.scheduler.now told

  unfoldable pub finish_access : W × HbmSystem → LogicalCompletion → ℕ → ℕ → Ran (W × HbmSystem)
  unfolding note_access complete_parent
  finish_access ws access channel time = some (note_access ws.1 access channel time) >>> λ noted.
      elim (is_complete noted.0) [
        | false ↦ some (ok (ws.0, noted.1))
        | true ↦ complete_parent (ws.0, noted.1) access.parent_id
      ]

  -- The loop over the completions of a transfer.
  unfoldable pub finish_accesses :
      W × HbmSystem → List LogicalCompletion → ℕ → ℕ → Ran (W × HbmSystem)
  unfolding finish_access
  finish_accesses ws [] channel time = some (ok ws)
  finish_accesses ws (access ∷ rest) channel time =
      finish_access ws access channel time >>> λ next. finish_accesses next rest channel time

  unfoldable pub on_event : ℕ → W × HbmSystem → SystemEvent → Ran (W × HbmSystem)
  unfolding wake_controller refresh_controller finish_accesses capacity_of
  on_event fuel ws (controller_wake channel when) =
      wake_controller fuel (is_some capacity_callback) ws.1 channel when >>> λ s.
      some (ok (ws.0, s))
  on_event fuel ws (refresh_due channel due) =
      refresh_controller fuel ws.1 channel due >>> λ s. some (ok (ws.0, s))
  on_event fuel ws (transfer_end issued channel) =
      finish_accesses ws issued.completions channel issued.completion_time
  on_event fuel ws (capacity_freed channel when) = notify_capacity channel when ws

  -- `pending_events_.erase(*token)`
  abbrev erase_pending : ℕ → List ℕ → List ℕ
  erase_pending token [] = []
  erase_pending token (t ∷ tokens) = if t == token then tokens else t ∷ erase_pending token tokens

  -- The lambda of `schedule_event`, and a dispatch by the scheduler of the next event, if there is one.
  unfoldable pub step_event : ℕ → W × HbmSystem → Ran (W × HbmSystem)
  unfolding take_next on_event
  step_event fuel ws = elim (take_next ws.1.scheduler) [
    | none ↦ some (ok ws)
    | some (e, rest) ↦
        on_event fuel
          (
            ws.0,
            record ws.1 {
              scheduler = rest;
              pending_events = erase_pending e.callback.token ws.1.pending_events;
            },
          )
          e.callback.event
  ]
