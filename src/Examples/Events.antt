-- ===== src/Examples/Events.antt =====
-- The event queue: three events, one cancelled, and runs with callbacks that note what they did.
use hbmsim.Prelude.{
  ◌-◌, inl, inr, ℕ, ◌+◌, ◌>>=◌, ◌≤◌, ◌<◌, ◌≡◌, ◌≢◌, ◌⊎◌, refl, ok, err, Result, invalid_argument,
  arith, true, none, some, List, [], ◌∷◌, ◌++◌, is_some,
}
use hbmsim.EventQueue.{
  Event, EventQueue, new_queue, schedule_at, cancel, take_next, run, run_until, run_next, next_time,
}
use hbmsim.EventQueue.Store.{Key, key, emplace, After, lookup, find_token}
use hbmsim.EventQueue.Invariant.{
  IsQueue, new_queue-IsQueue, schedule_at-IsQueue, schedule_at-cases, added, scheduled,
}
use hbmsim.EventQueue.Removal.{cancel-IsQueue, cancel-exact, take_next-IsQueue, take_next-least}
use hbmsim.EventQueue.Run.{IsCallback, Outcome, run_until-Outcome}

-- Callback 7 at 30, callback 8 at 10, callback 9 at 30.
abbrev one : EventQueue ℕ
one = record {
  now = 0;
  next_sequence = 1;
  next_token = 2;
  events = (key 30 0, record { time = 30; sequence = 0; token = 1; callback = 7 }) ∷ [];
  tokens = (1, key 30 0) ∷ [];
}

abbrev two : EventQueue ℕ
two = record {
  now = 0;
  next_sequence = 2;
  next_token = 3;
  events =
      (key 10 1, record { time = 10; sequence = 1; token = 2; callback = 8 })
      ∷ (key 30 0, record { time = 30; sequence = 0; token = 1; callback = 7 })
      ∷ [];
  tokens = (1, key 30 0) ∷ (2, key 10 1) ∷ [];
}

abbrev after_first : EventQueue ℕ
after_first = record one { now = 10; next_sequence = 2; next_token = 3 }

schedule_first : schedule_at (new_queue {C = ℕ}) 30 7 ≡ ok (1, one)
unfolding schedule_at
schedule_first = refl

schedule_second : schedule_at one 10 8 ≡ ok (2, two)
unfolding schedule_at
schedule_second = refl

one-IsQueue : IsQueue one
one-IsQueue =
    schedule_at-IsQueue new_queue one 30 1 7 new_queue-IsQueue (omega arith) (omega arith)
      schedule_first

two-IsQueue : IsQueue two
two-IsQueue =
    schedule_at-IsQueue one two 10 2 8 one-IsQueue (omega arith) (omega arith) schedule_second

schedule_at-IsQueue_example : IsQueue two
schedule_at-IsQueue_example =
    schedule_at-IsQueue one two 10 2 8 one-IsQueue (omega arith) (omega arith) schedule_second

cancel-IsQueue_example : IsQueue (cancel two 1).1
cancel-IsQueue_example = cancel-IsQueue two 1 two-IsQueue

cancel-exact_example :
    ((cancel two 1).0 ≡ is_some (find_token 1 two.tokens))
    × (((◌≡◌ {A = ℕ} 1 1)
          × (lookup (key 30 0) (cancel two 1).1.events ≡ none)
          × (find_token 1 (cancel two 1).1.tokens ≡ none))
        ⊎ ((◌≢◌ {A = ℕ} 1 1)
            × (lookup (key 30 0) (cancel two 1).1.events
                ≡ some (record { time = 30; sequence = 0; token = 1; callback = 7 }))))
unfolding lookup
cancel-exact_example = cancel-exact two 1 (key 30 0) _ two-IsQueue refl

first_event :
    take_next two ≡ some (record { time = 10; sequence = 1; token = 2; callback = 8 }, after_first)
unfolding take_next
first_event = refl

take_next-IsQueue_example : IsQueue after_first
take_next-IsQueue_example = take_next-IsQueue two after_first _ two-IsQueue first_event

take_next-least_example :
    (two.now ≤ 10)
    × (after_first.now ≡ 10)
    × (two.events
        ≡ (key 10 1, record { time = 10; sequence = 1; token = 2; callback = 8 })
          ∷ after_first.events)
    × After (key 10 1) after_first.events
    × (find_token 2 two.tokens ≡ some (key 10 1))
    × (find_token 2 after_first.tokens ≡ none)
take_next-least_example = take_next-least two after_first _ two-IsQueue first_event

-- A callback that notes its number.
note : ℕ → List ℕ → EventQueue ℕ → Result (List ℕ × EventQueue ℕ)
note c w q = ok (w ++ c ∷ [], q)

runs_in_order :
    run note 3 [] two
    ≡ some (ok (8 ∷ 7 ∷ [], record after_first { now = 30; events = []; tokens = [] }))
unfolding run note
runs_in_order = refl

stops_in_time : run_until note 3 20 [] two ≡ some (ok (8 ∷ [], record after_first { now = 20 }))
unfolding run_until note
stops_in_time = refl

runs_next :
    run_next note [] one ≡ ok (true, 7 ∷ [], record one { now = 30; events = []; tokens = [] })
unfolding run_next note
runs_next = refl

next_is_first : next_time two ≡ ok 10
unfolding next_time
next_is_first = refl

-- A callback that notes its number and schedules itself again ten units later, so that `run` never ends.
repeat : ℕ → List ℕ → EventQueue ℕ → Result (List ℕ × EventQueue ℕ)
repeat c w q = schedule_at q (q.now + 10) c >>= λ r. ok (w ++ c ∷ [], r.1)

repeats_in_time :
    elim (run_until repeat 70 50 [] two) [
      | none ↦ none
      | some (err x) ↦ none
      | some (ok (w, q)) ↦ some w
    ]
    ≡ some (8 ∷ 8 ∷ 7 ∷ 8 ∷ 7 ∷ 8 ∷ 7 ∷ 8 ∷ [])
unfolding run_until repeat schedule_at
repeats_in_time = refl

-- The time that the pending events have left up to the time 50, which bounds their dispatches by then.
time_left : List (Key × Event ℕ) → ℕ
time_left [] = 0
time_left ((k, e) ∷ m) = 51 - e.time + time_left m

to_come : List ℕ → EventQueue ℕ → ℕ
to_come w q = time_left q.events

time_left-emplace :
    (k : Key) (e : Event ℕ) (m : List (Key × Event ℕ))
    → time_left (emplace k e m) ≤ 51 - e.time + time_left m
unfolding time_left emplace
time_left-emplace k e [] = omega arith
time_left-emplace k e ((j, d) ∷ m) = ground (arith, time_left-emplace k e m)

take_next-time_left :
    (e : Event ℕ) (q q1 : EventQueue ℕ)
    → take_next q ≡ some (e, q1)
    → (time_left q.events ≡ 51 - e.time + time_left q1.events)
      × (q1.now ≡ e.time)
      × (q1.next_sequence ≡ q.next_sequence)
      × (q1.next_token ≡ q.next_token)
unfolding take_next time_left
take_next-time_left e q q1 t = ground arith

repeat-IsCallback : IsCallback repeat 50 to_come
unfolding repeat to_come
repeat-IsCallback e w w' q q1 q' v room t due f =
    let v1 = take_next-IsQueue q q1 e v t in
    let n = take_next-time_left e q q1 t in
    let later = q1.now + 10 in
    elim (schedule_at-cases q1 later e.callback) [
      | inl thrown ↦ absurd (omega (arith, thrown.0))
      | inr (ahead, s) ↦
          let v' =
            schedule_at-IsQueue q1 _ later _ e.callback v1 (omega (arith, n, room, due))
              (omega (arith, n, room, due)) s in
          let ends : added q1 later e.callback ≡ q' = ground arith in
          let m =
            time_left-emplace (key later q1.next_sequence) (scheduled q1 later e.callback)
              q1.events in
          rw (← ends) (
            v',
            refl,
            omega (arith, n, m, due),
            omega (arith, n, m, room, due),
            omega (arith, n, m, room, due),
          )
    ]

run_until-Outcome_example :
    ((50 < 0) × (run_until repeat 70 50 [] two ≡ some (err invalid_argument)))
    ⊎ ((0 ≤ 50) × Outcome repeat 50 (run_until repeat 70 50 [] two))
unfolding to_come time_left
run_until-Outcome_example =
    run_until-Outcome repeat 50 to_come repeat-IsCallback 70 [] two two-IsQueue
      (omega arith, omega arith) (omega arith)
