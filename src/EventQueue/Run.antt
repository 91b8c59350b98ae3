-- ===== src/EventQueue/Run.antt =====
-- The loops. What a callback does is limited to what its contract allows: it schedules and cancels, but
-- does not move the clock (include/hbmsim/kernel/sim_scheduler.h: callbacks must not recursively run
-- the queue).
use hbmsim.Prelude.{
  ℕ, zero, suc, ◌+◌, u64_max, ◌<◌, ◌≤◌, ◌≡◌, ◌≢◌, subst, refl, true, false, Option, none, some,
  List, [], ◌∷◌, arith, Result, ok, err, Option-cases, Bool-cases, ◌⊎◌, inl, inr, leb, Result-cases,
  Error, invalid_argument, le→not-ltb, All, dec_lt,
}
use hbmsim.EventQueue.Store.{Key, lookup, IsOrdered, lookup-Before, key_eqb, All-lookup}
use hbmsim.EventQueue.{
  Event, EventQueue, take_next, take_first, due, dispatch_one, run_until, run_due,
}
use hbmsim.EventQueue.Invariant.{IsQueue}

module _ {C : Type 0} where
  -- The head of a well-formed queue is its earliest event.
  later_than_head :
      (q : EventQueue C) (until : ℕ) (es : List (Key × Event C))
      → IsQueue q
      → q.events ≡ es
      → due q until ≡ false
      → (k : Key) (e : Event C) → lookup k q.events ≡ some e
      → until < e.time
  unfolding due lookup
  later_than_head q until [] v s h k e l = ground arith
  later_than_head q until ((j, d) ∷ rest) v s h k e l =
      let o : IsOrdered ((j, d) ∷ rest) = subst IsOrdered s v.ordered in
      let i = v.entries j d (rw s (ground arith)) in
      let i' = v.entries k e l in
      let late : leb d.time until ≡ false = rw (s, due) at h in
      let l' : lookup k ((j, d) ∷ rest) ≡ some e = rw s at l in
      elim (Bool-cases (key_eqb j k)) [
        | inl same ↦ let at_head : d ≡ e = ground arith in ground arith
        | inr other ↦
            let b = lookup-Before j k e rest o.0 (ground arith) in
            ground (arith, i.time_key, i'.time_key)
      ]

  due_first :
      (q q' : EventQueue C) (until : ℕ) (e : Event C) (es : List (Key × Event C))
      → q.events ≡ es
      → due q until ≡ true
      → take_first q es ≡ some (e, q')
      → e.time ≤ until
  unfolding due take_first
  due_first q q' until e [] s h t = cc
  due_first q q' until e ((j, d) ∷ rest) s h t =
      let soon : leb d.time until ≡ true = rw (s, due) at h in ground arith

  due-time :
      (q q1 : EventQueue C) (until : ℕ) (e : Event C)
      → due q until ≡ true
      → take_next q ≡ some (e, q1)
      → e.time ≤ until
  unfolding take_next
  due-time q q1 until e d t = due_first q q1 until e q.events refl d t

  due-take_next : (q : EventQueue C) (until : ℕ) → due q until ≡ true → take_next q ≢ none
  unfolding due take_next take_first
  due-take_next q until d t = ground arith

  -- Setting the clock to a time that no pending event precedes.
  at_time : EventQueue C → ℕ → EventQueue C
  at_time q until = record q { now = until }

  at_time-IsQueue :
      (q : EventQueue C) (until : ℕ)
      → IsQueue q
      → ((k : Key) (e : Event C) → lookup k q.events ≡ some e → until < e.time)
      → IsQueue (at_time q until)
  unfolding at_time
  at_time-IsQueue q until v late = record {
    ordered = v.ordered;
    entries = λ k e l. let i = v.entries k e l in let b = late k e l in ground arith;
    pending = v.pending;
  }

module _ {C W : Type 0} (fire : C → W → EventQueue C → Result (W × EventQueue C)) where
  -- The 64-bit counters have room for what the measure allows.
  abbrev pub HasRoom : (W → EventQueue C → ℕ) → W → EventQueue C → Type 0
  HasRoom measure w q =
      (q.next_sequence + measure w q ≤ u64_max) × (q.next_token + measure w q ≤ u64_max)

  -- What a callback of an event that is due by `until` has done when it returns. It may schedule and
  -- cancel: it keeps the queue well formed and does not move the clock, and the measure, which bounds the
  -- dispatches to come by then, is lower, and by no less than the number of events that were scheduled.
  abbrev pub IsCallback : ℕ → (W → EventQueue C → ℕ) → Type 0
  IsCallback until measure =
      (e : Event C) (w w' : W) (q q1 q' : EventQueue C)
      → IsQueue q
      → HasRoom measure w q
      → take_next q ≡ some (e, q1)
      → e.time ≤ until
      → fire e.callback w q1 ≡ ok (w', q')
      → IsQueue q'
        × (q'.now ≡ q1.now)
        × (measure w' q' < measure w q)
        × (q'.next_sequence + measure w' q' ≤ q.next_sequence + measure w q)
        × (q'.next_token + measure w' q' ≤ q.next_token + measure w q)

  -- Dispatching an event that is due.
  dispatch_one-due :
      (until : ℕ) (measure : W → EventQueue C → ℕ)
      → IsCallback until measure
      → (w w' : W) (q q' : EventQueue C) → IsQueue q
      → HasRoom measure w q
      → due q until ≡ true
      → dispatch_one fire w q ≡ ok (w', q')
      → IsQueue q' × HasRoom measure w' q' × (measure w' q' < measure w q)
  unfolding dispatch_one
  dispatch_one-due until measure keep w w' q q' v room d h = elim (Option-cases (take_next q)) [
    | inl t ↦ absurd (due-take_next q until d t)
    | inr ((e, q1), t) ↦
        let f : fire e.callback w q1 ≡ ok (w', q') = ground arith in
        let k = keep e w w' q q1 q' v room t (due-time q q1 until e d t) f in
        (k.0, (omega (arith, k, room), omega (arith, k, room)), k.2)
  ]

  -- What a loop has come to: a well-formed queue, the clock at `until`, and only later events left.
  abbrev pub Lands : ℕ → EventQueue C → Type 0
  Lands until q =
      IsQueue q × (q.now ≡ until) × All (λ (entry : Key × Event C). until < entry.1.time) q.events

  abbrev pub Outcome : ℕ → Option (Result (W × EventQueue C)) → Type 0
  Outcome until r =
      ((x : Error) × (r ≡ some (err x)))
      ⊎ ((w : W) × (q : EventQueue C) × (r ≡ some (ok (w, q))) × Lands until q)

  run_due-Outcome :
      (until : ℕ) (measure : W → EventQueue C → ℕ)
      → IsCallback until measure
      → (fuel : ℕ) (w : W) (q : EventQueue C) → IsQueue q
      → HasRoom measure w q
      → measure w q < fuel
      → Outcome until (run_due fire fuel until w q)
  unfolding run_due at_time
  run_due-Outcome until measure keep zero w q v room h = absurd (omega arith)
  run_due-Outcome until measure keep (suc fuel) w q v room h = elim (Bool-cases (due q until)) [
    | inl d ↦ elim (Result-cases (dispatch_one fire w q)) [
      | inl (x, e) ↦ inl (x, ground arith)
      | inr ((w', q'), e) ↦
          let k = dispatch_one-due until measure keep w w' q q' v room d e in
          let on : run_due fire (suc fuel) until w q ≡ run_due fire fuel until w' q' =
            ground arith in
          rw on (run_due-Outcome until measure keep fuel w' q' k.0 k.1 (omega (arith, k)))
    ]
    | inr d ↦
        let late = later_than_head q until q.events v refl d in
        inr (
          w,
          at_time q until,
          ground arith,
          (
            at_time-IsQueue q until v late,
            refl,
            All-lookup (λ e. until < e.time) q.events v.ordered late,
          ),
        )
  ]

  -- For callbacks that may schedule and cancel but, when they are due by `until`, keep the queue well
  -- formed, do not move the clock, and lower some measure, by no less than the number of events they
  -- schedule, from a well-formed queue whose 64-bit counters have room for the measure, fuel above the
  -- measure is enough: `run_until` refuses a time in the past; otherwise either a callback throws, or the
  -- queue is well formed with the clock at `until` and only later events pending.
  pub run_until-Outcome :
      (until : ℕ) (measure : W → EventQueue C → ℕ)
      → IsCallback until measure
      → (fuel : ℕ) (w : W) (q : EventQueue C) → IsQueue q
      → HasRoom measure w q
      → measure w q < fuel
      → ((until < q.now) × (run_until fire fuel until w q ≡ some (err invalid_argument)))
        ⊎ ((q.now ≤ until) × Outcome until (run_until fire fuel until w q))
  unfolding run_until
  run_until-Outcome until measure keep fuel w q v room h = elim (dec_lt until q.now) [
    | yes past ↦ inl (past, ground arith)
    | no ahead ↦
        let ahead' : q.now ≤ until = omega arith in
        let o = run_due-Outcome until measure keep fuel w q v room h in
        inr (ahead', rw (le→not-ltb until q.now ahead') o)
  ]
