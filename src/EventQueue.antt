-- ===== src/EventQueue.antt =====
-- The discrete-event queue (include/hbmsim/kernel/event_queue.h, sim_scheduler.h and
-- src/kernel/event_queue.cpp). `std::map` is a list of entries in the order of its keys (EventQueue/Store),
-- `std::unordered_map` an association list. A callback is a value of the type `C`; what calling it does
-- to the outside `W` and to the queue itself is the parameter `fire`, which may throw. Loops take
-- fuel, and `none` says that it ran out.
pub mod Store
pub mod Invariant
pub mod Removal
pub mod Run
use hbmsim.Prelude.{
  ℕ, zero, suc, ◌+◌, ◌≡◌, Bool, true, false, not, ◌&&◌, Option, none, some, List, [], ◌∷◌, Result,
  ok, err, invalid_argument, logic_error, ◌>>=◌, ◌>>◌, throw_if, ltb, leb, if◌then◌else◌, add64,
}
use Store.{Key, key, emplace, erase, emplace_token, find_token, erase_token}

pub record Event (C : Type 0) : Type 0 where
  pub time : ℕ
  pub sequence : ℕ
  pub token : ℕ
  pub callback : C

pub record EventQueue (C : Type 0) : Type 0 where
  pub now : ℕ
  pub next_sequence : ℕ
  pub next_token : ℕ
  pub events : List (Key × Event C)
  pub tokens : List (ℕ × Key)

module _ {C : Type 0} where
  -- The member initialisers.
  abbrev pub new_queue : EventQueue C
  new_queue = record { now = 0; next_sequence = 0; next_token = 1; events = []; tokens = [] }

  unfoldable pub schedule_at : EventQueue C → ℕ → C → Result (ℕ × EventQueue C)
  unfolding emplace emplace_token
  schedule_at q when callback = do
    throw_if (ltb when q.now) invalid_argument
    let token = q.next_token
    let k = key when q.next_sequence
    let event : Event C = record {
      time = when;
      sequence = q.next_sequence;
      token = token;
      callback = callback;
    }
    ok (
      token,
      record q {
        next_token = add64 q.next_token 1;
        next_sequence = add64 q.next_sequence 1;
        events = emplace k event q.events;
        tokens = emplace_token token k q.tokens;
      },
    )

  unfoldable pub cancel : EventQueue C → ℕ → Bool × EventQueue C
  unfolding find_token erase erase_token
  cancel q token = elim (find_token token q.tokens) [
    | none ↦ (false, q)
    | some k ↦ (true, record q { events = erase k q.events; tokens = erase_token token q.tokens })
  ]

  unfoldable pub empty : EventQueue C → Bool
  empty q = elim q.events [ [] ↦ true | _ ∷ _ ↦ false ]

  unfoldable pub next_time : EventQueue C → Result ℕ
  next_time q = elim q.events [ [] ↦ err logic_error | (k, e) ∷ _ ↦ ok e.time ]

  -- The first half of `dispatch_one`: the first event leaves both maps, and its time is now.
  take_first : EventQueue C → List (Key × Event C) → Option (Event C × EventQueue C)
  take_first q [] = none
  take_first q ((k, e) ∷ rest) =
      some (e, record q { now = e.time; events = rest; tokens = erase_token e.token q.tokens })

  unfoldable pub take_next : EventQueue C → Option (Event C × EventQueue C)
  unfolding take_first erase_token
  take_next q = take_first q q.events

  -- The test of the loop of `run_until`.
  unfoldable pub due : EventQueue C → ℕ → Bool
  due q until = elim q.events [ [] ↦ false | (k, e) ∷ _ ↦ leb e.time until ]

module _ {C W : Type 0} (fire : C → W → EventQueue C → Result (W × EventQueue C)) where
  unfoldable pub dispatch_one : W → EventQueue C → Result (W × EventQueue C)
  unfolding take_next
  dispatch_one w q = elim (take_next q) [ none ↦ ok (w, q) | some (e, q') ↦ fire e.callback w q' ]

  unfoldable pub run : ℕ → W → EventQueue C → Option (Result (W × EventQueue C))
  unfolding empty dispatch_one
  run zero w q = none
  run (suc fuel) w q = elim (empty q) [
    | true ↦ some (ok (w, q))
    | false ↦ elim (dispatch_one w q) [ err e ↦ some (err e) | ok (w', q') ↦ run fuel w' q' ]
  ]

  run_due : ℕ → ℕ → W → EventQueue C → Option (Result (W × EventQueue C))
  run_due zero until w q = none
  run_due (suc fuel) until w q = elim (due q until) [
    | false ↦ some (ok (w, record q { now = until }))
    | true ↦ elim (dispatch_one w q) [
      | err e ↦ some (err e)
      | ok (w', q') ↦ run_due fuel until w' q'
    ]
  ]

  unfoldable pub run_until : ℕ → ℕ → W → EventQueue C → Option (Result (W × EventQueue C))
  unfolding due dispatch_one run_due
  run_until fuel until w q =
      if ltb until q.now then some (err invalid_argument) else run_due fuel until w q

  unfoldable pub run_next : W → EventQueue C → Result (Bool × W × EventQueue C)
  unfolding empty dispatch_one
  run_next w q = elim (empty q) [
    | true ↦ ok (false, w, q)
    | false ↦ dispatch_one w q >>= λ r. ok (true, r.0, r.1)
  ]
