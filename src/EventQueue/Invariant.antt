-- ===== src/EventQueue/Invariant.antt =====
-- What holds of an event queue between two calls.
use hbmsim.Prelude.{
  ℕ, ◌<◌, ◌≤◌, ◌≡◌, none, some, arith, ok, err, u64_max, add64, Bool-cases, Option-cases, ◌⊎◌, inl,
  inr, ◌==◌, invalid_argument,
}
use hbmsim.EventQueue.Store.{
  Key, key, key_eqb, emplace, lookup, IsOrdered, emplace_token, find_token, emplace-IsOrdered,
  lookup-emplace, find_token-emplace_token,
}
use hbmsim.EventQueue.{Event, EventQueue, new_queue, schedule_at}

module _ {C : Type 0} where
  -- The entry of an event under its key: not in the past, older than the counters, and found by its
  -- token.
  pub record IsEntry (q : EventQueue C) (k : Key) (e : Event C) : Type 0 where
    pub time_key : k.at ≡ e.time
    pub sequence_key : k.order ≡ e.sequence
    pub not_past : q.now ≤ e.time
    pub sequence_old : e.sequence < q.next_sequence
    pub token_old : e.token < q.next_token
    pub found : find_token e.token q.tokens ≡ some k

  -- The two maps are in step: each event is found by its token, each token leads to its event.
  pub record IsQueue (q : EventQueue C) : Type 0 where
    pub ordered : IsOrdered q.events
    pub entries : (k : Key) (e : Event C) → lookup k q.events ≡ some e → IsEntry q k e
    pub pending :
        (t : ℕ) (k : Key)
        → find_token t q.tokens ≡ some k
        → (e : Event C) × (lookup k q.events ≡ some e) × (e.token ≡ t)

  pub new_queue-IsQueue : IsQueue new_queue
  unfolding lookup find_token
  new_queue-IsQueue = record { ordered = tt; entries = λ k e h. cc; pending = λ t k h. cc }

  -- A token that was not handed out yet is not pending.
  pub find_token_fresh :
      (q : EventQueue C) (t : ℕ) → IsQueue q → q.next_token ≤ t → find_token t q.tokens ≡ none
  find_token_fresh q t v h = elim (Option-cases (find_token t q.tokens)) [
    | inl e ↦ e
    | inr (k, e) ↦
        let p = v.pending t k e in
        let i = v.entries k p.0 p.1 in absurd (omega (arith, p.2, i.token_old))
  ]

  -- Nor is there an event under a sequence number to come.
  pub lookup_fresh :
      (q : EventQueue C) (k : Key)
      → IsQueue q
      → q.next_sequence ≤ k.order
      → lookup k q.events ≡ none
  lookup_fresh q k v h = elim (Option-cases (lookup k q.events)) [
    | inl e ↦ e
    | inr (e, l) ↦ let i = v.entries k e l in absurd (omega (arith, i.sequence_key, i.sequence_old))
  ]

  abbrev pub scheduled : EventQueue C → ℕ → C → Event C
  scheduled q when c = record {
    time = when;
    sequence = q.next_sequence;
    token = q.next_token;
    callback = c;
  }

  -- The queue after a call of `schedule_at` that does not throw.
  abbrev pub added : EventQueue C → ℕ → C → EventQueue C
  added q when c = record q {
    next_token = add64 q.next_token 1;
    next_sequence = add64 q.next_sequence 1;
    events = emplace (key when q.next_sequence) (scheduled q when c) q.events;
    tokens = emplace_token q.next_token (key when q.next_sequence) q.tokens;
  }

  pub schedule_at-cases :
      (q : EventQueue C) (when : ℕ) (c : C)
      → ((when < q.now) × (schedule_at q when c ≡ err invalid_argument))
        ⊎ ((q.now ≤ when) × (schedule_at q when c ≡ ok (q.next_token, added q when c)))
  unfolding schedule_at
  schedule_at-cases q when c = ground arith

  added-entries :
      (q : EventQueue C) (when : ℕ) (c : C)
      → IsQueue q
      → q.now ≤ when
      → q.next_sequence < u64_max
      → q.next_token < u64_max
      → (k : Key) (e : Event C) → lookup k (added q when c).events ≡ some e
      → IsEntry (added q when c) k e
  added-entries q when c v n hs ht k e l =
      let new = key when q.next_sequence in
      let le =
        lookup-emplace k new (scheduled q when c) q.events v.ordered
          (lookup_fresh q new v (omega arith)) in
      let ft =
        find_token-emplace_token e.token q.next_token new q.tokens
          (find_token_fresh q q.next_token v (omega arith)) in
      elim (Bool-cases (key_eqb new k)) [
        | inl same ↦ ground arith
        | inr other ↦ let i = v.entries k e (ground arith) in ground arith
      ]

  added-pending :
      (q : EventQueue C) (when : ℕ) (c : C)
      → IsQueue q
      → (t : ℕ) (k : Key) → find_token t (added q when c).tokens ≡ some k
      → (e : Event C) × (lookup k (added q when c).events ≡ some e) × (e.token ≡ t)
  added-pending q when c v t k f =
      let new = key when q.next_sequence in
      let none_yet = lookup_fresh q new v (omega arith) in
      let le = lookup-emplace k new (scheduled q when c) q.events v.ordered none_yet in
      let ft =
        find_token-emplace_token t q.next_token new q.tokens
          (find_token_fresh q q.next_token v (omega arith)) in
      elim (Bool-cases (q.next_token == t)) [
        | inl same ↦ (scheduled q when c, ground arith, ground arith)
        | inr other ↦
            let p = v.pending t k (ground arith) in (p.0, ground (arith, p.1, none_yet), p.2)
      ]

  -- Scheduling that does not throw keeps a queue well formed, its events ordered and in step with the
  -- tokens, as long as its 64-bit counters do not wrap.
  pub schedule_at-IsQueue :
      (q q' : EventQueue C) (when t : ℕ) (c : C)
      → IsQueue q
      → q.next_sequence < u64_max
      → q.next_token < u64_max
      → schedule_at q when c ≡ ok (t, q')
      → IsQueue q'
  schedule_at-IsQueue q q' when t c v hs ht h = elim (schedule_at-cases q when c) [
    | inl thrown ↦ cc
    | inr (n, e) ↦
        let same : added q when c ≡ q' = cc in
        rw (← same) (record {
          ordered = emplace-IsOrdered _ _ q.events v.ordered;
          entries = added-entries q when c v n hs ht;
          pending = added-pending q when c v;
        })
  ]
