-- ===== src/EventQueue/Removal.antt =====
-- What leaves the queue: cancelled events, and the first one.
use hbmsim.Prelude.{
  is_some, ℕ_discrete, ℕ, ◌≤◌, ◌≡◌, ◌≢◌, subst, refl, none, some, List, [], ◌∷◌, arith,
  Option-cases, ◌⊎◌, inl, inr,
}
use hbmsim.EventQueue.Store.{
  Key, key, erase, lookup, IsOrdered, After, find_token, erase_token, erase-IsOrdered, lookup-erase,
  lookup-Before, erase-head, find_token-erase_token,
}
use hbmsim.EventQueue.{Event, EventQueue, cancel, take_next, take_first}
use hbmsim.EventQueue.Invariant.{IsEntry, IsQueue}

module _ {C : Type 0} where
  -- The queue without one pending event, at a time that is not after any other.
  module _ (q : EventQueue C) (t n : ℕ) (k : Key) (v : IsQueue q)
      (f : find_token t q.tokens ≡ some k)
      (bound : (i : Key) (e : Event C) → lookup i (erase k q.events) ≡ some e → n ≤ e.time) where
    removed : EventQueue C
    removed = record q { now = n; events = erase k q.events; tokens = erase_token t q.tokens }

    removed-entries :
        (i : Key) (e : Event C) → lookup i removed.events ≡ some e → IsEntry removed i e
    unfolding removed
    removed-entries i e l =
        let le = lookup-erase i k q.events v.ordered in
        let ft = find_token-erase_token e.token t q.tokens in
        let old = v.entries i e (ground arith) in let b = bound i e l in ground arith

    removed-pending :
        (s : ℕ) (j : Key)
        → find_token s removed.tokens ≡ some j
        → (e : Event C) × (lookup j removed.events ≡ some e) × (e.token ≡ s)
    unfolding removed
    removed-pending s j g =
        let ft = find_token-erase_token s t q.tokens in
        let le = lookup-erase j k q.events v.ordered in
        let p = v.pending s j (ground arith) in
        let r = v.pending t k f in
        let e = p.0 in let o = v.entries j e p.1 in (p.0, ground (arith, p.1, p.2, r.1, r.2), p.2)

    removed-IsQueue : IsQueue removed
    unfolding removed
    removed-IsQueue = record {
      ordered = erase-IsOrdered k q.events v.ordered;
      entries = removed-entries;
      pending = removed-pending;
    }

  -- Cancelling keeps the queue well formed.
  pub cancel-IsQueue : (q : EventQueue C) (t : ℕ) → IsQueue q → IsQueue (cancel q t).1
  unfolding cancel removed
  cancel-IsQueue q t v = elim (Option-cases (find_token t q.tokens)) [
    | inl e ↦ rw (e, cancel) v
    | inr (k, e) ↦
        rw (e, cancel)
          (removed-IsQueue q t q.now k v e (λ i e' l.
            (v.entries i e' (ground (arith, lookup-erase i k q.events v.ordered))).not_past))
  ]

  take_first-IsQueue :
      (q q' : EventQueue C) (e : Event C) (es : List (Key × Event C))
      → IsQueue q
      → q.events ≡ es
      → take_first q es ≡ some (e, q')
      → IsQueue q'
  unfolding take_first removed lookup
  take_first-IsQueue q q' e [] v h t = cc
  take_first-IsQueue q q' e ((k, d) ∷ rest) v h t =
      let i = v.entries k d (rw h (ground arith)) in
      let o : IsOrdered ((k, d) ∷ rest) = subst IsOrdered h v.ordered in
      let left : erase k q.events ≡ rest = rw h (erase-head k d rest) in
      let r = removed-IsQueue q d.token d.time k v i.found λ j e' l.
        let l' : lookup j rest ≡ some e' = rw left at l in
        let b = lookup-Before k j e' rest o.0 l' in
        let i' = v.entries j e' (ground (arith, lookup-erase j k q.events v.ordered)) in
        ground (arith, i.time_key, i'.time_key) in
      let same : record q {
        now = d.time;
        events = erase k q.events;
        tokens = erase_token d.token q.tokens;
      }
          ≡ q' =
        cc in
      rw (← same) r

  -- Taking the first event out keeps the queue well formed at the new time.
  pub take_next-IsQueue :
      (q q' : EventQueue C) (e : Event C) → IsQueue q → take_next q ≡ some (e, q') → IsQueue q'
  unfolding take_next
  take_next-IsQueue q q' e v h = take_first-IsQueue q q' e q.events v refl h

  take_first-least :
      (q q' : EventQueue C) (e : Event C) (es : List (Key × Event C))
      → IsQueue q
      → q.events ≡ es
      → take_first q es ≡ some (e, q')
      → (q.now ≤ e.time)
        × (q'.now ≡ e.time)
        × (q.events ≡ (key e.time e.sequence, e) ∷ q'.events)
        × After (key e.time e.sequence) q'.events
        × (find_token e.token q.tokens ≡ some (key e.time e.sequence))
        × (find_token e.token q'.tokens ≡ none)
  unfolding take_first lookup
  take_first-least q q' e [] v h t = cc
  take_first-least q q' e ((k, d) ∷ rest) v h t =
      let i = v.entries k d (rw h (ground arith)) in
      let o : IsOrdered ((k, d) ∷ rest) = subst IsOrdered h v.ordered in
      let same : d ≡ e = cc in
      let left : rest ≡ q'.events = cc in
      let named : k ≡ key e.time e.sequence = ground (arith, i) in
      let ft = find_token-erase_token d.token d.token q.tokens in
      let after : After (key e.time e.sequence) q'.events = rw (← left, ← named) o.0 in
      (ground (arith, i), ground arith, ground arith, after, ground (arith, i), ground arith)

  -- The event that leaves a well-formed queue is its first: it is pending, not in the past, and before
  -- every event that stays, either earlier or scheduled earlier for the same time. The clock moves to
  -- its time, and its token, known until then, is forgotten.
  pub take_next-least :
      (q q' : EventQueue C) (e : Event C)
      → IsQueue q
      → take_next q ≡ some (e, q')
      → (q.now ≤ e.time)
        × (q'.now ≡ e.time)
        × (q.events ≡ (key e.time e.sequence, e) ∷ q'.events)
        × After (key e.time e.sequence) q'.events
        × (find_token e.token q.tokens ≡ some (key e.time e.sequence))
        × (find_token e.token q'.tokens ≡ none)
  unfolding take_next
  take_next-least q q' e v h = take_first-least q q' e q.events v refl h

  -- On a well-formed queue `cancel` answers whether the token was pending. The event under any key is
  -- gone afterwards, its token with it, if it bore the cancelled token; every other event stays.
  pub cancel-exact :
      (q : EventQueue C) (t : ℕ) (k : Key) (e : Event C)
      → IsQueue q
      → lookup k q.events ≡ some e
      → ((cancel q t).0 ≡ is_some (find_token t q.tokens))
        × (((e.token ≡ t)
              × (lookup k (cancel q t).1.events ≡ none)
              × (find_token t (cancel q t).1.tokens ≡ none))
            ⊎ ((e.token ≢ t) × (lookup k (cancel q t).1.events ≡ some e)))
  unfolding cancel
  cancel-exact q t k e v l =
      let i = v.entries k e l in
      elim (ℕ_discrete e.token t) [
        | yes same ↦
            let f : find_token t q.tokens ≡ some k = rw (← same) i.found in
            rw (f, cancel)
              (
                refl,
                inl (
                  same,
                  ground (arith, lookup-erase k k q.events v.ordered),
                  ground (arith, find_token-erase_token t t q.tokens),
                ),
              )
        | no other ↦ elim (Option-cases (find_token t q.tokens)) [
          | inl h ↦ rw (h, cancel) (refl, inr (other, l))
          | inr (j, h) ↦
              let p = v.pending t j h in
              rw (h, cancel)
                (refl, inr (other, ground (arith, lookup-erase k j q.events v.ordered, p.1, p.2)))
        ]
      ]
