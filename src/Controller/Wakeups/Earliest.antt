-- ===== src/Controller/Wakeups/Earliest.antt =====
-- Of the requested wake-ups the earliest is kept, and each refresh is claimed once.
use hbmsim.Prelude.{
  ℕ, ◌≤◌, ◌≡◌, ◌⊎◌, inl, inr, refl, arith, none, some, List, [], ◌∷◌, All, Option-cases, Bool-cases,
  leb, ◌∙◌,
}
use hbmsim.Controller.Wakeups.{Wakeups, mark_wakeup, claim_refresh_event, mark_all}

abbrev pub Among : ℕ → List ℕ → Type 0
Among m [] = ⊥
Among m (x ∷ xs) = (m ≡ x) ⊎ Among m xs

mark_wakeup-least :
    (s : Wakeups) (at when : ℕ)
    → s.wakeup_at ≡ some at
    → (n : ℕ) × ((mark_wakeup s when).1.wakeup_at ≡ some n)
      × (n ≤ at)
      × (n ≤ when)
      × ((n ≡ at) ⊎ (n ≡ when))
unfolding mark_wakeup
mark_wakeup-least s at when e = elim (Bool-cases (leb at when)) [
  | inl kept ↦ (at, ground arith, omega arith, ground arith, inl refl)
  | inr moved ↦ (when, ground arith, ground arith, omega arith, inr refl)
]

mark_all-least :
    (s : Wakeups) (at : ℕ) (times : List ℕ)
    → s.wakeup_at ≡ some at
    → (n : ℕ) × ((mark_all s times).wakeup_at ≡ some n)
      × All (λ t. n ≤ t) (at ∷ times)
      × Among n (at ∷ times)
unfolding mark_all
mark_all-least s at [] e = (at, e, (omega arith, tt), inl refl)
mark_all-least s at (when ∷ times) e =
    let k = mark_wakeup-least s at when e in
    let ih = mark_all-least (mark_wakeup s when).1 k.0 times k.1 in
    (
      ih.0,
      ih.1,
      (omega (arith, ih.2.0, k.2), (omega (arith, ih.2.0, k.3), ih.2.1)),
      elim ih.3 [
        | inl same ↦ elim k.4 [ inl old ↦ inl (same ∙ old) | inr new ↦ inr (inl (same ∙ new)) ]
        | inr later ↦ inr (inr later)
      ],
    )

-- After any series of marks on a controller without a wake-up, its wake-up is the earliest of them.
pub mark_all-earliest :
    (s : Wakeups) (when : ℕ) (times : List ℕ)
    → s.wakeup_at ≡ none
    → (n : ℕ) × ((mark_all s (when ∷ times)).wakeup_at ≡ some n)
      × All (λ t. n ≤ t) (when ∷ times)
      × Among n (when ∷ times)
unfolding mark_all mark_wakeup
mark_all-earliest s when times e = mark_all-least (mark_wakeup s when).1 when times (ground arith)

-- A claim answers with the due refresh or with nothing, the next claim with nothing and no change, as
-- long as the due time stays; and a claim does not move that time.
pub claim_refresh_event-once :
    (s : Wakeups)
    → (((claim_refresh_event s).0 ≡ none) ⊎ ((claim_refresh_event s).0 ≡ s.next_refresh_due))
      × ((claim_refresh_event s).1.next_refresh_due ≡ s.next_refresh_due)
      × (claim_refresh_event (claim_refresh_event s).1 ≡ (none, (claim_refresh_event s).1))
unfolding claim_refresh_event
claim_refresh_event-once s = elim (Option-cases s.next_refresh_due) [
  | inl e ↦ ground arith
  | inr (due, e) ↦ elim (Option-cases s.refresh_due_at) [
    | inl f ↦ ground arith
    | inr (claimed, f) ↦ ground arith
  ]
]
