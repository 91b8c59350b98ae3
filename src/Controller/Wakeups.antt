-- ===== src/Controller/Wakeups.antt =====
-- src/controller/hbm_controller.cpp: which events the system has to schedule for a controller,
-- `mark_wakeup`, `clear_wakeup` and `claim_refresh_event`, on the three times they keep.
pub mod Earliest
use hbmsim.Prelude.{
  ℕ, Bool, true, false, Option, none, some, List, [], ◌∷◌, if◌then◌else◌, leb, ◌==◌, holds,
}

pub record Wakeups : Type 0 where
  pub wakeup_at : Option ℕ
  pub refresh_due_at : Option ℕ
  pub next_refresh_due : Option ℕ

-- `wakeup_at_.has_value() && *wakeup_at_ <= when`
abbrev pub covered : Option ℕ → ℕ → Bool
covered none when = false
covered (some at) when = leb at when

-- Whether the caller has to schedule the event, and the new state.
unfoldable pub mark_wakeup : Wakeups → ℕ → Bool × Wakeups
mark_wakeup s when =
    if covered s.wakeup_at when then (false, s) else (true, record s { wakeup_at = some when })

unfoldable pub clear_wakeup : Wakeups → ℕ → Wakeups
clear_wakeup s when = if holds s.wakeup_at when then record s { wakeup_at = none } else s

unfoldable pub claim_refresh_event : Wakeups → Option ℕ × Wakeups
claim_refresh_event s = elim s.next_refresh_due [
  | none ↦ (none, s)
  | some due ↦
      if holds s.refresh_due_at due
      then (none, s)
      else (some due, record s { refresh_due_at = some due })
]

-- Marks one after the other.
unfoldable pub mark_all : Wakeups → List ℕ → Wakeups
mark_all s [] = s
mark_all s (when ∷ times) = mark_all (mark_wakeup s when).1 times
