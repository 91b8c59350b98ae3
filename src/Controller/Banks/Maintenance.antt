-- ===== src/Controller/Banks/Maintenance.antt =====
-- Bringing a whole channel to an all-bank refresh.
use hbmsim.Prelude.{
  ◌≡◌, ◌⊎◌, inl, inr, refl, arith, Bool, true, false, Option, none, some, List, [], ◌∷◌, Result, ok,
  Bool-cases, if◌then◌else◌,
}
use hbmsim.Dram.Command.{pre_all, refresh_all_bank}
use hbmsim.Dram.Standard.{HbmBankState, HbmStandard, CommandScope, decision, apply_transition}
use hbmsim.Dram.Profiles.{common_support, rfm_support}
use hbmsim.Dram.Progress.{IsProfile, by_tables, old_tables, new_tables}
use hbmsim.Controller.Planner.{next_decision}
use hbmsim.Controller.Banks.{any_bank_open, change_all, apply_to_banks}

-- A planner has no standard, or one with the tables of a profile.
abbrev pub IsPlanned : Option HbmStandard → Type 0
IsPlanned none = Unit
IsPlanned (some s) = IsProfile s

-- What closing every bank gives.
abbrev pub Closes : Result (List HbmBankState) → Type 0
Closes r = (banks : List HbmBankState) × (r ≡ ok banks) × (any_bank_open banks ≡ false)

change_all-Closes :
    (after : HbmBankState → HbmBankState) (change : HbmBankState → Result HbmBankState)
    (banks : List HbmBankState)
    → ((b : HbmBankState) → (change b ≡ ok (after b)) × ((after b).open_row ≡ none))
    → Closes (change_all change banks)
change_all-Closes after change [] h = ([], refl, refl)
change_all-Closes after change (b ∷ banks) h =
    let k = h b in
    let ih = change_all-Closes after change banks h in
    rw (k.0, ih.1) (after b ∷ ih.0, refl, rw (k.1, ih.2) refl)

emptied : HbmBankState → HbmBankState
emptied b = record b { open_row = none; precharge_pending = false }

old_tables-pre_all :
    (s : HbmStandard) (banks : List HbmBankState)
    → Closes (apply_to_banks (some (old_tables s)) pre_all 0 0 banks)
unfolding apply_to_banks apply_transition emptied
old_tables-pre_all s banks = change_all-Closes emptied _ banks (λ b. (refl, refl))

new_tables-pre_all :
    (s : HbmStandard) (banks : List HbmBankState)
    → Closes (apply_to_banks (some (new_tables s)) pre_all 0 0 banks)
unfolding apply_to_banks apply_transition emptied
new_tables-pre_all s banks = change_all-Closes emptied _ banks (λ b. (refl, refl))

reset : HbmBankState → HbmBankState
reset b = record b { open_row = none }

pre_all-Closes :
    (std : Option HbmStandard) (banks : List HbmBankState)
    → IsPlanned std
    → Closes (apply_to_banks std pre_all 0 0 banks)
unfolding apply_to_banks reset
pre_all-Closes none banks v = change_all-Closes reset _ banks (λ b. (refl, refl))
pre_all-Closes (some s) banks v =
    by_tables (λ x. Closes (apply_to_banks (some x) pre_all 0 0 banks)) s v
      (old_tables-pre_all s banks) (new_tables-pre_all s banks)

abbrev Decides : HbmBankState → Bool → Option HbmStandard → Type 0
Decides b any std =
    next_decision std refresh_all_bank 0 b any
    ≡ ok (
        if any
        then decision pre_all CommandScope.channel false
        else decision refresh_all_bank CommandScope.channel true)

refresh-Decides :
    (std : Option HbmStandard) (b : HbmBankState) (any : Bool) → IsPlanned std → Decides b any std
unfolding next_decision common_support rfm_support
refresh-Decides none b any v = ground arith
refresh-Decides (some s) b any v =
    by_tables (λ x. Decides b any (some x)) s v (ground arith) (ground arith)

-- A controller without a standard, or with one of the three, asked for an all-bank refresh issues it at
-- once if all banks are closed. Otherwise it first issues a precharge of all banks, which succeeds and
-- closes every bank, and then the refresh.
pub all_bank_refresh-path :
    (std : Option HbmStandard) (b c : HbmBankState) (banks : List HbmBankState)
    → IsPlanned std
    → ((any_bank_open banks ≡ false)
        × (next_decision std refresh_all_bank 0 b (any_bank_open banks)
            ≡ ok (decision refresh_all_bank CommandScope.channel true)))
      ⊎ ((any_bank_open banks ≡ true)
          × (next_decision std refresh_all_bank 0 b (any_bank_open banks)
              ≡ ok (decision pre_all CommandScope.channel false))
          × ((next : List HbmBankState) × (apply_to_banks std pre_all 0 0 banks ≡ ok next)
              × (any_bank_open next ≡ false)
              × (next_decision std refresh_all_bank 0 c (any_bank_open next)
                  ≡ ok (decision refresh_all_bank CommandScope.channel true))))
all_bank_refresh-path std b c banks v = elim (Bool-cases (any_bank_open banks)) [
  | inl e ↦
      let k = pre_all-Closes std banks v in
      inr (
        e,
        rw e (refresh-Decides std b true v),
        (k.0, k.1, k.2, rw k.2 (refresh-Decides std c false v)),
      )
  | inr e ↦ inl (e, rw e (refresh-Decides std b false v))
]
