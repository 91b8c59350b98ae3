-- ===== src/Controller/Refresh/Load.antt =====
-- How much maintenance the banks of a channel wait for, and what commands do to it.
use hbmsim.Prelude.{
  ℕ, zero, suc, ◌+◌, ◌*◌, ◌≤◌, ◌≡◌, ◌⊎◌, inl, inr, refl, arith, Bool, false, Option, none, some,
  List, [], ◌∷◌, Result, ok, get_elem?, subst, Result-cases, if◌then◌else◌, is_some, length,
}
use hbmsim.Dram.Command.{
  HbmCommand, pre_bank, pre_all, refresh_all_bank, refresh_per_bank, rfm_per_bank,
}
use hbmsim.Dram.Standard.{HbmBankState, HbmStandard, apply_transition, transition_for}
use hbmsim.Dram.Progress.{by_tables, old_tables, new_tables}
use hbmsim.Controller.Banks.{any_bank_open, apply_to_banks, change_bank, change_all}
use hbmsim.Controller.Banks.Maintenance.{IsPlanned}

abbrev pub flag : Bool → ℕ
flag b = if b then 1 else 0

-- A bank takes a command for each of its requests, and one more to close it.
abbrev pub load : HbmBankState → ℕ
load b = 2 * flag b.rfm_pending + 2 * flag b.refresh_pending + flag (is_some b.open_row)

unfoldable pub loads : List HbmBankState → ℕ
loads [] = 0
loads (b ∷ banks) = load b + loads banks

pub loads-bound : (banks : List HbmBankState) → loads banks ≤ 5 * length banks
unfolding loads
loads-bound [] = omega arith
loads-bound (b ∷ banks) = ground (arith, loads-bound banks)

-- A bank after a command of maintenance: closed, with the same requests.
pub record Closed (b b' : HbmBankState) : Type 0 where
  pub rfm : b'.rfm_pending ≡ b.rfm_pending
  pub refresh : b'.refresh_pending ≡ b.refresh_pending
  pub open_row : b'.open_row ≡ none

pub Closed-load : (b b' : HbmBankState) → Closed b b' → load b' + flag (is_some b.open_row) ≡ load b
Closed-load b b' s = ground (arith, s.rfm, s.refresh, s.open_row)

abbrev pub Closes : (HbmBankState → Result HbmBankState) → Type 0
Closes change = (b b' : HbmBankState) → change b ≡ ok b' → Closed b b'

-- Closing one bank, or all of them, adds no load, and lowers it where a bank was open.
pub change_all-loads :
    (change : HbmBankState → Result HbmBankState) (banks next : List HbmBankState)
    → Closes change
    → change_all change banks ≡ ok next
    → loads next + flag (any_bank_open banks) ≤ loads banks
unfolding loads
change_all-loads change [] next s h = let e : next ≡ [] = cc in rw e (ground arith)
change_all-loads change (b ∷ banks) next s h = elim (Result-cases (change b)) [
  | inl (e, thrown) ↦ absurd (ground arith)
  | inr (b', hb) ↦ elim (Result-cases (change_all change banks)) [
    | inl (e, thrown) ↦ absurd (ground arith)
    | inr (rest, hr) ↦
        let e : next ≡ b' ∷ rest = ground arith in
        let one = Closed-load b b' (s b b' hb) in
        let others = change_all-loads change banks rest s hr in rw e (ground (arith, one, others))
  ]
]

-- What changing one bank leaves: less load by what kept the bank open, and the requests of that bank.
pub record OneClosed (i : ℕ) (banks next : List HbmBankState) (b : HbmBankState) : Type 0 where
  pub closed : HbmBankState
  pub at : get_elem? next i ≡ some closed
  pub is_closed : Closed b closed
  pub lighter : loads next + flag (is_some b.open_row) ≡ loads banks

pub change_bank-OneClosed :
    (change : HbmBankState → Result HbmBankState) (i : ℕ) (banks next : List HbmBankState)
    (b : HbmBankState)
    → Closes change
    → get_elem? banks i ≡ some b
    → change_bank change i banks ≡ ok next
    → OneClosed i banks next b
unfolding loads
change_bank-OneClosed change i [] next b s g h = absurd (cc)
change_bank-OneClosed change zero (x ∷ banks) next b s g h = elim (Result-cases (change x)) [
  | inl (e, thrown) ↦ absurd (ground arith)
  | inr (x', hx) ↦
      let e : next ≡ x' ∷ banks = ground arith in
      let same : x ≡ b = cc in
      let k : Closed b x' = subst (λ y. Closed y x') same (s x x' hx) in
      rw e (record {
        closed = x';
        at = refl;
        is_closed = k;
        lighter = rw same (omega (arith, Closed-load b x' k));
      })
]
change_bank-OneClosed change (suc i) (x ∷ banks) next b s g h =
    elim (Result-cases (change_bank change i banks)) [
      | inl (e, thrown) ↦ absurd (ground arith)
      | inr (rest, hr) ↦
          let e : next ≡ x ∷ rest = ground arith in
          let o = change_bank-OneClosed change i banks rest b s g hr in
          rw e (record {
            closed = o.closed;
            at = o.at;
            is_closed = o.is_closed;
            lighter = omega (arith, o.lighter);
          })
    ]

-- The commands of maintenance for one bank, and for the channel.
abbrev pub ForBank : HbmCommand → Type 0
ForBank command = (command ≡ pre_bank) ⊎ ((command ≡ refresh_per_bank) ⊎ (command ≡ rfm_per_bank))

abbrev pub ForChannel : HbmCommand → Type 0
ForChannel command = (command ≡ pre_all) ⊎ (command ≡ refresh_all_bank)

abbrev OneBank :
    HbmCommand → ℕ → List HbmBankState → List HbmBankState → Option HbmStandard → Type 0
OneBank command i banks next std =
    apply_to_banks std command 0 i banks ≡ ok next
    → (change : HbmBankState → Result HbmBankState) × Closes change
      × (change_bank change i banks ≡ ok next)

abbrev AllBanks :
    HbmCommand → ℕ → List HbmBankState → List HbmBankState → Option HbmStandard → Type 0
AllBanks command i banks next std =
    apply_to_banks std command 0 i banks ≡ ok next
    → (change : HbmBankState → Result HbmBankState) × Closes change
      × (change_all change banks ≡ ok next)

emptied : HbmBankState → Result HbmBankState
emptied b = ok (record b { open_row = none; precharge_pending = false })

reset : HbmBankState → Result HbmBankState
reset b = ok (record b { open_row = none })

emptied-Closes : Closes emptied
unfolding emptied
emptied-Closes b b' h =
    let e : b' ≡ record b { open_row = none; precharge_pending = false } = ground arith in
    rw e (record { rfm = refl; refresh = refl; open_row = refl })

reset-Closes : Closes reset
unfolding reset
reset-Closes b b' h =
    let e : b' ≡ record b { open_row = none } = ground arith in
    rw e (record { rfm = refl; refresh = refl; open_row = refl })

module _ (i : ℕ) (banks next : List HbmBankState) where
  ForBank-none : (command : HbmCommand) → ForBank command → OneBank command i banks next none
  unfolding apply_to_banks reset
  ForBank-none command (inl e) = rw e (λ h. (reset, reset-Closes, h))
  ForBank-none command (inr (inl e)) = rw e (λ h. (reset, reset-Closes, h))
  ForBank-none command (inr (inr e)) = rw e (λ h. (reset, reset-Closes, h))

  ForBank-old :
      (s : HbmStandard) (command : HbmCommand)
      → ForBank command
      → OneBank command i banks next (some (old_tables s))
  unfolding apply_to_banks apply_transition transition_for emptied
  ForBank-old s command (inl e) = rw e (λ h. (emptied, emptied-Closes, h))
  ForBank-old s command (inr (inl e)) = rw e (λ h. (emptied, emptied-Closes, h))
  ForBank-old s command (inr (inr e)) = rw e (λ h. absurd (cc))

  ForBank-new :
      (s : HbmStandard) (command : HbmCommand)
      → ForBank command
      → OneBank command i banks next (some (new_tables s))
  unfolding apply_to_banks apply_transition transition_for emptied
  ForBank-new s command (inl e) = rw e (λ h. (emptied, emptied-Closes, h))
  ForBank-new s command (inr (inl e)) = rw e (λ h. (emptied, emptied-Closes, h))
  ForBank-new s command (inr (inr e)) = rw e (λ h. (emptied, emptied-Closes, h))

  pub ForBank-OneBank :
      (std : Option HbmStandard) (command : HbmCommand)
      → IsPlanned std
      → ForBank command
      → OneBank command i banks next std
  ForBank-OneBank none command v k = ForBank-none command k
  ForBank-OneBank (some s) command v k =
      by_tables (λ x. OneBank command i banks next (some x)) s v (ForBank-old s command k)
        (ForBank-new s command k)

  ForChannel-none : (command : HbmCommand) → ForChannel command → AllBanks command i banks next none
  unfolding apply_to_banks reset
  ForChannel-none command (inl e) = rw e (λ h. (reset, reset-Closes, h))
  ForChannel-none command (inr e) = rw e (λ h. (reset, reset-Closes, h))

  ForChannel-old :
      (s : HbmStandard) (command : HbmCommand)
      → ForChannel command
      → AllBanks command i banks next (some (old_tables s))
  unfolding apply_to_banks apply_transition transition_for emptied
  ForChannel-old s command (inl e) = rw e (λ h. (emptied, emptied-Closes, h))
  ForChannel-old s command (inr e) = rw e (λ h. (emptied, emptied-Closes, h))

  ForChannel-new :
      (s : HbmStandard) (command : HbmCommand)
      → ForChannel command
      → AllBanks command i banks next (some (new_tables s))
  unfolding apply_to_banks apply_transition transition_for emptied
  ForChannel-new s command (inl e) = rw e (λ h. (emptied, emptied-Closes, h))
  ForChannel-new s command (inr e) = rw e (λ h. (emptied, emptied-Closes, h))

  pub ForChannel-AllBanks :
      (std : Option HbmStandard) (command : HbmCommand)
      → IsPlanned std
      → ForChannel command
      → AllBanks command i banks next std
  ForChannel-AllBanks none command v k = ForChannel-none command k
  ForChannel-AllBanks (some s) command v k =
      by_tables (λ x. AllBanks command i banks next (some x)) s v (ForChannel-old s command k)
        (ForChannel-new s command k)
