-- ===== src/Controller/Issue/ClosedPage.antt =====
-- The closed-page policy without a standard: the mark that `issue` sets on a bank.
use hbmsim.Prelude.{
  ℕ, zero, suc, ◌≡◌, inl, inr, refl, arith, Bool, true, none, some, List, [], ◌∷◌, Result, ok,
  ◌>>=◌, get_elem?, Bool-cases, Result-cases, ◌||◌,
}
use hbmsim.Types.{HbmOp}
use hbmsim.Dram.Command.{HbmCommand, pre_bank, pre_all, refresh_all_bank, rfm_all_bank, command_eqb}
use hbmsim.Dram.Standard.{HbmBankState}
use hbmsim.Controller.Access.{HbmAccess}
use hbmsim.Controller.Banks.{apply_to_banks, change_bank, change_all, legacy_bank_transition}
use hbmsim.Controller.Issue.{after_data}
use hbmsim.Controller.Planner.{next_command}
use hbmsim.Controller.Policies.{closed_page, use_auto_precharge}
use hbmsim.Controller.State.{HbmController}

-- A bank that is marked for a precharge.
abbrev pub IsMarked : ℕ → List HbmBankState → Type 0
IsMarked i banks = (b : HbmBankState) × (get_elem? banks i ≡ some b) × (b.precharge_pending ≡ true)

-- What a change of a bank must leave for the mark to stay.
abbrev KeepsMark : (HbmBankState → HbmBankState) → Type 0
KeepsMark change =
    (b : HbmBankState) → b.precharge_pending ≡ true → (change b).precharge_pending ≡ true

change_all-IsMarked :
    (change : HbmBankState → HbmBankState) (i : ℕ) (banks next : List HbmBankState)
    → KeepsMark change
    → IsMarked i banks
    → change_all (λ b. ok (change b)) banks ≡ ok next
    → IsMarked i next
change_all-IsMarked change i [] next k (b, g, m) h = absurd (cc)
change_all-IsMarked change i (x ∷ banks) next k (b, g, m) h =
    elim (Result-cases (change_all (λ b. ok (change b)) banks)) [
      | inl (e, thrown) ↦ absurd (ground arith)
      | inr (rest, hr) ↦
          let same : next ≡ change x ∷ rest = ground arith in
          rw same (
            elim i as (λ j. get_elem? (x ∷ banks) j ≡ some b → IsMarked j (change x ∷ rest)) [
              | zero ↦ λ g. let e : x ≡ b = cc in (change x, refl, k x (rw e m))
              | suc j ↦ λ g. change_all-IsMarked change j banks rest k (b, g, m) hr
            ]
              g)
    ]

change_bank-IsMarked :
    (change : HbmBankState → HbmBankState) (i at : ℕ) (banks next : List HbmBankState)
    → KeepsMark change
    → IsMarked i banks
    → change_bank (λ b. ok (change b)) at banks ≡ ok next
    → IsMarked i next
change_bank-IsMarked change i at [] next k (b, g, m) h = absurd (cc)
change_bank-IsMarked change zero zero (x ∷ banks) next k (b, g, m) h =
    let same : next ≡ change x ∷ banks = ground arith in
    let e : x ≡ b = cc in rw same (change x, refl, k x (rw e m))
change_bank-IsMarked change (suc i) zero (x ∷ banks) next k (b, g, m) h =
    let same : next ≡ change x ∷ banks = ground arith in rw same (b, g, m)
change_bank-IsMarked change zero (suc at) (x ∷ banks) next k (b, g, m) h =
    elim (Result-cases (change_bank (λ b. ok (change b)) at banks)) [
      | inl (e, thrown) ↦ absurd (ground arith)
      | inr (rest, hr) ↦ let same : next ≡ x ∷ rest = ground arith in rw same (b, g, m)
    ]
change_bank-IsMarked change (suc i) (suc at) (x ∷ banks) next k (b, g, m) h =
    elim (Result-cases (change_bank (λ b. ok (change b)) at banks)) [
      | inl (e, thrown) ↦ absurd (ground arith)
      | inr (rest, hr) ↦
          let same : next ≡ x ∷ rest = ground arith in
          rw same (change_bank-IsMarked change i at banks rest k (b, g, m) hr)
    ]

legacy_bank_transition-KeepsMark :
    (command : HbmCommand) (row : ℕ) → KeepsMark (legacy_bank_transition command row)
legacy_bank_transition-KeepsMark command row b m = ground (arith, m)

apply_to_banks-IsMarked :
    (command : HbmCommand) (row i at : ℕ) (banks next : List HbmBankState)
    → IsMarked i banks
    → apply_to_banks none command row at banks ≡ ok next
    → IsMarked i next
unfolding apply_to_banks
apply_to_banks-IsMarked command row i at banks next m h =
    elim (Bool-cases (
      command_eqb command pre_all
      || command_eqb command refresh_all_bank
      || command_eqb command rfm_all_bank)) [
        | inl all ↦
            change_all-IsMarked (λ b. record b { open_row = none }) i banks next (λ b p. p) m
              (ground arith)
        | inr one ↦
            change_bank-IsMarked (legacy_bank_transition command row) i at banks next
              (legacy_bank_transition-KeepsMark command row) m (ground arith)
      ]

-- Commands that a controller without a standard applies, each for a row and a bank.
unfoldable pub apply_commands :
    List (HbmCommand × ℕ × ℕ) → List HbmBankState → Result (List HbmBankState)
unfolding apply_to_banks
apply_commands [] banks = ok banks
apply_commands ((command, row, at) ∷ commands) banks =
    apply_to_banks none command row at banks >>= λ next. apply_commands commands next

apply_commands-IsMarked :
    (commands : List (HbmCommand × ℕ × ℕ)) (i : ℕ) (banks next : List HbmBankState)
    → IsMarked i banks
    → apply_commands commands banks ≡ ok next
    → IsMarked i next
unfolding apply_commands
apply_commands-IsMarked [] i banks next m h = let same : next ≡ banks = ground arith in rw same m
apply_commands-IsMarked ((command, row, at) ∷ commands) i banks next m h =
    elim (Result-cases (apply_to_banks none command row at banks)) [
      | inl (e, thrown) ↦ absurd (ground arith)
      | inr (after, ha) ↦
          apply_commands-IsMarked commands i after next
            (apply_to_banks-IsMarked command row i at banks after m ha) (ground arith)
    ]

after_data-IsMarked :
    (c : HbmController) (command : HbmCommand) (a : HbmAccess) (i : ℕ) (banks : List HbmBankState)
    → c.config.standard ≡ none
    → c.config.row_policy ≡ closed_page
    → after_data c command a i ≡ ok banks
    → IsMarked i banks
unfolding after_data use_auto_precharge
after_data-IsMarked c command a i banks s p h = marked i c.banks banks (rw (s, p) at h)
  where
    marked :
        (i : ℕ) (banks next : List HbmBankState)
        → change_bank (λ b. ok (record b { precharge_pending = true })) i banks ≡ ok next
        → IsMarked i next
    marked i [] next h = absurd (cc)
    marked zero (x ∷ banks) next h =
        let same : next ≡ record x { precharge_pending = true } ∷ banks = ground arith in
        rw same (record x { precharge_pending = true }, refl, refl)
    marked (suc i) (x ∷ banks) next h =
        elim (Result-cases
          (change_bank (λ b. ok (record b { precharge_pending = true })) i banks)) [
            | inl (e, thrown) ↦ absurd (ground arith)
            | inr (rest, hr) ↦
                let same : next ≡ x ∷ rest = ground arith in rw same (marked i banks rest hr)
          ]

-- In a controller without a standard that closes its pages, a data command marks its bank, and no command
-- takes the mark away: whatever commands are applied afterwards, the planner answers every access to
-- that bank with a precharge.
pub after_data-next_command :
    (c : HbmController) (command : HbmCommand) (a : HbmAccess) (i row : ℕ)
    (banks next : List HbmBankState) (commands : List (HbmCommand × ℕ × ℕ)) (op : HbmOp)
    (auto_precharge : Bool)
    → c.config.standard ≡ none
    → c.config.row_policy ≡ closed_page
    → after_data c command a i ≡ ok banks
    → apply_commands commands banks ≡ ok next
    → (b : HbmBankState) × (get_elem? next i ≡ some b)
      × (next_command none op row b auto_precharge ≡ ok pre_bank)
unfolding next_command
after_data-next_command c command a i row banks next commands op auto_precharge s p h r =
    let m =
      apply_commands-IsMarked commands i banks next (after_data-IsMarked c command a i banks s p h)
        r in
    (m.0, m.1, ground (arith, m.2))
