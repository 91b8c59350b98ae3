-- ===== src/Controller/Banks.antt =====
-- src/controller/hbm_controller.cpp: `local_bank`, `apply_transition` and the test for an open bank, on the
-- controller's vector of banks.
pub mod Legacy
pub mod Maintenance
use hbmsim.Prelude.{
  ℕ, zero, suc, ◌-◌, Bool, true, false, ◌||◌, Option, none, some, List, [], ◌∷◌, Result, ok, err,
  out_of_range, ◌>>=◌, ◌>>◌, throw_if, if◌then◌else◌, ltb, leb, add32, is_some, any,
}
use hbmsim.Dram.Command.{
  HbmCommand, act, pre_bank, pre_all, refresh_all_bank, refresh_per_bank, rfm_all_bank,
  rfm_per_bank, command_eqb,
}
use hbmsim.Dram.Standard.{HbmBankState, HbmStandard, CommandScope, transition_for, apply_transition}

unfoldable pub local_bank : ℕ → ℕ → ℕ → Result ℕ
local_bank first_flat_bank bank_count flat_bank = do
  throw_if (ltb flat_bank first_flat_bank || leb (add32 first_flat_bank bank_count) flat_bank)
      out_of_range
  ok (flat_bank - first_flat_bank)

abbrev pub any_bank_open : List HbmBankState → Bool
any_bank_open banks = any (λ b. is_some b.open_row) banks

-- `banks_.at(index)`, changed in place.
abbrev pub change_bank :
    (HbmBankState → Result HbmBankState) → ℕ → List HbmBankState → Result (List HbmBankState)
change_bank change index [] = err out_of_range
change_bank change zero (b ∷ banks) = change b >>= λ c. ok (c ∷ banks)
change_bank change (suc index) (b ∷ banks) =
    change_bank change index banks >>= λ rest. ok (b ∷ rest)

-- `for (auto& bank : banks_)`
abbrev pub change_all :
    (HbmBankState → Result HbmBankState) → List HbmBankState → Result (List HbmBankState)
change_all change [] = ok []
change_all change (b ∷ banks) = change b >>= λ c. change_all change banks >>= λ rest. ok (c ∷ rest)

abbrev reset_row : HbmBankState → HbmBankState
reset_row b = record b { open_row = none }

-- The branch for one bank of a controller without a standard.
abbrev pub legacy_bank_transition : HbmCommand → ℕ → HbmBankState → HbmBankState
legacy_bank_transition command target_row b =
    if command_eqb command act
    then record b { open_row = some target_row }
    else if command_eqb command pre_bank
        || command_eqb command refresh_per_bank
        || command_eqb command rfm_per_bank
    then reset_row b
    else b

abbrev pub scope_is_channel : CommandScope → Bool
scope_is_channel CommandScope.channel = true
scope_is_channel CommandScope.bank = false

-- `HbmController::apply_transition`
unfoldable pub apply_to_banks :
    Option HbmStandard → HbmCommand → ℕ → ℕ → List HbmBankState → Result (List HbmBankState)
unfolding transition_for apply_transition
apply_to_banks none command target_row bank_index banks =
    if command_eqb command pre_all
      || command_eqb command refresh_all_bank
      || command_eqb command rfm_all_bank
    then change_all (λ b. ok (reset_row b)) banks
    else change_bank (λ b. ok (legacy_bank_transition command target_row b)) bank_index banks
apply_to_banks (some s) command target_row bank_index banks = transition_for s command >>= λ t.
    if scope_is_channel t.scope
    then change_all (apply_transition s command target_row) banks
    else change_bank (apply_transition s command target_row) bank_index banks
