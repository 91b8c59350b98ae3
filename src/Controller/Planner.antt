-- ===== src/Controller/Planner.antt =====
-- include/hbmsim/controller/command_planner.h and src/controller/command_planner.cpp: the next command on
-- the way to a requested one. `standard_ == nullptr` is `none`: the legacy rules.
pub mod Legacy
use hbmsim.Prelude.{
  ℕ, Bool, true, false, not, ◌&&◌, ◌||◌, Option, none, some, Result, ok, err, ◌>>=◌, if◌then◌else◌,
  ◌==◌, is_some,
}
use hbmsim.Dram.Command.{
  HbmCommand, act, pre_bank, pre_all, read, write, read_auto, write_auto, refresh_all_bank,
  refresh_per_bank, rfm_all_bank, rfm_per_bank, command_eqb,
}
use hbmsim.Dram.Standard.{
  HbmBankState, HbmStandard, CommandScope, CommandDecision, decision, resolve_prerequisite, differs,
}
use hbmsim.Types.{HbmOp, is_read}

unfoldable pub legacy_decision : HbmCommand → ℕ → HbmBankState → Bool → CommandDecision
legacy_decision requested row b any_bank_open =
    if command_eqb requested refresh_all_bank || command_eqb requested rfm_all_bank
    then if any_bank_open
      then decision pre_all CommandScope.channel false
      else decision requested CommandScope.channel true
    else if command_eqb requested refresh_per_bank || command_eqb requested rfm_per_bank
    then if is_some b.open_row
      then decision pre_bank CommandScope.bank false
      else decision requested CommandScope.bank true
    else if b.precharge_pending || differs b.open_row row
    then decision pre_bank CommandScope.bank false
    else if not (is_some b.open_row)
        && (command_eqb requested read
            || command_eqb requested write
            || command_eqb requested read_auto
            || command_eqb requested write_auto)
    then decision act CommandScope.bank false
    else decision requested CommandScope.bank true

-- The second overload of `next`.
unfoldable pub next_decision :
    Option HbmStandard → HbmCommand → ℕ → HbmBankState → Bool → Result CommandDecision
unfolding legacy_decision resolve_prerequisite
next_decision none requested row b any_bank_open =
    ok (legacy_decision requested row b any_bank_open)
next_decision (some s) requested row b any_bank_open =
    resolve_prerequisite s requested row b any_bank_open

abbrev pub requested_for : HbmOp → Bool → HbmCommand
requested_for op auto_precharge =
    if is_read op
    then if auto_precharge then read_auto else read
    else if auto_precharge
    then write_auto
    else write

-- The first overload.
unfoldable pub next_command :
    Option HbmStandard → HbmOp → ℕ → HbmBankState → Bool → Result HbmCommand
unfolding next_decision
next_command none op row b auto_precharge = ok (
    if b.precharge_pending || differs b.open_row row
    then pre_bank
    else if not (is_some b.open_row)
    then act
    else requested_for op auto_precharge)
next_command (some s) op row b auto_precharge =
    next_decision (some s) (requested_for op auto_precharge) row b (is_some b.open_row) >>= λ d.
    ok d.command
