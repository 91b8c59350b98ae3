-- ===== src/Examples/Closing.antt =====
-- A controller without a standard that closes its pages.
use hbmsim.Prelude.{
  ℕ, ◌≡◌, ◌&&◌, not, Bool, Ran, arith, refl, ok, true, false, none, some, List, [], ◌∷◌, get_elem?,
}
use hbmsim.Topology.{channel_count}
use hbmsim.Timing.Engine.{earliest_issue}
use hbmsim.Timing.Spec.{constraints, hbm4_8000}
use hbmsim.Types.{HbmOp}
use hbmsim.Dram.Command.{HbmCommand, act, pre_bank, read}
use hbmsim.Dram.Standard.{HbmBankState, idle_bank}
use hbmsim.Controller.Access.{new_access}
use hbmsim.Controller.Banks.{any_bank_open, apply_to_banks}
use hbmsim.Controller.Issue.{after_data}
use hbmsim.Controller.Issue.ClosedPage.{apply_commands, after_data-next_command}
use hbmsim.Controller.Refresh.{apply_idle_refresh, is_refresh_pending}
use hbmsim.Controller.Refresh.Termination.{Ends, apply_idle_refresh-Ends}
use hbmsim.Controller.Planner.{next_command}
use hbmsim.Controller.Policies.{closed_page, use_auto_precharge}
use hbmsim.Controller.State.{HbmController, make_controller}
use hbmsim.Examples.Driving.{config, no_stats}
use hbmsim.Examples.Devices.{two_channels}
use hbmsim.Examples.Queues.{first_read}

abbrev open_bank : HbmBankState
open_bank = record idle_bank { open_row = some 0 }

abbrev closing : HbmController
closing =
    record (make_controller (record config { standard = none; row_policy = closed_page })
      two_channels no_stats) { banks = open_bank ∷ idle_bank ∷ [] }

abbrev marked : HbmBankState
marked = record open_bank { precharge_pending = true }

marks_test : after_data closing read (new_access first_read) 0 ≡ ok (marked ∷ idle_bank ∷ [])
unfolding after_data use_auto_precharge make_controller
marks_test = refl

-- A precharge and an activation of the bank.
abbrev commands : List (HbmCommand × ℕ × ℕ)
commands = (pre_bank, 0, 0) ∷ (act, 9, 0) ∷ []

abbrev reopened : HbmBankState
reopened = record marked { open_row = some 9 }

commands_test : apply_commands commands (marked ∷ idle_bank ∷ []) ≡ ok (reopened ∷ idle_bank ∷ [])
unfolding apply_commands apply_to_banks
commands_test = refl

after_data-next_command_example :
    (b : HbmBankState) × (get_elem? (reopened ∷ idle_bank ∷ []) 0 ≡ some b)
    × (next_command none HbmOp.read 9 b false ≡ ok pre_bank)
unfolding make_controller
after_data-next_command_example =
    after_data-next_command closing read (new_access first_read) 0 9 (marked ∷ idle_bank ∷ [])
      (reopened ∷ idle_bank ∷ []) commands HbmOp.read false refl refl marks_test commands_test

-- Its refresh, with an open bank: a precharge of all banks and the refresh.
apply_idle_refresh-Ends_example : Ends (apply_idle_refresh 13 closing 700)
unfolding make_controller
apply_idle_refresh-Ends_example = apply_idle_refresh-Ends 13 closing 700 tt (omega arith)

is_idle : Ran HbmController → Bool
is_idle (some (ok c)) = not (is_refresh_pending c) && not (any_bank_open c.banks)
is_idle _ = false

idle_refresh_test : is_idle (apply_idle_refresh 13 closing 700) ≡ true
unfolding is_idle apply_idle_refresh make_controller channel_count earliest_issue constraints
    hbm4_8000
idle_refresh_test = refl
