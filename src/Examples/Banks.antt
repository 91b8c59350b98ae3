-- ===== src/Examples/Banks.antt =====
-- The banks of a channel.
use hbmsim.Prelude.{
  ℕ, ◌≡◌, ◌⊎◌, refl, ok, err, out_of_range, true, false, none, some, List, [], ◌∷◌,
}
use hbmsim.Dram.Command.{act, pre_all, refresh_all_bank}
use hbmsim.Dram.Standard.{HbmBankState, idle_bank, CommandScope, decision, apply_transition}
use hbmsim.Dram.Profiles.{hbm4_standard}
use hbmsim.Dram.Progress.{hbm4-IsProfile}
use hbmsim.Controller.Planner.{next_decision}
use hbmsim.Controller.Banks.{any_bank_open, apply_to_banks, local_bank}
use hbmsim.Controller.Banks.Legacy.{open_rows, apply_to_banks-legacy}
use hbmsim.Controller.Banks.Maintenance.{all_bank_refresh-path}

abbrev open_at : ℕ → HbmBankState
open_at r = record idle_bank { open_row = some r }

-- The second of three banks is closed.
abbrev channel_banks : List HbmBankState
channel_banks = open_at 4 ∷ idle_bank ∷ open_at 9 ∷ []

local_bank_test : local_bank 32 16 35 ≡ ok 3
unfolding local_bank
local_bank_test = refl

outside_test : local_bank 32 16 48 ≡ err out_of_range
unfolding local_bank
outside_test = refl

act_test :
    apply_to_banks (some hbm4_standard) act 7 1 channel_banks
    ≡ ok (open_at 4 ∷ open_at 7 ∷ open_at 9 ∷ [])
unfolding apply_to_banks apply_transition hbm4_standard
act_test = refl

pre_all_test :
    apply_to_banks (some hbm4_standard) pre_all 0 0 channel_banks
    ≡ ok (idle_bank ∷ idle_bank ∷ idle_bank ∷ [])
unfolding apply_to_banks apply_transition hbm4_standard
pre_all_test = refl

apply_to_banks-legacy_example :
    open_rows (apply_to_banks none act 7 1 channel_banks)
    ≡ open_rows (apply_to_banks (some hbm4_standard) act 7 1 channel_banks)
unfolding hbm4_standard
apply_to_banks-legacy_example =
    apply_to_banks-legacy hbm4_standard act 7 1 channel_banks refl refl refl refl

all_bank_refresh-path_example :
    ((any_bank_open channel_banks ≡ false)
      × (next_decision
            (some hbm4_standard)
            refresh_all_bank
            0
            (open_at 4)
            (any_bank_open channel_banks)
          ≡ ok (decision refresh_all_bank CommandScope.channel true)))
    ⊎ ((any_bank_open channel_banks ≡ true)
        × (next_decision
              (some hbm4_standard)
              refresh_all_bank
              0
              (open_at 4)
              (any_bank_open channel_banks)
            ≡ ok (decision pre_all CommandScope.channel false))
        × ((next : List HbmBankState) × (apply_to_banks
                (some hbm4_standard)
                pre_all
                0
                0
                channel_banks
              ≡ ok next)
            × (any_bank_open next ≡ false)
            × (next_decision (some hbm4_standard) refresh_all_bank 0 idle_bank (any_bank_open next)
                ≡ ok (decision refresh_all_bank CommandScope.channel true))))
all_bank_refresh-path_example =
    all_bank_refresh-path (some hbm4_standard) (open_at 4) idle_bank channel_banks hbm4-IsProfile
