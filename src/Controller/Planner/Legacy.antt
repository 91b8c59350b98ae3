-- ===== src/Controller/Planner/Legacy.antt =====
-- The legacy rules against the tables.
use hbmsim.Prelude.{ℕ, ◌≡◌, Bool, true, false, none, some, arith}
use hbmsim.Dram.Command.{HbmCommand, act, pre_bank, pre_all, count}
use hbmsim.Dram.Standard.{HbmBankState, HbmStandard}
use hbmsim.Dram.Profiles.{hbm3_prerequisites, hbm3_transitions, rfm_support}
use hbmsim.Dram.Progress.{new_tables}
use hbmsim.Controller.Planner.{next_decision}

-- The requests that the controller makes: data commands, refreshes and RFM.
abbrev pub is_request : HbmCommand → Bool
is_request act = false
is_request pre_bank = false
is_request pre_all = false
is_request count = false
is_request c = true

legacy-new_tables :
    (s : HbmStandard) (c : HbmCommand) (row : ℕ) (b : HbmBankState) (any : Bool)
    → is_request c ≡ true
    → b.precharge_pending ≡ false
    → next_decision none c row b any ≡ next_decision (some (new_tables s)) c row b any
unfolding next_decision rfm_support
legacy-new_tables s act row b any h q = cc
legacy-new_tables s _ row b any h q = ground arith

-- On a bank with no precharge pending, a planner without a standard decides every data command, refresh
-- and RFM command exactly as one with the tables of HBM3 and HBM4 does.
pub next_decision-legacy :
    (s : HbmStandard) (c : HbmCommand) (row : ℕ) (b : HbmBankState) (any : Bool)
    → s.prerequisites ≡ hbm3_prerequisites
    → s.transitions ≡ hbm3_transitions
    → s.supports ≡ rfm_support
    → is_request c ≡ true
    → b.precharge_pending ≡ false
    → next_decision none c row b any ≡ next_decision (some s) c row b any
next_decision-legacy s c row b any p t u h q =
    let e : s ≡ new_tables s =
      λ i. record s { prerequisites = p i; transitions = t i; supports = u i } in
    rw e (legacy-new_tables s c row b any h q)
