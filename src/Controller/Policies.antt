-- ===== src/Controller/Policies.antt =====
-- The policy objects of a controller: row_policy and refresh_manager. A factory
-- and the virtual methods of what it makes are one function of the configured value.
use hbmsim.Prelude.{ℕ, ◌-◌, Bool, true, false, ◌&&◌, ◌||◌, leb, ◌==◌}
use hbmsim.Dram.Command.{HbmCommand, refresh_all_bank, refresh_per_bank, rfm_all_bank, rfm_per_bank}
use hbmsim.Timing.Spec.{HbmTimingSpec}

-- include/hbmsim/controller/command_planner.h
pub data RowPolicy : Type 0 where
  open_page closed_page : RowPolicy

-- `make_row_policy(policy)->use_auto_precharge()`
unfoldable pub use_auto_precharge : RowPolicy → Bool
use_auto_precharge open_page = false
use_auto_precharge closed_page = true

pub data RefreshPolicy : Type 0 where
  all_bank per_bank : RefreshPolicy

-- `make_refresh_manager(policy)->uses_all_bank_refresh()`
unfoldable pub uses_all_bank_refresh : RefreshPolicy → Bool
uses_all_bank_refresh all_bank = true
uses_all_bank_refresh per_bank = false

-- The two managers name the same commands.
unfoldable pub all_bank_command : RefreshPolicy → HbmCommand
all_bank_command policy = refresh_all_bank

unfoldable pub per_bank_command : RefreshPolicy → HbmCommand
per_bank_command policy = refresh_per_bank

unfoldable pub refresh_duration : RefreshPolicy → HbmTimingSpec → ℕ
refresh_duration all_bank t = t.t_rfc
refresh_duration per_bank t = t.t_rfcpb

unfoldable pub maintenance_duration : HbmCommand → HbmTimingSpec → ℕ
maintenance_duration refresh_all_bank t = t.t_rfc
maintenance_duration refresh_per_bank t = t.t_rfcpb
maintenance_duration rfm_all_bank t = t.t_rfmab
maintenance_duration rfm_per_bank t = t.t_rfmpb
maintenance_duration _ t = 0

-- A capacity of zero is no limit.
unfoldable pub has_capacity : ℕ → ℕ → ℕ → Bool
has_capacity capacity used requested =
    capacity == 0 || (leb used capacity && leb requested (capacity - used))
