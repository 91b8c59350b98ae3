-- ===== src/Dram/Command.antt =====
-- include/hbmsim/dram/command.h and spec.h: the commands of a controller and of a generic DRAM, and
-- the translations between them (src/controller/hbm_controller.cpp, src/dram/hbm_standard.cpp).
-- `Pre` is another name of `PreBank`.
use hbmsim.Prelude.{ℕ, ◌≡◌, ◌↔◌, Bool, true, Result, ok, err, logic_error, arith, ◌||◌, ◌==◌}

-- `Count` is no command: it is the number of the others.
pub data HbmCommand : Type 0 where
  act pre_bank pre_all read write read_auto write_auto : HbmCommand
  refresh_all_bank refresh_per_bank rfm_all_bank rfm_per_bank count : HbmCommand

pub data DramCommand : Type 0 where
  activate precharge_bank precharge_all : DramCommand
  dram_read dram_write dram_read_auto dram_write_auto : DramCommand
  dram_refresh_all_bank dram_refresh_per_bank dram_rfm_all_bank dram_rfm_per_bank : DramCommand

-- The enumerator's value, `static_cast<std::size_t>(command)`.
abbrev pub command_index : HbmCommand → ℕ
command_index act = 0
command_index pre_bank = 1
command_index pre_all = 2
command_index read = 3
command_index write = 4
command_index read_auto = 5
command_index write_auto = 6
command_index refresh_all_bank = 7
command_index refresh_per_bank = 8
command_index rfm_all_bank = 9
command_index rfm_per_bank = 10
command_index count = 11

-- `==` on the enumeration.
abbrev pub command_eqb : HbmCommand → HbmCommand → Bool
command_eqb a b = command_index a == command_index b

pub command_eqb_iff : (a b : HbmCommand) → (command_eqb a b ≡ true) ↔ (a ≡ b)
command_eqb_iff a b = ground arith

unfoldable pub is_data_command : HbmCommand → Bool
is_data_command command =
    command_eqb command read
    || command_eqb command write
    || command_eqb command read_auto
    || command_eqb command write_auto

unfoldable pub to_dram_command : HbmCommand → Result DramCommand
to_dram_command act = ok activate
to_dram_command pre_bank = ok precharge_bank
to_dram_command pre_all = ok precharge_all
to_dram_command read = ok dram_read
to_dram_command write = ok dram_write
to_dram_command read_auto = ok dram_read_auto
to_dram_command write_auto = ok dram_write_auto
to_dram_command refresh_all_bank = ok dram_refresh_all_bank
to_dram_command refresh_per_bank = ok dram_refresh_per_bank
to_dram_command rfm_all_bank = ok dram_rfm_all_bank
to_dram_command rfm_per_bank = ok dram_rfm_per_bank
to_dram_command count = err logic_error

unfoldable pub to_hbm_command : DramCommand → HbmCommand
to_hbm_command activate = act
to_hbm_command precharge_bank = pre_bank
to_hbm_command precharge_all = pre_all
to_hbm_command dram_read = read
to_hbm_command dram_write = write
to_hbm_command dram_read_auto = read_auto
to_hbm_command dram_write_auto = write_auto
to_hbm_command dram_refresh_all_bank = refresh_all_bank
to_hbm_command dram_refresh_per_bank = refresh_per_bank
to_hbm_command dram_rfm_all_bank = rfm_all_bank
to_hbm_command dram_rfm_per_bank = rfm_per_bank

-- `from_generic` of the standards is the same table.
unfoldable pub from_generic : DramCommand → HbmCommand
from_generic activate = act
from_generic precharge_bank = pre_bank
from_generic precharge_all = pre_all
from_generic dram_read = read
from_generic dram_write = write
from_generic dram_read_auto = read_auto
from_generic dram_write_auto = write_auto
from_generic dram_refresh_all_bank = refresh_all_bank
from_generic dram_refresh_per_bank = refresh_per_bank
from_generic dram_rfm_all_bank = rfm_all_bank
from_generic dram_rfm_per_bank = rfm_per_bank

-- The scheduler's view of a command and the controller's agree: going to the generic command and back
-- is the identity, both ways, and only `Count` has no generic command.
pub to_hbm_command-to_dram_command :
    ((c : HbmCommand) (d : DramCommand) → to_dram_command c ≡ ok d → to_hbm_command d ≡ c)
    × ((d : DramCommand) → to_dram_command (to_hbm_command d) ≡ ok d)
    × ((d : DramCommand) → from_generic d ≡ to_hbm_command d)
    × ((c : HbmCommand) → to_dram_command c ≡ err logic_error → c ≡ count)
unfolding to_dram_command to_hbm_command from_generic
to_hbm_command-to_dram_command =
    (λ c d h. ground arith, λ d. ground arith, λ d. ground arith, λ c h. ground arith)
