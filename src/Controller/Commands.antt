-- ===== src/Controller/Commands.antt =====
-- src/controller/hbm_controller.cpp: when a command may be issued (`earliest_all_bank`,
-- `command_bus_ready`, `earliest_command`), and what is noted of one that was (`record_command`).
pub mod Frame
use hbmsim.Prelude.{
  ℕ, suc, max, Bool, true, false, not, Option, none, some, List, [], ◌∷◌, Result, ok, logic_error,
  ◌>>=◌, ◌>>◌, throw_if, if◌then◌else◌, add32, add64,
}
use hbmsim.Mapping.{HbmAddress, HbmAddressMapper, bank_address}
use hbmsim.Dram.Command.{
  HbmCommand, act, pre_bank, pre_all, read, write, read_auto, write_auto, refresh_all_bank,
  refresh_per_bank, rfm_all_bank, rfm_per_bank, count,
}
use hbmsim.Dram.Standard.{HbmBankState, HbmStandard, CommandBus, command_bus, transition_for}
use hbmsim.Timing.Engine.{HbmTimingEngine, earliest_issue, record_command}
use hbmsim.Statistics.{HbmStats, ChannelStats, use_resource, change_at, change_channel}
use hbmsim.Controller.Banks.{scope_is_channel}
use hbmsim.Controller.State.{HbmControllerConfig, HbmController}

-- The loop, from a bank on.
unfoldable pub all_banks_ready :
    HbmController → HbmCommand → ℕ → ℕ → ℕ → List HbmBankState → Result ℕ
all_banks_ready c command now index ready [] = ok ready
all_banks_ready c command now index ready (b ∷ banks) = do
  address ← bank_address c.mapper (add32 c.config.first_flat_bank index)
  earliest ← earliest_issue c.timing_engine command address now
  all_banks_ready c command now (suc index) (max ready earliest) banks

unfoldable pub earliest_all_bank : HbmController → HbmCommand → ℕ → Result ℕ
unfolding all_banks_ready
earliest_all_bank c command now = all_banks_ready c command now 0 now c.banks

abbrev pub bus_ready : HbmController → CommandBus → ℕ
bus_ready c CommandBus.unified = c.unified_command_bus_ready_at
bus_ready c CommandBus.row = c.row_command_bus_ready_at
bus_ready c CommandBus.column = c.column_command_bus_ready_at

-- The bus of a command; without a standard there is one bus.
abbrev pub bus_of : Option HbmStandard → HbmCommand → CommandBus
bus_of none command = CommandBus.unified
bus_of (some s) command = command_bus command

unfoldable pub command_bus_ready : HbmController → HbmCommand → ℕ
unfolding command_bus
command_bus_ready c command = bus_ready c (bus_of c.config.standard command)

-- `config_.standard && config_.standard->transition_for(command).scope == CommandScope::Channel`
unfoldable pub is_channel_command : Option HbmStandard → HbmCommand → Result Bool
unfolding transition_for
is_channel_command none command = ok false
is_channel_command (some s) command =
    transition_for s command >>= λ t. ok (scope_is_channel t.scope)

unfoldable pub earliest_command : HbmController → HbmCommand → HbmAddress → ℕ → Result ℕ
unfolding is_channel_command command_bus_ready earliest_all_bank
earliest_command c command address now = do
  whole ← is_channel_command c.config.standard command
  timing_ready ←
      (if whole
        then earliest_all_bank c command now
        else earliest_issue c.timing_engine command address now)
  ok (max timing_ready (command_bus_ready c command))

abbrev pub command_duration : HbmControllerConfig → HbmCommand → ℕ
command_duration config command = elim config.standard [
  | none ↦ config.timing.t_command
  | some s ↦ s.command_duration command
]

abbrev pub is_supported : Option HbmStandard → HbmCommand → Bool
is_supported none command = true
is_supported (some s) command = s.supports command

-- The counters of a channel's command buses and banks.
abbrev count_bus : CommandBus → ℕ → ChannelStats → ChannelStats
count_bus CommandBus.unified duration s = s
count_bus CommandBus.row duration s = record s {
  row_command_bus = use_resource 1 duration s.row_command_bus;
}
count_bus CommandBus.column duration s = record s {
  column_command_bus = use_resource 1 duration s.column_command_bus;
}

abbrev count_on_channel :
    HbmControllerConfig → HbmCommand → ℕ → ℕ → ChannelStats → Result ChannelStats
count_on_channel config command bank_index duration s = do
  banks ←
      (if config.detailed_stats
        then change_at (λ r. ok (use_resource 1 0 r)) bank_index s.banks
        else ok s.banks)
  ok (
      count_bus (bus_of config.standard command) duration
        (record s { command_bus = use_resource 1 duration s.command_bus; banks = banks }))

abbrev count_kind : HbmCommand → HbmStats → HbmStats
count_kind act s = record s { act_commands = add64 s.act_commands 1 }
count_kind pre_bank s = record s { pre_commands = add64 s.pre_commands 1 }
count_kind pre_all s = record s { pre_commands = add64 s.pre_commands 1 }
count_kind read s = record s { read_commands = add64 s.read_commands 1 }
count_kind read_auto s = record s { read_commands = add64 s.read_commands 1 }
count_kind write s = record s { write_commands = add64 s.write_commands 1 }
count_kind write_auto s = record s { write_commands = add64 s.write_commands 1 }
count_kind _ s = s

unfoldable pub count_command : HbmControllerConfig → HbmCommand → ℕ → HbmStats → Result HbmStats
unfolding change_channel change_at command_bus
count_command config command bank_index s = do
  counted ←
      change_channel (count_on_channel config command bank_index (command_duration config command))
        config.channel (record s { issued_commands = add64 s.issued_commands 1 })
  ok (count_kind command counted)

abbrev pub occupy_bus : CommandBus → ℕ → HbmController → HbmController
occupy_bus CommandBus.unified ready c = record c { unified_command_bus_ready_at = ready }
occupy_bus CommandBus.row ready c = record c { row_command_bus_ready_at = ready }
occupy_bus CommandBus.column ready c = record c { column_command_bus_ready_at = ready }

-- `HbmController::record_command`
unfoldable pub record_issue : HbmController → HbmCommand → HbmAddress → ℕ → ℕ → Result HbmController
unfolding record_command count_command command_bus
record_issue c command address bank_index now = do
  throw_if (not (is_supported c.config.standard command)) logic_error
  stats ← count_command c.config command bank_index c.stats
  ok (
      occupy_bus (bus_of c.config.standard command) (add64 now (command_duration c.config command))
        (record c {
          timing_engine = record_command c.timing_engine command address now;
          stats = stats;
        }))
