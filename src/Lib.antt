-- ===== src/Lib.antt =====
-- A model of the HBM memory simulator (include/hbmsim/ and src/) and what holds of it.
--
-- The program simulates high-bandwidth memory on one integer clock of picoseconds. A system splits
-- transactions at mapping boundaries and hands the parts to a controller; the controller maps each
-- address to a bank, asks the planner which command the bank needs next, asks the timing engine when that
-- command may be issued, lets the scheduler choose among the candidates, and schedules the next step on
-- the event queue. Modelled here are all of these parts:
--
--   EventQueue   kernel/event_queue: `schedule_at`, `cancel`, `dispatch_one` (whose removal half is
--                `take_next`), `run`, `run_until`, `run_next`. The two maps are association lists:
--                the events in the order of their keys, the tokens in no order. A callback is a value
--                of a type C that a parameter `fire` runs, on a world W and the queue.
--   Mapping      mapping/address_mapper: the constructor, `map` (`fields`, then `flatten`),
--                `bank_address`, `bank_count`, `next_mapping_boundary`.
--   Topology     topology.h.
--   Bandwidth    resource/bandwidth_rate: `validate`, `transfer_time`.
--   Timing       timing/timing_spec (Timing.Spec, every row of both tables) and timing/timing_engine
--                (Timing.Engine). A call of `record` is `record_command`.
--   Dram         dram/command.h, dram/spec.h, media/bank_state.h and dram/hbm_standard: the types and
--                the interpreter of the rule tables (Dram.Standard), the tables and standards
--                (Dram.Profiles). The virtual functions of a standard are fields of a record.
--   Controller   controller/command_planner, controller/row_policy, controller/refresh_manager,
--                controller/scheduler, and controller/hbm_controller: the parts of the state that stand by
--                themselves (Controller.Access, Controller.Reservations, Controller.Wakeups,
--                Controller.WriteDrain, Controller.Banks), the whole state (Controller.State), the buses and
--                `record_command` (Controller.Commands), `update_starvation` and `choose_next`
--                (Controller.Selection), `issue` (Controller.Issue, with the times and counters of a
--                transfer in Controller.Transfers), refresh and refresh management
--                (Controller.Refresh), and what the system calls: `reserve`, `admit_reserved`, `drive`,
--                `complete_access` (Controller.Drive).
--   Statistics   stats.h.
--   System       transaction.h (System.Transaction) and hbm_system: the configuration and its `validate`
--                (System.Config), the device specifications and configurations offered (System.Presets), the
--                state and the constructor (System.State), `next_access` (System.Splitting),
--                `try_submit_now` and `pump_admissions` (System.Admission), and what the scheduled events do,
--                down to `finish_access` and `complete_parent` (System.Events). The lambdas of the events
--                are values of `SystemEvent`, the client's callbacks parameters; both callbacks stay the
--                same while the system runs.
--   Examples     runs on concrete inputs.
--
-- Conventions. Machine integers are natural numbers, and each operation that could wrap is written with
-- its modulus (Prelude.Words: `add32`, `mul32`, `add64`, `sub64`, `mul64`, `u32`). A function that throws
-- returns a Result with the class of the exception. A loop over a container is structural recursion. The
-- loops of the event queue run as long as the callbacks schedule more, so `run` and `run_until` take
-- fuel and return `none` without it; one unit for each event that is dispatched and one more is
-- enough; a measure that every dispatch due by the end of `run_until` lowers bounds their number.
-- `run_request` in Dram.Progress takes 3, since a request needs at most three commands. `next_access`
-- takes one unit for each round of its loop, and as each round takes a byte or more, one more than the
-- bytes that remain is enough. The loops of `apply_idle_refresh` and `prepare_refresh_for_arrival`
-- take one unit for each command and each interval; five for each bank and three more are enough for
-- the commands of one refresh.
-- `try_submit_now` and the events pass their fuel on to them; the inner loop of `pump_admissions` takes one
-- unit more than the transaction has bytes. The counters, which the controllers share by reference,
-- are part of the state of the one that runs. The state after an exception is not modelled.
--
-- Not modelled: the destructor of a system, which cancels its events; the command line and its traces, which
-- are input and output; names and messages of exceptions; the tools and validation data.
mod Prelude
pub mod Types
pub mod Bandwidth
pub mod Topology
pub mod Mapping
pub mod EventQueue
pub mod Dram
pub mod Timing
pub mod Statistics
pub mod Controller
pub mod System
mod Examples
