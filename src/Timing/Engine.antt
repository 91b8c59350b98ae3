-- ===== src/Timing/Engine.antt =====
-- include/hbmsim/timing/timing_engine.h and src/timing/timing_engine.cpp: for each resource and command, the
-- times of the last four commands, and the earliest time at which the constraints admit another.
-- The hash map is a function to `Option`, an array of deques a function from commands to lists, the
-- oldest time first.
pub mod Earliest
pub mod History
pub mod Records
use hbmsim.Prelude.{
  ℕ, ◌+◌, ◌-◌, ◌*◌, ◌^◌, max, bit_or, Bool, true, false, not, Option, none, some, List, [], ◌∷◌,
  ◌++◌, Result, ok, err, overflow_error, ◌>>=◌, ◌>>◌, throw_if, ltb, ◌==◌, if◌then◌else◌, add64,
  sub64, u64_max, length, get_elem?, tail,
}
use hbmsim.Dram.Command.{
  HbmCommand, pre_all, pre_bank, read_auto, read, write_auto, write, command_eqb,
}
use hbmsim.Mapping.{HbmAddress}
use hbmsim.Timing.Spec.{HbmTimingSpec, TimingConstraint, TimingScope, constraints}
use hbmsim.Timing.Spec

-- The commands that the constraints do not tell apart.
unfoldable pub timing_command : HbmCommand → HbmCommand
timing_command pre_all = pre_bank
timing_command read_auto = read
timing_command write_auto = write
timing_command command = command

-- One deque for each command. (`Count` is no command: the source's array ends before it, and nothing
-- passes it.)
abbrev pub CommandHistory : Type 0
CommandHistory = HbmCommand → List ℕ

pub record HbmTimingEngine : Type 0 where
  pub table : List TimingConstraint
  pub history : ℕ → Option CommandHistory

unfoldable pub make_engine : HbmTimingSpec → HbmTimingEngine
make_engine spec = record { table = constraints spec; history = λ k. none }

-- The enumerator's value, `static_cast<std::uint64_t>(scope)`.
abbrev pub scope_index : TimingScope → ℕ
scope_index TimingScope.bank = 0
scope_index TimingScope.bank_group = 1
scope_index TimingScope.sid = 2
scope_index TimingScope.pseudo_channel = 3
scope_index TimingScope.channel = 4

unfoldable pub resource_index : TimingScope → HbmAddress → ℕ
resource_index TimingScope.bank a = a.flat_bank
resource_index TimingScope.bank_group a = a.flat_bank_group
resource_index TimingScope.sid a = a.flat_sid
resource_index TimingScope.pseudo_channel a = a.flat_pseudo_channel
resource_index TimingScope.channel a = a.flat_channel

unfoldable pub resource_key : TimingScope → HbmAddress → ℕ
unfolding resource_index
resource_key scope address = bit_or (scope_index scope * 2 ^ 56) (resource_index scope address)

-- `history[history.size() - distance]`, where the history is long enough. A distance of zero, which
-- would read past the end, stands in no row of the tables.
abbrev pub back : ℕ → List ℕ → Option ℕ
back distance times =
    if ltb (length times) distance then none else get_elem? times (length times - distance)

-- One round of the loop: the time of the command that the constraint counts from, or `none` where
-- the source says `continue`.
unfoldable pub preceding_time :
    HbmTimingEngine → HbmCommand → HbmAddress → TimingConstraint → Option ℕ
unfolding resource_key
preceding_time t command address c =
    if command_eqb c.following command
    then elim (t.history (resource_key c.scope address)) [
      | none ↦ none
      | some history ↦ back c.distance (history c.preceding)
    ]
    else none

unfoldable pub tighten : ℕ → Option ℕ → ℕ → Result ℕ
tighten earliest none delay = ok earliest
tighten earliest (some time) delay = do
  throw_if (ltb (sub64 u64_max delay) time) overflow_error
  ok (max earliest (add64 time delay))

earliest_over : HbmTimingEngine → HbmCommand → HbmAddress → List TimingConstraint → ℕ → Result ℕ
unfolding tighten preceding_time
earliest_over t command address [] earliest = ok earliest
earliest_over t command address (c ∷ cs) earliest = do
  next ← tighten earliest (preceding_time t command address c) c.delay
  earliest_over t command address cs next

unfoldable pub earliest_issue : HbmTimingEngine → HbmCommand → HbmAddress → ℕ → Result ℕ
unfolding earliest_over timing_command
earliest_issue t command address now = earliest_over t (timing_command command) address t.table now

-- `push_back`, and `pop_front` beyond four.
unfoldable pub push_time : List ℕ → ℕ → List ℕ
push_time times when =
    let longer = times ++ when ∷ [] in if ltb 4 (length longer) then tail longer else longer

-- What `history_[key]` refers to: an entry that is not there is made empty.
abbrev pub entry : Option CommandHistory → CommandHistory
entry none = λ c. []
entry (some history) = history

unfoldable pub record_at :
    HbmCommand
    → HbmAddress
    → ℕ
    → (ℕ → Option CommandHistory)
    → TimingScope
    → ℕ
    → Option CommandHistory
unfolding push_time resource_key
record_at command address when history scope key =
    if resource_key scope address == key
    then some (λ c.
      if command_eqb c command
      then push_time (entry (history key) c) when
      else entry (history key) c)
    else history key

unfoldable pub record_command : HbmTimingEngine → HbmCommand → HbmAddress → ℕ → HbmTimingEngine
unfolding record_at timing_command
record_command t command address when =
    let at = record_at (timing_command command) address when in
    record t {
      history =
          at
            (at (at (at (at t.history TimingScope.bank) TimingScope.bank_group) TimingScope.sid)
              TimingScope.pseudo_channel)
            TimingScope.channel;
    }
