-- ===== src/Controller/Commands/Frame.antt =====
-- What noting a command leaves alone.
use hbmsim.Prelude.{ℕ, ◌≡◌, refl, arith, ok, Result-cases, Bool-cases, add64, subst, sym, inl, inr}
use hbmsim.Mapping.{HbmAddress}
use hbmsim.Dram.Command.{HbmCommand}
use hbmsim.Dram.Standard.{CommandBus}
use hbmsim.Controller.Commands.{
  record_issue, count_command, is_supported, occupy_bus, bus_of, command_duration,
}
use hbmsim.Timing.Engine.{record_command}
use hbmsim.Controller.State.{HbmController}

-- The fields that a command's note does not touch.
pub record SameButBuses (c c' : HbmController) : Type 0 where
  pub config : c'.config ≡ c.config
  pub mapper : c'.mapper ≡ c.mapper
  pub read_queue : c'.read_queue ≡ c.read_queue
  pub write_queue : c'.write_queue ≡ c.write_queue
  pub banks : c'.banks ≡ c.banks
  pub data_bus : c'.data_bus_ready_at ≡ c.data_bus_ready_at
  pub wakeups : c'.wakeups ≡ c.wakeups
  pub busy : c'.refresh_busy_until ≡ c.refresh_busy_until
  pub pending : c'.refresh_pending ≡ c.refresh_pending
  pub next_bank : c'.next_per_bank_refresh ≡ c.next_per_bank_refresh
  pub outstanding : c'.outstanding_accesses ≡ c.outstanding_accesses
  pub reads : c'.reserved_reads ≡ c.reserved_reads
  pub writes : c'.reserved_writes ≡ c.reserved_writes

pub occupy_bus-Same :
    (b : CommandBus) (ready : ℕ) (c : HbmController) → SameButBuses c (occupy_bus b ready c)
occupy_bus-Same CommandBus.unified ready c = record {
  config = refl;
  mapper = refl;
  read_queue = refl;
  write_queue = refl;
  banks = refl;
  data_bus = refl;
  wakeups = refl;
  busy = refl;
  pending = refl;
  next_bank = refl;
  outstanding = refl;
  reads = refl;
  writes = refl;
}
occupy_bus-Same CommandBus.row ready c = record {
  config = refl;
  mapper = refl;
  read_queue = refl;
  write_queue = refl;
  banks = refl;
  data_bus = refl;
  wakeups = refl;
  busy = refl;
  pending = refl;
  next_bank = refl;
  outstanding = refl;
  reads = refl;
  writes = refl;
}
occupy_bus-Same CommandBus.column ready c = record {
  config = refl;
  mapper = refl;
  read_queue = refl;
  write_queue = refl;
  banks = refl;
  data_bus = refl;
  wakeups = refl;
  busy = refl;
  pending = refl;
  next_bank = refl;
  outstanding = refl;
  reads = refl;
  writes = refl;
}

pub record_issue-Same :
    (c c' : HbmController) (command : HbmCommand) (a : HbmAddress) (bank_index now : ℕ)
    → record_issue c command a bank_index now ≡ ok c'
    → SameButBuses c c'
unfolding record_issue
record_issue-Same c c' command a bank_index now h =
    elim (Bool-cases (is_supported c.config.standard command)) [
      | inr e ↦ absurd (ground arith)
      | inl e ↦ elim (Result-cases (count_command c.config command bank_index c.stats)) [
        | inl (x, e') ↦ absurd (ground arith)
        | inr (stats, e') ↦
            let noted = record c {
              timing_engine = record_command c.timing_engine command a now;
              stats = stats;
            } in
            let bus = bus_of c.config.standard command in
            let ready = add64 now (command_duration c.config command) in
            let f : record_issue c command a bank_index now ≡ ok (occupy_bus bus ready noted) =
              ground arith in
            let same : c' ≡ occupy_bus bus ready noted = cc in
            let k = occupy_bus-Same bus ready noted in
            subst (SameButBuses c) (sym same) (record {
              config = k.config;
              mapper = k.mapper;
              read_queue = k.read_queue;
              write_queue = k.write_queue;
              banks = k.banks;
              data_bus = k.data_bus;
              wakeups = k.wakeups;
              busy = k.busy;
              pending = k.pending;
              next_bank = k.next_bank;
              outstanding = k.outstanding;
              reads = k.reads;
              writes = k.writes;
            })
      ]
    ]
