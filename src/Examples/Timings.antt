-- ===== src/Examples/Timings.antt =====
-- The timing engine with the HBM4 table.
use hbmsim.Prelude.{◌-◌, ◌≡◌, refl, ok, arith, none, List, [], ◌∷◌, All, if◌then◌else◌, get_elem?}
use hbmsim.Dram.Command.{act, read, read_auto, command_eqb}
use hbmsim.Mapping.{zero_address}
use hbmsim.Timing.Spec.{TimingConstraint, hbm4_8000, constraints}
use hbmsim.Timing.Engine.{
  HbmTimingEngine, make_engine, record_command, earliest_issue, timing_command, preceding_time,
}
use hbmsim.Timing.Engine.Earliest.{Least, earliest_issue-Least}
use hbmsim.Timing.Engine.History.{Issued, engine_after, past, preceding_time-past}

-- Four activations, then a read.
abbrev log : List Issued
log =
    record { command = read_auto; address = zero_address; when = 60_000 }
    ∷ record { command = act; address = zero_address; when = 40_000 }
    ∷ record { command = act; address = zero_address; when = 20_000 }
    ∷ record { command = act; address = zero_address; when = 10_000 }
    ∷ record { command = act; address = zero_address; when = 0 }
    ∷ []

abbrev busy : HbmTimingEngine
busy = engine_after (make_engine hbm4_8000) log

reads_after_act : earliest_issue busy read zero_address 50_000 ≡ ok 61_000
unfolding engine_after make_engine record_command earliest_issue hbm4_8000 constraints
reads_after_act = refl

next_act : earliest_issue busy act zero_address 50_000 ≡ ok 85_000
unfolding engine_after make_engine record_command earliest_issue hbm4_8000 constraints
next_act = refl

earliest_issue-Least_example :
    Least busy
      (timing_command read)
      zero_address
      busy.table
      50_000
      (earliest_issue busy read zero_address 50_000)
unfolding engine_after make_engine record_command hbm4_8000 constraints
earliest_issue-Least_example = earliest_issue-Least busy read zero_address 50_000 (omega arith)

preceding_time-past_example :
    All
      (λ (c : TimingConstraint). preceding_time busy read zero_address c ≡ (
        if command_eqb c.following read
        then get_elem? (past c.scope zero_address c.preceding log) (c.distance - 1)
        else none))
      (constraints hbm4_8000)
preceding_time-past_example =
    preceding_time-past hbm4_8000 log read zero_address (omega arith) (omega arith)
