-- ===== src/Examples/Commands.antt =====
-- The standards, the planner and the schedulers.
use hbmsim.Prelude.{◌≡◌, refl, ok, true, false, none, some, List, [], ◌∷◌, All}
use hbmsim.Dram.Command.{
  act, is_data_command, pre_bank, read_auto, refresh_per_bank, rfm_per_bank, activate, dram_read,
}
use hbmsim.Dram.Standard.{HbmBankState, idle_bank, resolve_prerequisite, apply_transition}
use hbmsim.Dram.Profiles.{hbm4_standard}
use hbmsim.Dram.Progress.{
  hbm4-IsProfile, Total, resolve_prerequisite-Total, run_request, Ends, run_request-data,
}
use hbmsim.Controller.Planner.{next_decision}
use hbmsim.Controller.Planner.Legacy.{next_decision-legacy}
use hbmsim.Controller.Scheduler.{SchedulerCandidate, fr_fcfs, fifo, choose, before}
use hbmsim.Controller.Scheduler.Choice.{In, Yields, choose-least, choose-Yields}

abbrev open_bank : HbmBankState
open_bank = record idle_bank { open_row = some 4 }

run_request_test :
    run_request 3 hbm4_standard read_auto 9 open_bank
    ≡ some (ok (pre_bank ∷ act ∷ read_auto ∷ [], idle_bank))
unfolding run_request hbm4_standard resolve_prerequisite apply_transition
run_request_test = refl

resolve_prerequisite-Total_example : Total rfm_per_bank 0 open_bank true hbm4_standard
resolve_prerequisite-Total_example =
    resolve_prerequisite-Total hbm4_standard rfm_per_bank 0 open_bank true hbm4-IsProfile

run_request-data_example :
    Ends read_auto 9 open_bank (run_request 3 hbm4_standard read_auto 9 open_bank)
unfolding is_data_command
run_request-data_example = run_request-data hbm4_standard read_auto 9 open_bank hbm4-IsProfile refl

next_decision-legacy_example :
    next_decision none refresh_per_bank 0 open_bank true
    ≡ next_decision (some hbm4_standard) refresh_per_bank 0 open_bank true
unfolding hbm4_standard
next_decision-legacy_example =
    next_decision-legacy hbm4_standard refresh_per_bank 0 open_bank true refl refl refl refl refl

-- Not ready, ready, and ready with a row hit.
abbrev late : SchedulerCandidate
late = record {
  queue_index = 0;
  is_write = false;
  command = activate;
  ready_at = 90;
  sequence = 1;
  row_hit = false;
  data_command = false;
  request_priority = 9;
}

abbrev ready : SchedulerCandidate
ready = record late { queue_index = 1; ready_at = 40; sequence = 2; request_priority = 0 }

abbrev hit : SchedulerCandidate
hit = record ready {
  queue_index = 2;
  command = dram_read;
  sequence = 3;
  row_hit = true;
  data_command = true;
}

abbrev queue : List SchedulerCandidate
queue = late ∷ ready ∷ hit ∷ []

choose_test : choose fr_fcfs queue 50 ≡ some hit
unfolding choose
choose_test = refl

choose-least_example :
    (m : SchedulerCandidate) × (choose fifo queue 50 ≡ some m)
    × In m queue
    × All (λ x. before fifo 50 x m ≡ false) queue
choose-least_example = choose-least fifo 50 late (ready ∷ hit ∷ [])

choose-Yields_example : All (Yields fr_fcfs 50 hit) queue
choose-Yields_example = choose-Yields fr_fcfs 50 hit queue choose_test
