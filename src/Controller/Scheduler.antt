-- ===== src/Controller/Scheduler.antt =====
-- include/hbmsim/controller/scheduler.h and src/controller/scheduler.cpp: which candidate is issued next. A
-- scheduler object is its kind, and the comparators of `std::min_element` are Boolean functions.
pub mod Choice
use hbmsim.Prelude.{
  ℕ, Bool, true, false, not, ◌&&◌, ◌||◌, Option, none, some, List, [], ◌∷◌, ltb, leb, ◌==◌,
  if◌then◌else◌,
}
use hbmsim.Dram.Command.{DramCommand}

pub data SchedulerKind : Type 0 where
  fr_fcfs fr_fcfs_row_hit fifo : SchedulerKind

pub record SchedulerCandidate : Type 0 where
  pub queue_index : ℕ
  pub is_write : Bool
  pub command : DramCommand
  pub ready_at : ℕ
  pub sequence : ℕ
  pub row_hit : Bool
  pub data_command : Bool
  pub request_priority : ℕ

abbrev same : Bool → Bool → Bool
same true b = b
same false b = not b

abbrev priority : SchedulerCandidate → ℕ
priority c = if c.data_command then (if c.row_hit then 3 else 2) else 1

unfoldable pub frfcfs_before : ℕ → SchedulerCandidate → SchedulerCandidate → Bool
frfcfs_before now left right =
    let left_ready = leb left.ready_at now in
    let right_ready = leb right.ready_at now in
    if not (same left_ready right_ready)
    then left_ready
    else if not left_ready && not (left.ready_at == right.ready_at)
    then ltb left.ready_at right.ready_at
    else if not (left.request_priority == right.request_priority)
    then ltb right.request_priority left.request_priority
    else if not (priority left == priority right)
    then ltb (priority right) (priority left)
    else ltb left.sequence right.sequence

unfoldable pub row_hit_before : ℕ → SchedulerCandidate → SchedulerCandidate → Bool
row_hit_before now left right =
    let left_ready = leb left.ready_at now in
    let right_ready = leb right.ready_at now in
    if not (same left_ready right_ready)
    then left_ready
    else if not left_ready && not (left.ready_at == right.ready_at)
    then ltb left.ready_at right.ready_at
    else if not (left.request_priority == right.request_priority)
    then ltb right.request_priority left.request_priority
    else if not (same left.row_hit right.row_hit)
    then left.row_hit
    else ltb left.sequence right.sequence

unfoldable pub fifo_before : ℕ → SchedulerCandidate → SchedulerCandidate → Bool
fifo_before now left right = ltb left.sequence right.sequence

-- The comparator of the scheduler that `scheduler_for` returns.
unfoldable pub before : SchedulerKind → ℕ → SchedulerCandidate → SchedulerCandidate → Bool
unfolding frfcfs_before row_hit_before fifo_before
before fr_fcfs = frfcfs_before
before fr_fcfs_row_hit = row_hit_before
before fifo = fifo_before

-- `std::min_element`: a later element replaces the smallest so far only if it is before it.
unfoldable pub min_element {ℓ} : {A : Type ℓ} → (A → A → Bool) → A → List A → A
min_element less smallest [] = smallest
min_element less smallest (x ∷ xs) = min_element less (if less x smallest then x else smallest) xs

unfoldable pub choose : SchedulerKind → List SchedulerCandidate → ℕ → Option SchedulerCandidate
unfolding min_element before
choose kind [] now = none
choose kind (c ∷ cs) now = some (min_element (before kind now) c cs)
