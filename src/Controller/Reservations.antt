-- ===== src/Controller/Reservations.antt =====
-- src/controller/hbm_controller.cpp: the bounded queues as the driver sees them, `can_reserve`,
-- `available_read_slots`, `available_write_slots`, `reserve` and `cancel_reservation`. Of the controller's
-- state this is the lengths of its two queues and its two counters; `std::size_t` has 64 bits.
pub mod Capacity
use hbmsim.Prelude.{
  ℕ, ◌-◌, Bool, ◌&&◌, ◌||◌, not, Result, ok, logic_error, ◌>>=◌, ◌>>◌, throw_if, if◌then◌else◌, ltb,
  leb, ◌==◌, u64_max, add64, sub64,
}
use hbmsim.Controller.Policies.{has_capacity}

pub record Reservations : Type 0 where
  pub read_queue_capacity : ℕ
  pub write_queue_capacity : ℕ
  -- `read_queue_.size()` and `write_queue_.size()`
  pub read_queue_size : ℕ
  pub write_queue_size : ℕ
  pub reserved_reads : ℕ
  pub reserved_writes : ℕ

unfoldable pub can_reserve : Reservations → ℕ → ℕ → Bool
unfolding has_capacity
can_reserve s reads writes =
    has_capacity s.read_queue_capacity (add64 s.read_queue_size s.reserved_reads) reads
    && has_capacity s.write_queue_capacity (add64 s.write_queue_size s.reserved_writes) writes

-- The body that `available_read_slots` and `available_write_slots` share.
abbrev pub available_slots : ℕ → ℕ → ℕ
available_slots capacity used =
    if capacity == 0 then u64_max else if leb capacity used then 0 else sub64 capacity used

unfoldable pub available_read_slots : Reservations → ℕ
available_read_slots s =
    available_slots s.read_queue_capacity (add64 s.read_queue_size s.reserved_reads)

unfoldable pub available_write_slots : Reservations → ℕ
available_write_slots s =
    available_slots s.write_queue_capacity (add64 s.write_queue_size s.reserved_writes)

unfoldable pub reserve : Reservations → ℕ → ℕ → Result Reservations
unfolding can_reserve
reserve s reads writes = do
  throw_if (not (can_reserve s reads writes)) logic_error
  ok (record s {
    reserved_reads = add64 s.reserved_reads reads;
    reserved_writes = add64 s.reserved_writes writes;
  })

unfoldable pub cancel_reservation : Reservations → ℕ → ℕ → Result Reservations
cancel_reservation s reads writes = do
  throw_if (ltb s.reserved_reads reads || ltb s.reserved_writes writes) logic_error
  ok (record s {
    reserved_reads = sub64 s.reserved_reads reads;
    reserved_writes = sub64 s.reserved_writes writes;
  })
