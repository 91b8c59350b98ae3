-- ===== src/Controller/Reservations/Capacity.antt =====
-- What reservations promise: the free slots that are reported can be reserved, the capacities hold, and a
-- cancelled reservation leaves nothing behind.
use hbmsim.Prelude.{ℕ, ◌+◌, ◌≤◌, ◌≡◌, ◌⊎◌, ◌↔◌, true, ok, arith, u64_max}
use hbmsim.Controller.Reservations.{
  Reservations, can_reserve, available_read_slots, available_write_slots, reserve,
  cancel_reservation,
}

-- A capacity of zero is no limit, but the counters are 64-bit words in any case.
abbrev pub Holds : ℕ → ℕ → Type 0
Holds capacity used = (used ≤ u64_max) × ((capacity ≡ 0) ⊎ (used ≤ capacity))

pub record IsBounded (s : Reservations) : Type 0 where
  pub read_capacity_word : s.read_queue_capacity ≤ u64_max
  pub write_capacity_word : s.write_queue_capacity ≤ u64_max
  pub reads_hold : Holds s.read_queue_capacity (s.read_queue_size + s.reserved_reads)
  pub writes_hold : Holds s.write_queue_capacity (s.write_queue_size + s.reserved_writes)

-- In a bounded state, numbers of reads and writes that fit 64 bits can be reserved exactly when there
-- are as many available slots of either kind.
pub can_reserve-iff-available_slots :
    (s : Reservations) (reads writes : ℕ)
    → IsBounded s
    → reads ≤ u64_max
    → writes ≤ u64_max
    → (can_reserve s reads writes ≡ true)
      ↔ ((reads ≤ available_read_slots s) × (writes ≤ available_write_slots s))
unfolding can_reserve available_read_slots available_write_slots
can_reserve-iff-available_slots s reads writes v hr hw =
    ((λ e. ground (arith, v)), (λ h. ground (arith, v)))

-- From a bounded state, a reservation that does not throw and whose counters fit 64 bits keeps the
-- capacities, and cancelling it restores the state.
pub reserve-cancel_reservation :
    (s s' : Reservations) (reads writes : ℕ)
    → IsBounded s
    → s.read_queue_size + s.reserved_reads + reads ≤ u64_max
    → s.write_queue_size + s.reserved_writes + writes ≤ u64_max
    → reserve s reads writes ≡ ok s'
    → IsBounded s' × (cancel_reservation s' reads writes ≡ ok s)
unfolding reserve cancel_reservation
reserve-cancel_reservation s s' reads writes v hr hw e =
    let r : s'.reserved_reads ≡ s.reserved_reads + reads = ground (arith, v) in
    let w : s'.reserved_writes ≡ s.reserved_writes + writes = ground (arith, v) in
    let same : record s {
      reserved_reads = s.reserved_reads + reads;
      reserved_writes = s.reserved_writes + writes;
    }
        ≡ s' =
      ground (arith, v) in
    rw (← same) (
      record {
        read_capacity_word = v.read_capacity_word;
        write_capacity_word = v.write_capacity_word;
        reads_hold = ground (arith, v, e);
        writes_hold = ground (arith, v, e);
      },
      ground (arith, v),
    )
