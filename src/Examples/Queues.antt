-- ===== src/Examples/Queues.antt =====
-- The controller's bookkeeping: merging, reservations, wake-ups and the write drain.
use hbmsim.Prelude.{
  inl, ℕ, ◌≤◌, ◌≡◌, ◌⊎◌, ◌↔◌, refl, ok, arith, true, false, none, some, [], ◌∷◌, All,
}
use hbmsim.Types.{HbmOp}
use hbmsim.Mapping.{zero_address}
use hbmsim.Controller.Access.{LogicalAccess, demand, can_merge}
use hbmsim.Controller.Reservations.{
  Reservations, can_reserve, available_read_slots, available_write_slots, reserve,
  cancel_reservation,
}
use hbmsim.Controller.Reservations.Capacity.{
  IsBounded, can_reserve-iff-available_slots, reserve-cancel_reservation,
}
use hbmsim.Controller.Wakeups.{Wakeups, mark_all, mark_wakeup, claim_refresh_event}
use hbmsim.Controller.Wakeups.Earliest.{Among, mark_all-earliest, claim_refresh_event-once}
use hbmsim.Controller.WriteDrain.{WriteDrain, update_write_drain, drain_after}
use hbmsim.Controller.WriteDrain.Hysteresis.{drain_after-Between, drain_after-decides}

abbrev pub first_read : LogicalAccess
first_read = record {
  parent_id = 1;
  op = HbmOp.read;
  address = zero_address;
  size_bytes = 32;
  arrival_time = 0;
  client = 0;
  sequence = 0;
  metadata = record { traffic_class = demand; priority = 0; opaque_tag = 0; ordering_domain = 0 };
  byte_address = 64;
}

abbrev pub second_read : LogicalAccess
second_read = record first_read { parent_id = 2; sequence = 1 }

merge_test : can_merge true first_read second_read ≡ true
unfolding can_merge
merge_test = refl

-- Four reads of a capacity of eight, and no limit on writes.
abbrev half : Reservations
half = record {
  read_queue_capacity = 8;
  write_queue_capacity = 0;
  read_queue_size = 3;
  write_queue_size = 5;
  reserved_reads = 1;
  reserved_writes = 0;
}

abbrev full : Reservations
full = record half { reserved_reads = 5; reserved_writes = 2 }

half-IsBounded : IsBounded half
half-IsBounded = record {
  read_capacity_word = omega arith;
  write_capacity_word = omega arith;
  reads_hold = ground arith;
  writes_hold = ground arith;
}

reserve_test : reserve half 4 2 ≡ ok full
unfolding reserve
reserve_test = refl

full_test : can_reserve full 1 0 ≡ false
unfolding can_reserve
full_test = refl

can_reserve-iff-available_slots_example :
    (can_reserve half 4 2 ≡ true)
    ↔ ((4 ≤ available_read_slots half) × (2 ≤ available_write_slots half))
can_reserve-iff-available_slots_example =
    can_reserve-iff-available_slots half 4 2 half-IsBounded (omega arith) (omega arith)

reserve-cancel_reservation_example : IsBounded full × (cancel_reservation full 4 2 ≡ ok half)
reserve-cancel_reservation_example =
    reserve-cancel_reservation half full 4 2 half-IsBounded (omega arith) (omega arith) reserve_test

abbrev quiet : Wakeups
quiet = record { wakeup_at = none; refresh_due_at = none; next_refresh_due = some 3_900 }

mark_all_test : (mark_all quiet (70 ∷ 40 ∷ 50 ∷ [])).wakeup_at ≡ some 40
unfolding mark_all mark_wakeup
mark_all_test = refl

mark_all-earliest_example :
    (n : ℕ) × ((mark_all quiet (70 ∷ 40 ∷ 50 ∷ [])).wakeup_at ≡ some n)
    × All (λ t. n ≤ t) (70 ∷ 40 ∷ 50 ∷ [])
    × Among n (70 ∷ 40 ∷ 50 ∷ [])
mark_all-earliest_example = mark_all-earliest quiet 70 (40 ∷ 50 ∷ []) refl

claim_test : (claim_refresh_event quiet).0 ≡ some 3_900
unfolding claim_refresh_event
claim_test = refl

claim_refresh_event-once_example :
    (((claim_refresh_event quiet).0 ≡ none) ⊎ ((claim_refresh_event quiet).0 ≡ some 3_900))
    × ((claim_refresh_event quiet).1.next_refresh_due ≡ some 3_900)
    × (claim_refresh_event (claim_refresh_event quiet).1 ≡ (none, (claim_refresh_event quiet).1))
claim_refresh_event-once_example = claim_refresh_event-once quiet

abbrev drain : WriteDrain
drain = record {
  write_drain_high_watermark = 16;
  write_drain_low_watermark = 4;
  draining_writes = true;
}

drain_test : drain_after drain (6 ∷ 5 ∷ 4 ∷ 9 ∷ []) ≡ record drain { draining_writes = false }
unfolding drain_after update_write_drain
drain_test = refl

drain_after-Between_example : drain_after drain (6 ∷ 5 ∷ 15 ∷ []) ≡ drain
drain_after-Between_example = drain_after-Between drain (6 ∷ 5 ∷ 15 ∷ []) (omega arith)

-- Six and five writes, four of them, then nine and twelve: the four have turned the drain off.
drain_after-decides_example :
    ((4 ≤ 4) × ((drain_after drain (6 ∷ 5 ∷ 4 ∷ 9 ∷ 12 ∷ [])).draining_writes ≡ false))
    ⊎ ((16 ≤ 4) × ((drain_after drain (6 ∷ 5 ∷ 4 ∷ 9 ∷ 12 ∷ [])).draining_writes ≡ true))
drain_after-decides_example =
    drain_after-decides drain (6 ∷ 5 ∷ []) (9 ∷ 12 ∷ []) 4 (omega arith) (inl (omega arith))
      (omega arith)
