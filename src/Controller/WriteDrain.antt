-- ===== src/Controller/WriteDrain.antt =====
-- src/controller/hbm_controller.cpp: `update_write_drain`, whether the controller serves its write queue
-- first, between two watermarks on the queue's length.
pub mod Hysteresis
use hbmsim.Prelude.{ℕ, Bool, true, false, not, ◌&&◌, List, [], ◌∷◌, if◌then◌else◌, leb, ◌==◌}

pub record WriteDrain : Type 0 where
  pub write_drain_high_watermark : ℕ
  pub write_drain_low_watermark : ℕ
  pub draining_writes : Bool

-- On the length of the write queue.
unfoldable pub update_write_drain : WriteDrain → ℕ → WriteDrain
update_write_drain d size =
    if d.draining_writes && leb size d.write_drain_low_watermark
    then record d { draining_writes = false }
    else if not d.draining_writes && not (size == 0) && leb d.write_drain_high_watermark size
    then record d { draining_writes = true }
    else d

-- One update after the other, as the queue's length changes.
unfoldable pub drain_after : WriteDrain → List ℕ → WriteDrain
drain_after d [] = d
drain_after d (size ∷ sizes) = drain_after (update_write_drain d size) sizes
