-- ===== src/Types.antt =====
-- include/hbmsim/common/types.h: times, transaction ids (64-bit words) and client ids (32-bit words) are
-- numbers.
use hbmsim.Prelude.{ℕ, Bool, true, false}

abbrev pub picoseconds_per_nanosecond : ℕ
picoseconds_per_nanosecond = 1_000

-- `HbmOp`
pub data HbmOp : Type 0 where
  read write : HbmOp

-- `op == HbmOp::Read`
abbrev pub is_read : HbmOp → Bool
is_read HbmOp.read = true
is_read HbmOp.write = false
