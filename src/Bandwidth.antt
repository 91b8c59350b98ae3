-- ===== src/Bandwidth.antt =====
-- The exact rational transport rate (include/hbmsim/resource/bandwidth_rate.h and
-- src/resource/bandwidth_rate.cpp).
pub mod Rounding
use hbmsim.Prelude.{
  ℕ, ◌+◌, ◌-◌, ◌*◌, ◌/◌, ◌||◌, Result, ok, err, invalid_argument, overflow_error, ◌>>=◌, ◌>>◌,
  throw_if, ltb, ◌==◌, u64_max, add64, sub64, mul64,
}

pub record BandwidthRate : Type 0 where
  pub bytes : ℕ
  pub interval : ℕ

-- The member initialisers.
abbrev pub default_rate : BandwidthRate
default_rate = record { bytes = 32; interval = 1_000 }

unfoldable pub validate : BandwidthRate → Result (Unit {0})
validate r = throw_if (r.bytes == 0 || r.interval == 0) invalid_argument

unfoldable pub transfer_time : BandwidthRate → ℕ → Result ℕ
unfolding validate
transfer_time r transfer_bytes = do
  validate r
  throw_if (ltb (u64_max / r.interval) transfer_bytes) overflow_error
  let scaled = mul64 transfer_bytes r.interval
  throw_if (ltb (sub64 u64_max (sub64 r.bytes 1)) scaled) overflow_error
  ok (sub64 (add64 scaled r.bytes) 1 / r.bytes)
