-- ===== src/Bandwidth/Rounding.antt =====
-- What `transfer_time` returns, and when it throws.
use native.Mathlib.Nat.{div-lt_iff_lt-mul, div-add-mod'}
use hbmsim.Prelude.{
  ℕ, ◌+◌, ◌-◌, ◌*◌, ◌/◌, ◌≤◌, ◌<◌, ◌≡◌, ok, err, overflow_error, arith, u64_max, ◌⊎◌, inl, inr,
  dec_le,
}
use hbmsim.Bandwidth.{BandwidthRate, transfer_time}

-- A rate whose fields are 64-bit words, and neither is zero.
pub record IsRate (r : BandwidthRate) : Type 0 where
  pub bytes_pos : 0 < r.bytes
  pub interval_pos : 0 < r.interval
  pub bytes_word : r.bytes ≤ u64_max
  pub interval_word : r.interval ≤ u64_max

-- The least number of ticks that carries `n` bytes.
abbrev pub ceil_time : BandwidthRate → ℕ → ℕ
ceil_time r n = (n * r.interval + r.bytes - 1) / r.bytes

transfer_time_fits :
    (r : BandwidthRate) (n : ℕ)
    → IsRate r
    → n * r.interval + r.bytes - 1 ≤ u64_max
    → transfer_time r n ≡ ok (ceil_time r n)
unfolding transfer_time
transfer_time_fits r n v h =
    ground (arith, div-lt_iff_lt-mul {k = r.interval} {x = u64_max} {y = n} v.interval_pos)

transfer_time_overflows :
    (r : BandwidthRate) (n : ℕ)
    → IsRate r
    → u64_max < n * r.interval + r.bytes - 1
    → transfer_time r n ≡ err overflow_error
unfolding transfer_time
transfer_time_overflows r n v h =
    ground (arith, div-lt_iff_lt-mul {k = r.interval} {x = u64_max} {y = n} v.interval_pos)

ceil_time_bounds :
    (r : BandwidthRate) (n : ℕ)
    → IsRate r
    → (n * r.interval ≤ ceil_time r n * r.bytes)
      × (ceil_time r n * r.bytes < n * r.interval + r.bytes)
ceil_time_bounds r n v =
    omega (arith, div-add-mod' (n * r.interval + r.bytes - 1) r.bytes, v.bytes_pos)

-- At a valid rate a transfer of `n` bytes takes the least time whose share of the rate covers them,
-- so long as the rounded product fits 64 bits; otherwise the call throws `overflow_error`. No
-- intermediate result wraps in either case.
pub transfer_time-exact :
    (r : BandwidthRate) (n : ℕ)
    → IsRate r
    → ((n * r.interval + r.bytes - 1 ≤ u64_max)
        × (transfer_time r n ≡ ok (ceil_time r n))
        × (n * r.interval ≤ ceil_time r n * r.bytes)
        × (ceil_time r n * r.bytes < n * r.interval + r.bytes))
      ⊎ ((u64_max < n * r.interval + r.bytes - 1) × (transfer_time r n ≡ err overflow_error))
transfer_time-exact r n v = elim (dec_le (n * r.interval + r.bytes - 1) u64_max) [
  | yes h ↦ let b = ceil_time_bounds r n v in inl (h, transfer_time_fits r n v h, b.0, b.1)
  | no h ↦
      let h' : u64_max < n * r.interval + r.bytes - 1 = omega arith in
      inr (h', transfer_time_overflows r n v h')
]
