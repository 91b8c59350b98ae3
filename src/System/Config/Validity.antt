-- ===== src/System/Config/Validity.antt =====
-- Which configurations `validate` accepts.
use hbmsim.Prelude.{
  ℕ, ◌%◌, ◌<◌, ◌≤◌, ◌≡◌, ◌⊎◌, inl, inr, arith, true, false, ok, err, Result, Bool, not, ◌>>◌,
  throw_if, ltb, ◌==◌, ◌&&◌, ◌||◌, invalid_argument,
}
use hbmsim.Topology
use hbmsim.Topology.{HbmTopology}
use hbmsim.Bandwidth
use hbmsim.Bandwidth.{BandwidthRate}
use hbmsim.Controller.Policies.{refresh_duration}
use hbmsim.System.Config.{
  HbmConfig, ControllerConfig, SimulationConfig, DeviceSpec, organization, timing, supports_rfm,
  validate,
}

abbrev pub HasDimensions : HbmTopology → Type 0
HasDimensions t =
    (0 < t.stacks)
    × (0 < t.channels_per_stack)
    × (0 < t.pseudo_channels_per_channel)
    × (0 < t.bank_groups_per_pseudo_channel)
    × (0 < t.banks_per_bank_group)

-- The sizes of a device that can be built.
abbrev pub HasGeometry : DeviceSpec → Type 0
HasGeometry d =
    HasDimensions (organization d).topology
    × (0 < (organization d).pseudo_channel_rate.bytes)
    × (0 < (organization d).pseudo_channel_rate.interval)
    × (0 < (organization d).address_interleave_bytes)
    × (0 < (organization d).columns_per_row)
    × (0 < (organization d).rows_per_bank)
    × (0 < (organization d).physical_burst_bytes)

-- An access granularity is no smaller than a burst and a multiple of it.
abbrev pub HasGranularity : DeviceSpec → SimulationConfig → Type 0
HasGranularity d s =
    (s.simulation_access_granularity_bytes ≡ 0)
    ⊎ (((organization d).physical_burst_bytes ≤ s.simulation_access_granularity_bytes)
        × (s.simulation_access_granularity_bytes % (organization d).physical_burst_bytes ≡ 0))

-- A limit of transactions, watermarks in order, time for a refresh between two of them, and refresh
-- management only where the device has its command, with a threshold.
abbrev pub HasPolicies : DeviceSpec → ControllerConfig → Type 0
HasPolicies d c =
    (0 < c.max_active_transactions)
    × (c.write_drain_low_watermark ≤ c.write_drain_high_watermark)
    × ((c.refresh_interval ≡ 0)
        ⊎ (refresh_duration c.refresh_policy (timing d) ≤ c.refresh_interval))
    × ((c.enable_rfm ≡ false)
        ⊎ ((supports_rfm d.standard ≡ true) × (0 < c.rfm_activation_threshold)))

abbrev pub IsValid : HbmConfig → Type 0
IsValid c =
    HasGeometry c.device × HasGranularity c.device c.simulation × HasPolicies c.device c.controller

-- A check passes exactly where a condition holds, and throws `invalid_argument` elsewhere.
abbrev pub Decides : Result (Unit {0}) → Type 0 → Type 0
Decides r P = ((r ≡ ok tt) × P) ⊎ ((r ≡ err invalid_argument) × ¬ P)

Decides-imp : {P Q : Type 0} (r : Result (Unit {0})) → (P → Q) → (Q → P) → Decides r P → Decides r Q
Decides-imp r f g (inl (e, p)) = inl (e, f p)
Decides-imp r f g (inr (e, n)) = inr (e, λ q. n (g q))

Decides-and :
    {P Q : Type 0} (r s : Result (Unit {0})) → Decides r P → Decides s Q → Decides (r >> s) (P × Q)
Decides-and r s (inl (e, p)) (inl (f, q)) = inl (rw e f, (p, q))
Decides-and r s (inl (e, p)) (inr (f, n)) = inr (rw e f, λ h. n h.1)
Decides-and r s (inr (e, n)) d = inr (ground arith, λ h. n h.0)

validate-topology : (t : HbmTopology) → Decides (Topology.validate t) (HasDimensions t)
unfolding Topology.validate
validate-topology t = ground arith

validate-rate :
    (r : BandwidthRate) → Decides (Bandwidth.validate r) ((0 < r.bytes) × (0 < r.interval))
unfolding Bandwidth.validate
validate-rate r = ground arith

validate_count : (n : ℕ) → Decides (throw_if (n == 0) invalid_argument) (0 < n)
validate_count n = ground arith

validate_sizes :
    (a b c d : ℕ)
    → Decides
        (throw_if (a == 0 || b == 0 || c == 0 || d == 0) invalid_argument)
        ((0 < a) × (0 < b) × (0 < c) × (0 < d))
validate_sizes a b c d = ground arith

validate_order : (low high : ℕ) → Decides (throw_if (ltb high low) invalid_argument) (low ≤ high)
validate_order low high = ground arith

validate_at_least :
    (n least : ℕ)
    → Decides (throw_if (not (n == 0) && ltb n least) invalid_argument) ((n ≡ 0) ⊎ (least ≤ n))
validate_at_least n least = ground arith

validate_multiple :
    (n m : ℕ)
    → Decides (throw_if (not (n == 0) && not (m == 0)) invalid_argument) ((n ≡ 0) ⊎ (m ≡ 0))
validate_multiple n m = ground arith

validate_support :
    (enabled supported : Bool)
    → Decides
        (throw_if (enabled && not supported) invalid_argument)
        ((enabled ≡ false) ⊎ (supported ≡ true))
validate_support enabled supported = ground arith

validate_threshold :
    (enabled : Bool) (n : ℕ)
    → Decides (throw_if (enabled && n == 0) invalid_argument) ((enabled ≡ false) ⊎ (0 < n))
validate_threshold enabled n = ground arith

or_both : {A B C : Type 0} → A ⊎ B → A ⊎ C → A ⊎ (B × C)
or_both (inl a) y = inl a
or_both (inr b) (inl a) = inl a
or_both (inr b) (inr c) = inr (b, c)

or_left : {A B C : Type 0} → A ⊎ (B × C) → A ⊎ B
or_left (inl a) = inl a
or_left (inr x) = inr x.0

or_right : {A B C : Type 0} → A ⊎ (B × C) → A ⊎ C
or_right (inl a) = inl a
or_right (inr x) = inr x.1

-- The conditions in the order of the checks.
abbrev IsChecked : HbmConfig → Type 0
IsChecked c =
    (0 < c.controller.max_active_transactions)
    × (HasDimensions (organization c.device).topology
        × (((0 < (organization c.device).pseudo_channel_rate.bytes)
              × (0 < (organization c.device).pseudo_channel_rate.interval))
            × (((0 < (organization c.device).address_interleave_bytes)
                  × (0 < (organization c.device).columns_per_row)
                  × (0 < (organization c.device).rows_per_bank)
                  × (0 < (organization c.device).physical_burst_bytes))
                × ((c.controller.write_drain_low_watermark
                      ≤ c.controller.write_drain_high_watermark)
                    × (((c.simulation.simulation_access_granularity_bytes ≡ 0)
                          ⊎ ((organization c.device).physical_burst_bytes
                              ≤ c.simulation.simulation_access_granularity_bytes))
                        × (((c.simulation.simulation_access_granularity_bytes ≡ 0)
                              ⊎ (c.simulation.simulation_access_granularity_bytes
                                    % (organization c.device).physical_burst_bytes
                                  ≡ 0))
                            × (((c.controller.refresh_interval ≡ 0)
                                  ⊎ (refresh_duration c.controller.refresh_policy (timing c.device)
                                      ≤ c.controller.refresh_interval))
                                × (((c.controller.enable_rfm ≡ false)
                                      ⊎ (supports_rfm c.device.standard ≡ true))
                                    × (((c.controller.enable_rfm ≡ false)
                                        ⊎ (0 < c.controller.rfm_activation_threshold)))))))))))

IsChecked-IsValid : (c : HbmConfig) → IsChecked c → IsValid c
IsChecked-IsValid c
      (
        limit,
        (t, (rate, (sizes, (order, (least, (multiple, (interval, (support, threshold)))))))),
      ) =
    (
      (t, rate.0, rate.1, sizes.0, sizes.1, sizes.2, sizes.3),
      or_both least multiple,
      (limit, order, interval, or_both support threshold),
    )

IsValid-IsChecked : (c : HbmConfig) → IsValid c → IsChecked c
IsValid-IsChecked c v = (
  v.2.0,
  (
    v.0.0,
    (
      (v.0.1, v.0.2),
      (
        (v.0.3, v.0.4, v.0.5, v.0.6),
        (v.2.1, (or_left v.1, (or_right v.1, (v.2.2, (or_left v.2.3, or_right v.2.3))))),
      ),
    ),
  ),
)

-- `validate` returns on exactly the valid configurations, and throws `invalid_argument` on the others.
pub validate-IsValid : (c : HbmConfig) → Decides (validate c) (IsValid c)
unfolding validate
validate-IsValid c =
    let o = organization c.device in
    let k = c.controller in
    let g = c.simulation.simulation_access_granularity_bytes in
    let checks : Decides (validate c) (IsChecked c) =
      Decides-and _ _ (validate_count k.max_active_transactions) (
        Decides-and _ _ (validate-topology o.topology) (
          Decides-and _ _ (validate-rate o.pseudo_channel_rate) (
            Decides-and _ _
              (validate_sizes o.address_interleave_bytes o.columns_per_row o.rows_per_bank
                o.physical_burst_bytes)
              (Decides-and _ _
                (validate_order k.write_drain_low_watermark k.write_drain_high_watermark)
                (Decides-and _ _ (validate_at_least g o.physical_burst_bytes) (
                  Decides-and _ _ (validate_multiple g (g % o.physical_burst_bytes)) (
                    Decides-and _ _
                      (validate_at_least k.refresh_interval
                        (refresh_duration k.refresh_policy (timing c.device)))
                      (Decides-and _ _
                        (validate_support k.enable_rfm (supports_rfm c.device.standard))
                        (validate_threshold k.enable_rfm k.rfm_activation_threshold))))))))) in
    Decides-imp (validate c) (IsChecked-IsValid c) (IsValid-IsChecked c) checks
