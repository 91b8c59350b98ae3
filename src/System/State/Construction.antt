-- ===== src/System/State/Construction.antt =====
-- What the constructor of `HbmSystem` (src/hbm_system.cpp) makes of a configuration.
use hbmsim.Prelude.{
  ℕ, zero, suc, ◌+◌, ◌*◌, ◌/◌, ◌^◌, ◌<◌, ◌≡◌, ◌⊎◌, inl, inr, refl, arith, List, [], ◌∷◌, replicate,
  ◌>>◌, ◌>>=◌, ok, err, invalid_argument, mul32, mul_pos, ◌∙◌,
}
use native.Mathlib.Nat.{mul-div_cancel_left}
use hbmsim.Topology
use hbmsim.Topology.{HbmTopology, IsTopology, channel_count}
use hbmsim.Mapping.{HbmAddressMapper, bank_count}
use hbmsim.Mapping.Bounds.{topology-Counts, bank_count-eq}
use hbmsim.Dram.Standard.{idle_bank}
use hbmsim.EventQueue.{EventQueue}
use hbmsim.Statistics.{HbmStats}
use hbmsim.Controller.State.{HbmController, make_controller}
use hbmsim.System.Config.{HbmConfig, organization, validate, address_mapper}
use hbmsim.System.Config.Validity.{IsValid, validate-IsValid}
use hbmsim.System.State.{
  HbmSystem, PendingEvent, make_system, make_controllers, controller_config, new_stats,
  channel_stats,
}

-- The controllers in the order of their channels, from one on to the last: each idle, with the next
-- banks of the device, at least one, until the banks are used up.
abbrev pub Owns : (channel channels first banks : ℕ) → List HbmController → Type 0
Owns channel channels first banks [] = (channel ≡ channels) × (first ≡ banks)
Owns channel channels first banks (c ∷ cs) =
    (c.config.channel ≡ channel)
    × (c.config.first_flat_bank ≡ first)
    × (0 < c.config.bank_count)
    × (c.banks ≡ replicate c.config.bank_count idle_bank)
    × (c.read_queue ≡ [])
    × (c.write_queue ≡ [])
    × Owns (suc channel) channels (first + c.config.bank_count) banks cs

first_banks :
    (channel rest channels banks first total : ℕ)
    → channel + suc rest ≡ channels
    → first ≡ channel * banks
    → channels * banks ≡ total
    → total < 2 ^ 32
    → mul32 channel banks ≡ first
first_banks channel rest channels banks first total e f g h =
    let up : channels * banks ≡ channel * banks + suc rest * banks = rw (← e) (omega arith) in
    omega (arith, up)

make_controllers-Owns :
    (c : HbmConfig) (mapper : HbmAddressMapper) (stats : HbmStats)
    (banks channels total first channel rest : ℕ)
    → 0 < banks
    → channel + rest ≡ channels
    → first ≡ channel * banks
    → channels * banks ≡ total
    → total < 2 ^ 32
    → Owns channel channels first total (make_controllers c mapper stats banks channel rest)
unfolding make_controller controller_config
make_controllers-Owns c mapper stats banks channels total first channel zero p e f g h =
    let last : channel ≡ channels = omega arith in (last, rw (f, last) g)
make_controllers-Owns c mapper stats banks channels total first channel (suc rest) p e f g h = (
  refl,
  first_banks channel rest channels banks first total e f g h,
  p,
  refl,
  refl,
  refl,
  make_controllers-Owns c mapper stats banks channels total (first + banks) (suc channel) rest p
      (omega arith) (omega arith) g h,
)

-- The number of banks of the device, before it is taken as a 32-bit word.
abbrev pub all_banks : HbmTopology → ℕ
all_banks t =
    t.stacks * t.channels_per_stack * t.pseudo_channels_per_channel
    * t.bank_groups_per_pseudo_channel * t.banks_per_bank_group

abbrev pub Starts : HbmConfig → HbmSystem → Type 0
Starts c s =
    (s.config ≡ c)
    × (s.parents ≡ [])
    × Owns 0
        ((organization c.device).topology.stacks
          * (organization c.device).topology.channels_per_stack)
        0 (all_banks (organization c.device).topology) s.controllers

abbrev mapper_of : HbmConfig → HbmAddressMapper
mapper_of c = record {
  topology = (organization c.device).topology;
  interleave_bytes = (organization c.device).address_interleave_bytes;
  columns_per_row = (organization c.device).columns_per_row;
  rows_per_bank = (organization c.device).rows_per_bank;
  mapping = (organization c.device).address_mapping;
}

address_mapper-valid : (c : HbmConfig) → IsValid c → address_mapper c ≡ ok (mapper_of c)
unfolding address_mapper Topology.validate
address_mapper-valid c v = ground arith

-- The members of a system that is made.
built : HbmConfig → EventQueue PendingEvent → HbmAddressMapper → HbmSystem
built c scheduler mapper =
    let channels = channel_count (organization c.device).topology in
    let banks = bank_count mapper / channels in
    let stats = new_stats (
      replicate channels (
        channel_stats c.simulation.detailed_stats
          (organization c.device).topology.pseudo_channels_per_channel banks)) in
    record {
      config = c;
      scheduler = scheduler;
      address_mapper = mapper;
      stats = stats;
      controllers = make_controllers c mapper stats banks 0 channels;
      parents = [];
      pending_admissions = [];
      completions = [];
      pending_events = [];
      next_access_sequence = 0;
    }

make_system-built :
    (c : HbmConfig) (scheduler : EventQueue PendingEvent)
    → make_system c scheduler
      ≡ validate c >> (address_mapper c >>= λ mapper. ok (built c scheduler mapper))
unfolding make_system built
make_system-built c scheduler = refl

built-Starts :
    (c : HbmConfig) (scheduler : EventQueue PendingEvent)
    → IsValid c
    → all_banks (organization c.device).topology < 2 ^ 32
    → Starts c (built c scheduler (mapper_of c))
unfolding built
built-Starts c scheduler v word =
    let t = (organization c.device).topology in
    let d = v.0.0 in
    let shape : IsTopology t = record {
      stacks_pos = d.0;
      channels_pos = d.1;
      pseudo_channels_pos = d.2;
      bank_groups_pos = d.3;
      banks_pos = d.4;
      banks_word = word;
    } in
    let k = topology-Counts t shape in
    let each : ℕ =
      t.pseudo_channels_per_channel * t.bank_groups_per_pseudo_channel * t.banks_per_bank_group in
    let total = bank_count-eq (mapper_of c) k in
    let n = channel_count t in
    let share : bank_count (mapper_of c) ≡ n * each = total ∙ omega arith in
    let split : bank_count (mapper_of c) / n ≡ each =
      rw share (mul-div_cancel_left each k.channels_pos) in
    let all : ℕ =
      n * t.pseudo_channels_per_channel * t.bank_groups_per_pseudo_channel
      * t.banks_per_bank_group in
    let each_pos : 0 < each =
      mul_pos (t.pseudo_channels_per_channel * t.bank_groups_per_pseudo_channel)
        t.banks_per_bank_group
        (mul_pos t.pseudo_channels_per_channel t.bank_groups_per_pseudo_channel d.2 d.3) d.4 in
    (
      refl,
      refl,
      rw (split, ← k.channels)
          (make_controllers-Owns c (mapper_of c) _ each n all 0 0 n each_pos (omega arith)
            (omega arith) (omega arith) k.banks_word),
    )

-- On a device whose number of banks fits 32 bits, the constructor throws `invalid_argument` for exactly
-- the configurations that are not valid. For the others it returns a system without parents, whose
-- controllers stand in the order of the channels, one for each, idle and with empty queues, and share out
-- the banks of the device in order, without gap or overlap.
pub make_system-Outcome :
    (c : HbmConfig) (scheduler : EventQueue PendingEvent)
    → all_banks (organization c.device).topology < 2 ^ 32
    → ((make_system c scheduler ≡ err invalid_argument) × ¬ (IsValid c))
      ⊎ (IsValid c × ((s : HbmSystem) × (make_system c scheduler ≡ ok s) × Starts c s))
make_system-Outcome c scheduler word =
    let s = make_system-built c scheduler in
    elim (validate-IsValid c) [
      | inr (e, n) ↦ inl (rw (s, e) refl, n)
      | inl (e, v) ↦ inr (
        v,
        (
          built c scheduler (mapper_of c),
          rw (s, e, address_mapper-valid c v) refl,
          built-Starts c scheduler v word,
        ),
      )
    ]
