-- ===== src/Topology.antt =====
-- include/hbmsim/topology.h: the dimensions of the memory hierarchy, 32-bit words.
use hbmsim.Prelude.{ℕ, ◌*◌, ◌<◌, ◌^◌, ◌||◌, Result, invalid_argument, throw_if, ◌==◌, mul32}

pub record HbmTopology : Type 0 where
  pub stacks : ℕ
  pub channels_per_stack : ℕ
  pub pseudo_channels_per_channel : ℕ
  pub bank_groups_per_pseudo_channel : ℕ
  pub banks_per_bank_group : ℕ

-- The member initialisers.
abbrev pub default_topology : HbmTopology
default_topology = record {
  stacks = 1;
  channels_per_stack = 1;
  pseudo_channels_per_channel = 2;
  bank_groups_per_pseudo_channel = 1;
  banks_per_bank_group = 1;
}

unfoldable pub validate : HbmTopology → Result (Unit {0})
validate t =
    throw_if
      (t.stacks == 0
        || t.channels_per_stack == 0
        || t.pseudo_channels_per_channel == 0
        || t.bank_groups_per_pseudo_channel == 0
        || t.banks_per_bank_group == 0)
      invalid_argument

unfoldable pub channel_count : HbmTopology → ℕ
channel_count t = mul32 t.stacks t.channels_per_stack

-- No dimension is zero, and the number of banks of the whole device is a 32-bit word.
pub record IsTopology (t : HbmTopology) : Type 0 where
  pub stacks_pos : 0 < t.stacks
  pub channels_pos : 0 < t.channels_per_stack
  pub pseudo_channels_pos : 0 < t.pseudo_channels_per_channel
  pub bank_groups_pos : 0 < t.bank_groups_per_pseudo_channel
  pub banks_pos : 0 < t.banks_per_bank_group
  pub banks_word :
      t.stacks * t.channels_per_stack * t.pseudo_channels_per_channel
        * t.bank_groups_per_pseudo_channel * t.banks_per_bank_group
      < 2 ^ 32
