-- ===== src/Mapping.antt =====
-- The address mapper (include/hbmsim/mapping/address_mapper.h and src/mapping/address_mapper.cpp).
-- Division by a channel count of zero, which C++ leaves undefined, is ruled out by `IsTopology`.
pub mod Bounds
pub mod Roundtrip
pub mod Lines
pub mod Aliases
use hbmsim.Prelude.{
  ℕ, ◌+◌, ◌-◌, ◌*◌, ◌/◌, ◌%◌, ◌<◌, ◌≤◌, ◌^◌, ◌||◌, Result, ok, err, invalid_argument, out_of_range,
  ◌>>=◌, ◌>>◌, throw_if, leb, ◌==◌, if◌then◌else◌, u32, add32, mul32, sub64, shr, low_bits, u64_max,
}
use hbmsim.Topology.{HbmTopology, channel_count, IsTopology}
use hbmsim.Topology

pub data AddressMapping : Type 0 where
  linear hbm2_pseudo_channel_brc : AddressMapping

pub record HbmAddress : Type 0 where
  pub stack : ℕ
  pub channel : ℕ
  pub pseudo_channel : ℕ
  pub bank_group : ℕ
  pub bank : ℕ
  pub row : ℕ
  pub column : ℕ
  pub flat_channel : ℕ
  pub flat_sid : ℕ
  pub flat_pseudo_channel : ℕ
  pub flat_bank_group : ℕ
  pub flat_bank : ℕ

-- `HbmAddress result;`
abbrev pub zero_address : HbmAddress
zero_address = record {
  stack = 0;
  channel = 0;
  pseudo_channel = 0;
  bank_group = 0;
  bank = 0;
  row = 0;
  column = 0;
  flat_channel = 0;
  flat_sid = 0;
  flat_pseudo_channel = 0;
  flat_bank_group = 0;
  flat_bank = 0;
}

pub record HbmAddressMapper : Type 0 where
  pub topology : HbmTopology
  pub open topology use *
  pub interleave_bytes : ℕ
  pub columns_per_row : ℕ
  pub rows_per_bank : ℕ
  pub mapping : AddressMapping

-- The constructor.
unfoldable pub make_mapper : HbmTopology → ℕ → ℕ → ℕ → AddressMapping → Result HbmAddressMapper
unfolding Topology.validate
make_mapper topology interleave_bytes columns_per_row rows_per_bank mapping = do
  Topology.validate topology
  throw_if (interleave_bytes == 0 || columns_per_row == 0 || rows_per_bank == 0) invalid_argument
  ok (record {
    topology = topology;
    interleave_bytes = interleave_bytes;
    columns_per_row = columns_per_row;
    rows_per_bank = rows_per_bank;
    mapping = mapping;
  })

-- The branch of `map` for the HBM2 bit layout.
unfoldable pub brc_fields : ℕ → HbmAddress
brc_fields address = record zero_address {
  pseudo_channel = u32 (low_bits (shr address 5) 1);
  bank_group = u32 (low_bits (shr address 6) 2);
  bank = u32 (low_bits (shr address 8) 2);
  column = u32 (low_bits (shr address 11) 5);
  row = u32 (low_bits (shr address 16) 14);
}

-- The other branch: `line` is divided by one dimension after the other.
unfoldable pub linear_fields : HbmAddressMapper → ℕ → HbmAddress
unfolding channel_count
linear_fields m address =
    let line = address / m.interleave_bytes in
    let global_channel = u32 (line % channel_count m.topology) in
    let line_column = line / channel_count m.topology in
    let line_row = line_column / m.columns_per_row in
    let line_bank = line_row / m.rows_per_bank in
    let line_group = line_bank / m.banks_per_bank_group in
    let line_pseudo = line_group / m.bank_groups_per_pseudo_channel in
    record zero_address {
      stack = global_channel / m.channels_per_stack;
      channel = global_channel % m.channels_per_stack;
      flat_channel = global_channel;
      column = u32 (line_column % m.columns_per_row);
      row = u32 (line_row % m.rows_per_bank);
      bank = u32 (line_bank % m.banks_per_bank_group);
      bank_group = u32 (line_group % m.bank_groups_per_pseudo_channel);
      pseudo_channel = u32 (line_pseudo % m.pseudo_channels_per_channel);
    }

abbrev pub fields : AddressMapping → HbmAddressMapper → ℕ → HbmAddress
fields hbm2_pseudo_channel_brc m address = brc_fields address
fields linear m address = linear_fields m address

-- The flat indices, computed from the fields.
unfoldable pub flatten : HbmAddressMapper → HbmAddress → HbmAddress
flatten m r =
    let flat_pseudo_channel =
      add32 (mul32 r.flat_channel m.pseudo_channels_per_channel) r.pseudo_channel in
    let flat_bank_group =
      add32 (mul32 flat_pseudo_channel m.bank_groups_per_pseudo_channel) r.bank_group in
    record r {
      flat_pseudo_channel = flat_pseudo_channel;
      flat_sid = r.stack;
      flat_bank_group = flat_bank_group;
      flat_bank = add32 (mul32 flat_bank_group m.banks_per_bank_group) r.bank;
    }

unfoldable pub map : HbmAddressMapper → ℕ → Result HbmAddress
map m address = do
  let result = fields m.mapping m address
  throw_if
      (leb m.pseudo_channels_per_channel result.pseudo_channel
        || leb m.bank_groups_per_pseudo_channel result.bank_group
        || leb m.banks_per_bank_group result.bank
        || leb m.columns_per_row result.column
        || leb m.rows_per_bank result.row)
      out_of_range
  ok (flatten m result)

unfoldable pub bank_count : HbmAddressMapper → ℕ
bank_count m =
    mul32
      (mul32 (mul32 (channel_count m.topology) m.pseudo_channels_per_channel)
        m.bank_groups_per_pseudo_channel)
      m.banks_per_bank_group

unfoldable pub next_mapping_boundary : HbmAddressMapper → ℕ → ℕ
next_mapping_boundary m address = sub64 m.interleave_bytes (address % m.interleave_bytes)

unfoldable pub bank_address : HbmAddressMapper → ℕ → Result HbmAddress
unfolding bank_count
bank_address m flat_bank = do
  throw_if (leb (bank_count m) flat_bank) out_of_range
  let flat_bank_group = flat_bank / m.banks_per_bank_group
  let flat_pseudo_channel = flat_bank_group / m.bank_groups_per_pseudo_channel
  let flat_channel = flat_pseudo_channel / m.pseudo_channels_per_channel
  let stack = flat_channel / m.channels_per_stack
  ok (record zero_address {
    flat_bank = flat_bank;
    bank = flat_bank % m.banks_per_bank_group;
    flat_bank_group = flat_bank_group;
    bank_group = flat_bank_group % m.bank_groups_per_pseudo_channel;
    flat_pseudo_channel = flat_pseudo_channel;
    pseudo_channel = flat_pseudo_channel % m.pseudo_channels_per_channel;
    flat_channel = flat_channel;
    stack = stack;
    flat_sid = stack;
    channel = flat_channel % m.channels_per_stack;
  })

-- A mapper as its constructor makes one, over a topology whose banks can be counted.
pub record IsMapper (m : HbmAddressMapper) : Type 0 where
  pub shape : IsTopology m.topology
  pub interleave_pos : 0 < m.interleave_bytes
  pub interleave_word : m.interleave_bytes ≤ u64_max
  pub columns_pos : 0 < m.columns_per_row
  pub columns_word : m.columns_per_row < 2 ^ 32
  pub rows_pos : 0 < m.rows_per_bank
  pub rows_word : m.rows_per_bank < 2 ^ 32
