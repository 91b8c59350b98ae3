-- ===== src/Mapping/Roundtrip.antt =====
-- `map` against `bank_address` and against the address that a place stands for.
use native.Mathlib.Nat.{div-add-mod'}
use hbmsim.Prelude.{
  ℕ, ◌+◌, ◌*◌, ◌/◌, ◌%◌, ◌<◌, ◌≡◌, sym, ok, arith, u32, radix-div, radix-mod, div-lt,
}
use hbmsim.Topology.{channel_count}
use hbmsim.Mapping.{
  HbmAddress, HbmAddressMapper, linear, hbm2_pseudo_channel_brc, AddressMapping, fields,
  linear_fields, brc_fields, flatten, bank_count, bank_address, IsMapper,
}
use hbmsim.Mapping.Bounds.{InTopology, topology-Counts, flatten-InTopology}
use hbmsim.Mapping

-- The channel fields of either mapping.
fields-channel :
    (k : AddressMapping) (m : HbmAddressMapper) (a : ℕ)
    → IsMapper m
    → ((fields k m a).stack < m.stacks)
      × ((fields k m a).channel < m.channels_per_stack)
      × ((fields k m a).flat_channel
          ≡ (fields k m a).stack * m.channels_per_stack + (fields k m a).channel)
unfolding linear_fields brc_fields
fields-channel hbm2_pseudo_channel_brc m a v =
    (v.shape.stacks_pos, v.shape.channels_pos, omega arith)
fields-channel linear m a v =
    let c = topology-Counts m.topology v.shape in
    let g = u32 (a / m.interleave_bytes % channel_count m.topology) in
    let h : g < m.stacks * m.channels_per_stack = omega (arith, c.channels, c.channels_pos) in
    (
      div-lt g m.stacks m.channels_per_stack v.shape.channels_pos h,
      omega (arith, v.shape.channels_pos),
      sym (div-add-mod' g m.channels_per_stack),
    )

map-ok :
    (m : HbmAddressMapper) (a : ℕ) (h : HbmAddress)
    → Mapping.map m a ≡ ok h
    → (h ≡ flatten m (fields m.mapping m a))
      × ((fields m.mapping m a).pseudo_channel < m.pseudo_channels_per_channel)
      × ((fields m.mapping m a).bank_group < m.bank_groups_per_pseudo_channel)
      × ((fields m.mapping m a).bank < m.banks_per_bank_group)
      × ((fields m.mapping m a).column < m.columns_per_row)
      × ((fields m.mapping m a).row < m.rows_per_bank)
unfolding Mapping.map
map-ok m a h e = ground arith

-- For a mapper whose dimensions are not zero and whose number of banks, columns and rows fit 32 bits,
-- whatever the mapping, an address that `map` returns lies inside the mapper's dimensions, and its flat
-- indices are the mixed-radix numbers of its fields, computed without wrap-around.
pub map-InTopology :
    (m : HbmAddressMapper) (a : ℕ) (h : HbmAddress)
    → IsMapper m
    → Mapping.map m a ≡ ok h
    → InTopology m h
map-InTopology m a h v e =
    let k = map-ok m a h e in
    let f = fields m.mapping m a in
    let c = fields-channel m.mapping m a v in
    rw k.0 (flatten-InTopology m f v c.0 c.1 k.1 k.2 k.3 k.5 k.4 c.2)

-- The linear mapping is total: no address makes it throw.
pub map_linear :
    (m : HbmAddressMapper) (a : ℕ)
    → IsMapper m
    → m.mapping ≡ linear
    → Mapping.map m a ≡ ok (flatten m (linear_fields m a))
unfolding Mapping.map linear_fields
map_linear m a v e = ground (arith, v)

-- The bank address of a place inside the dimensions of the mapper is that place with row and column
-- reset.
pub bank_address-flat_bank :
    (m : HbmAddressMapper) (h : HbmAddress)
    → InTopology m h
    → bank_address m h.flat_bank ≡ ok (record h { row = 0; column = 0 })
unfolding bank_address
bank_address-flat_bank m h t =
    let b1 : h.flat_bank / m.banks_per_bank_group ≡ h.flat_bank_group =
      rw t.bank_flat (radix-div h.flat_bank_group h.bank m.banks_per_bank_group t.bank_lt) in
    let b2 : h.flat_bank % m.banks_per_bank_group ≡ h.bank =
      rw t.bank_flat (radix-mod h.flat_bank_group h.bank m.banks_per_bank_group t.bank_lt) in
    let g1 : h.flat_bank_group / m.bank_groups_per_pseudo_channel ≡ h.flat_pseudo_channel =
      rw t.group_flat (
        radix-div h.flat_pseudo_channel h.bank_group m.bank_groups_per_pseudo_channel t.group_lt) in
    let g2 : h.flat_bank_group % m.bank_groups_per_pseudo_channel ≡ h.bank_group =
      rw t.group_flat (
        radix-mod h.flat_pseudo_channel h.bank_group m.bank_groups_per_pseudo_channel t.group_lt) in
    let p1 : h.flat_pseudo_channel / m.pseudo_channels_per_channel ≡ h.flat_channel =
      rw t.pseudo_flat
        (radix-div h.flat_channel h.pseudo_channel m.pseudo_channels_per_channel t.pseudo_lt) in
    let p2 : h.flat_pseudo_channel % m.pseudo_channels_per_channel ≡ h.pseudo_channel =
      rw t.pseudo_flat
        (radix-mod h.flat_channel h.pseudo_channel m.pseudo_channels_per_channel t.pseudo_lt) in
    let c1 : h.flat_channel / m.channels_per_stack ≡ h.stack =
      rw t.channel_flat (radix-div h.stack h.channel m.channels_per_stack t.channel_lt) in
    let c2 : h.flat_channel % m.channels_per_stack ≡ h.channel =
      rw t.channel_flat (radix-mod h.stack h.channel m.channels_per_stack t.channel_lt) in
    ground (arith, t.bank_flat_lt, t.sid_flat)
