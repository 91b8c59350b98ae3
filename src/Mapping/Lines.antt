-- ===== src/Mapping/Lines.antt =====
-- The linear mapping as a bijection between the lines of the device and its places.
use native.Mathlib.Nat.{div-add-mod', div-eq_of_lt-le, mod-eq_of_lt}
use hbmsim.Prelude.{
  ℕ, ◌+◌, ◌-◌, ◌*◌, ◌/◌, ◌%◌, ◌≤◌, ◌<◌, ◌^◌, ◌≡◌, ◌↔◌, refl, sym, ok, ok-injective, arith, add32,
  mul32, radix-div, radix-mod, div-lt, u32-mod, ◌∙◌, ap, sub64,
}
use hbmsim.Topology.{channel_count}
use hbmsim.Mapping.{
  HbmAddress, HbmAddressMapper, linear, hbm2_pseudo_channel_brc, AddressMapping, fields,
  linear_fields, brc_fields, flatten, bank_count, IsMapper, next_mapping_boundary,
}
use hbmsim.Mapping.Bounds.{InTopology, topology-Counts, InTopology-IsWords, dimensions-le}
use hbmsim.Mapping.Roundtrip.{map_linear}
use hbmsim.Mapping

-- The line that a place stands for, and the number of lines of the device.
unfoldable pub line_of : HbmAddressMapper → HbmAddress → ℕ
line_of m h =
    ((((h.pseudo_channel * m.bank_groups_per_pseudo_channel + h.bank_group) * m.banks_per_bank_group
                + h.bank)
              * m.rows_per_bank
            + h.row)
          * m.columns_per_row
        + h.column)
      * channel_count m.topology
    + h.flat_channel

unfoldable pub line_count : HbmAddressMapper → ℕ
line_count m =
    m.pseudo_channels_per_channel
    * m.bank_groups_per_pseudo_channel
    * m.banks_per_bank_group
    * m.rows_per_bank
    * m.columns_per_row
    * channel_count m.topology

-- Dividing the line of a place gives back its fields.
linear_fields-line_of :
    (m : HbmAddressMapper) (h : HbmAddress) (a : ℕ)
    → IsMapper m
    → InTopology m h
    → a / m.interleave_bytes ≡ line_of m h
    → flatten m (linear_fields m a) ≡ h
unfolding linear_fields line_of flatten
linear_fields-line_of m h a v t e =
    let c = topology-Counts m.topology v.shape in
    let n = channel_count m.topology in
    let x1 = h.pseudo_channel * m.bank_groups_per_pseudo_channel + h.bank_group in
    let x2 = x1 * m.banks_per_bank_group + h.bank in
    let x3 = x2 * m.rows_per_bank + h.row in
    let x4 = x3 * m.columns_per_row + h.column in
    let dn = radix-div x4 h.flat_channel n t.channel_flat_lt in
    let mn = radix-mod x4 h.flat_channel n t.channel_flat_lt in
    let dc = radix-div x3 h.column m.columns_per_row t.column_lt in
    let mc = radix-mod x3 h.column m.columns_per_row t.column_lt in
    let dr = radix-div x2 h.row m.rows_per_bank t.row_lt in
    let mr = radix-mod x2 h.row m.rows_per_bank t.row_lt in
    let db = radix-div x1 h.bank m.banks_per_bank_group t.bank_lt in
    let mb = radix-mod x1 h.bank m.banks_per_bank_group t.bank_lt in
    let dg = radix-div h.pseudo_channel h.bank_group m.bank_groups_per_pseudo_channel t.group_lt in
    let mg = radix-mod h.pseudo_channel h.bank_group m.bank_groups_per_pseudo_channel t.group_lt in
    let mp = mod-eq_of_lt t.pseudo_lt in
    let ds : h.flat_channel / m.channels_per_stack ≡ h.stack =
      rw t.channel_flat (radix-div h.stack h.channel m.channels_per_stack t.channel_lt) in
    let ms : h.flat_channel % m.channels_per_stack ≡ h.channel =
      rw t.channel_flat (radix-mod h.stack h.channel m.channels_per_stack t.channel_lt) in
    let w = InTopology-IsWords m h v t in
    let fp : add32 (mul32 h.flat_channel m.pseudo_channels_per_channel) h.pseudo_channel
        ≡ h.flat_pseudo_channel =
      omega (arith, w, t.pseudo_flat) in
    let fg : add32 (mul32 h.flat_pseudo_channel m.bank_groups_per_pseudo_channel) h.bank_group
        ≡ h.flat_bank_group =
      omega (arith, w, t.group_flat) in
    let fb : add32 (mul32 h.flat_bank_group m.banks_per_bank_group) h.bank ≡ h.flat_bank =
      omega (arith, w, t.bank_flat) in
    rw (e, dn, mn, dc, mc, dr, mr, db, mb, dg, mg, mp)
      (rw
        (
          mod-eq_of_lt w.flat_channel_word,
          mod-eq_of_lt w.pseudo_word,
          mod-eq_of_lt w.group_word,
          mod-eq_of_lt w.bank_word,
          mod-eq_of_lt w.row_word,
          mod-eq_of_lt w.column_word,
          ds,
          ms,
          fp,
          fg,
          fb,
        )
        (ground (arith, t.sid_flat)))

-- Below the capacity, the fields of a line determine it.
line_of-linear_fields :
    (m : HbmAddressMapper) (a : ℕ)
    → IsMapper m
    → a / m.interleave_bytes < line_count m
    → line_of m (flatten m (linear_fields m a)) ≡ a / m.interleave_bytes
unfolding linear_fields line_of line_count flatten
line_of-linear_fields m a v h =
    let c = topology-Counts m.topology v.shape in
    let n = channel_count m.topology in
    let p = m.pseudo_channels_per_channel in
    let g = m.bank_groups_per_pseudo_channel in
    let b = m.banks_per_bank_group in
    let r = m.rows_per_bank in
    let q = m.columns_per_row in
    let l0 = a / m.interleave_bytes in
    let l1 = l0 / n in
    let l2 = l1 / q in
    let l3 = l2 / r in
    let l4 = l3 / b in
    let l5 = l4 / g in
    let h1 = div-lt l0 (p * g * b * r * q) n c.channels_pos h in
    let h2 = div-lt l1 (p * g * b * r) q v.columns_pos h1 in
    let h3 = div-lt l2 (p * g * b) r v.rows_pos h2 in
    let h4 = div-lt l3 (p * g) b v.shape.banks_pos h3 in
    let h5 = div-lt l4 p g v.shape.bank_groups_pos h4 in
    let d = dimensions-le m v in
    let w5 : l5 < 2 ^ 32 = omega (arith, d) in
    rw
      (
        mod-eq_of_lt h5,
        u32-mod l0 n c.channels_pos (omega (arith, c.channels_word)),
        u32-mod l1 q v.columns_pos (omega (arith, v.columns_word)),
        u32-mod l2 r v.rows_pos (omega (arith, v.rows_word)),
        u32-mod l3 b v.shape.banks_pos (omega (arith, d)),
        u32-mod l4 g v.shape.bank_groups_pos (omega (arith, d)),
        mod-eq_of_lt w5,
        div-add-mod' l4 g,
        div-add-mod' l3 b,
        div-add-mod' l2 r,
        div-add-mod' l1 q,
        div-add-mod' l0 n,
      )
      refl

-- On the lines of a device whose dimensions are not zero and fit their words the linear mapping is a
-- bijection: an address maps to a place of the topology exactly when its line is the one that the
-- place stands for.
pub map-iff-line_of :
    (m : HbmAddressMapper) (h : HbmAddress) (a : ℕ)
    → IsMapper m
    → m.mapping ≡ linear
    → InTopology m h
    → a / m.interleave_bytes < line_count m
    → (Mapping.map m a ≡ ok h) ↔ (a / m.interleave_bytes ≡ line_of m h)
map-iff-line_of m h a v k t below =
    let form = map_linear m a v k in
    (
      (λ e. sym (line_of-linear_fields m a v below) ∙ ap (line_of m) (ok-injective (sym form ∙ e))),
      (λ e. form ∙ ap ok (linear_fields-line_of m h a v t e)),
    )

pub next_mapping_boundary_lem :
    (m : HbmAddressMapper) (a d : ℕ)
    → IsMapper m
    → m.mapping ≡ linear
    → d < next_mapping_boundary m a
    → (0 < next_mapping_boundary m a)
      × (next_mapping_boundary m a ≤ m.interleave_bytes)
      × ((a + next_mapping_boundary m a) / m.interleave_bytes ≡ a / m.interleave_bytes + 1)
      × (Mapping.map m (a + d) ≡ Mapping.map m a)
unfolding next_mapping_boundary linear_fields
next_mapping_boundary_lem m a d v k l =
    let i = m.interleave_bytes in
    let b = i - a % i in
    let e : sub64 i (a % i) ≡ b = omega (arith, v) in
    let h = div-add-mod' a i in
    let l : d < b = rw e at l in
    rw e (
      omega (arith, v.interleave_pos),
      omega arith,
      div-eq_of_lt-le {k = a / i + 1} i (omega (arith, v.interleave_pos))
          (omega (arith, v.interleave_pos)),
      map_linear m (a + d) v k
          ∙ ap ok (rw (div-eq_of_lt-le {k = a / i} i {m = a + d} (omega arith) (omega arith)) refl)
          ∙ sym (map_linear m a v k),
    )
