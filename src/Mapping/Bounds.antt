-- ===== src/Mapping/Bounds.antt =====
-- Every address of a linear mapping lies inside the topology, and nothing wraps.
use hbmsim.Prelude.{
  ℕ, ◌+◌, ◌*◌, ◌<◌, ◌^◌, ◌≡◌, refl, arith, add32, mul32, radix-lt, le-mul_pos, le-mul_left, mul_pos,
}
use hbmsim.Topology.{HbmTopology, channel_count, IsTopology}
use hbmsim.Mapping.{HbmAddress, HbmAddressMapper, flatten, bank_count, IsMapper}

-- The partial products of the dimensions are words too.
pub record Counts (t : HbmTopology) : Type 0 where
  pub channels : channel_count t ≡ t.stacks * t.channels_per_stack
  pub channels_pos : 0 < channel_count t
  pub channels_word : channel_count t < 2 ^ 32
  pub pseudo_word : channel_count t * t.pseudo_channels_per_channel < 2 ^ 32
  pub groups_word :
      channel_count t * t.pseudo_channels_per_channel * t.bank_groups_per_pseudo_channel < 2 ^ 32
  pub banks_word :
      channel_count t
        * t.pseudo_channels_per_channel
        * t.bank_groups_per_pseudo_channel
        * t.banks_per_bank_group
      < 2 ^ 32

pub topology-Counts : (t : HbmTopology) → IsTopology t → Counts t
unfolding channel_count
topology-Counts t v =
    let c : ℕ = t.stacks * t.channels_per_stack in
    let p : ℕ = c * t.pseudo_channels_per_channel in
    let g : ℕ = p * t.bank_groups_per_pseudo_channel in
    let hg = le-mul_pos g t.banks_per_bank_group v.banks_pos in
    let hp = le-mul_pos p t.bank_groups_per_pseudo_channel v.bank_groups_pos in
    let hc = le-mul_pos c t.pseudo_channels_per_channel v.pseudo_channels_pos in
    let hs = le-mul_pos t.stacks t.channels_per_stack v.channels_pos in
    let e : channel_count t ≡ t.stacks * t.channels_per_stack = omega (arith, v.banks_word) in
    record {
      channels = e;
      channels_pos = rw e (omega (arith, v.stacks_pos));
      channels_word = rw e (omega (arith, v.banks_word));
      pseudo_word = rw e (omega (arith, v.banks_word));
      groups_word = rw e (omega (arith, v.banks_word));
      banks_word = rw e v.banks_word;
    }

-- The fields of an address lie inside the mapper's dimensions, and each flat index is the mixed-radix
-- number of the fields above it.
pub record InTopology (m : HbmAddressMapper) (h : HbmAddress) : Type 0 where
  pub stack_lt : h.stack < m.stacks
  pub channel_lt : h.channel < m.channels_per_stack
  pub pseudo_lt : h.pseudo_channel < m.pseudo_channels_per_channel
  pub group_lt : h.bank_group < m.bank_groups_per_pseudo_channel
  pub bank_lt : h.bank < m.banks_per_bank_group
  pub row_lt : h.row < m.rows_per_bank
  pub column_lt : h.column < m.columns_per_row
  pub channel_flat : h.flat_channel ≡ h.stack * m.channels_per_stack + h.channel
  pub sid_flat : h.flat_sid ≡ h.stack
  pub pseudo_flat :
      h.flat_pseudo_channel ≡ h.flat_channel * m.pseudo_channels_per_channel + h.pseudo_channel
  pub group_flat :
      h.flat_bank_group ≡ h.flat_pseudo_channel * m.bank_groups_per_pseudo_channel + h.bank_group
  pub bank_flat : h.flat_bank ≡ h.flat_bank_group * m.banks_per_bank_group + h.bank
  pub channel_flat_lt : h.flat_channel < channel_count m.topology
  pub bank_flat_lt : h.flat_bank < bank_count m

pub bank_count-eq :
    (m : HbmAddressMapper)
    → Counts m.topology
    → bank_count m
      ≡ channel_count m.topology
        * m.pseudo_channels_per_channel
        * m.bank_groups_per_pseudo_channel
        * m.banks_per_bank_group
unfolding bank_count
bank_count-eq m c =
    let n = channel_count m.topology in
    let p = m.pseudo_channels_per_channel in
    let g = m.bank_groups_per_pseudo_channel in
    let ep : mul32 n p ≡ n * p = omega (arith, c.pseudo_word) in
    let eg : mul32 (n * p) g ≡ n * p * g = omega (arith, c.groups_word) in
    rw (ep, eg) (omega (arith, c.banks_word))

pub flatten-InTopology :
    (m : HbmAddressMapper) (h : HbmAddress)
    → IsMapper m
    → h.stack < m.stacks
    → h.channel < m.channels_per_stack
    → h.pseudo_channel < m.pseudo_channels_per_channel
    → h.bank_group < m.bank_groups_per_pseudo_channel
    → h.bank < m.banks_per_bank_group
    → h.row < m.rows_per_bank
    → h.column < m.columns_per_row
    → h.flat_channel ≡ h.stack * m.channels_per_stack + h.channel
    → InTopology m (flatten m h)
unfolding flatten
flatten-InTopology m h v h1 h2 h3 h4 h5 h6 h7 h8 =
    let t = m.topology in
    let c = topology-Counts t v.shape in
    let n = channel_count t in
    let p = m.pseudo_channels_per_channel in
    let g = m.bank_groups_per_pseudo_channel in
    let b = m.banks_per_bank_group in
    let fc : h.flat_channel < n =
      omega (arith, c.channels, radix-lt h.stack h.channel m.stacks m.channels_per_stack h1 h2) in
    let fp = radix-lt h.flat_channel h.pseudo_channel n p fc h3 in
    let ep : add32 (mul32 h.flat_channel p) h.pseudo_channel
        ≡ h.flat_channel * p + h.pseudo_channel =
      omega (arith, c.pseudo_word) in
    let fg = radix-lt (h.flat_channel * p + h.pseudo_channel) h.bank_group (n * p) g fp h4 in
    let eg : add32 (mul32 (h.flat_channel * p + h.pseudo_channel) g) h.bank_group
        ≡ (h.flat_channel * p + h.pseudo_channel) * g + h.bank_group =
      omega (arith, c.groups_word) in
    let fb =
      radix-lt ((h.flat_channel * p + h.pseudo_channel) * g + h.bank_group) h.bank (n * p * g) b fg
        h5 in
    let eb : add32 (mul32 ((h.flat_channel * p + h.pseudo_channel) * g + h.bank_group) b) h.bank
        ≡ ((h.flat_channel * p + h.pseudo_channel) * g + h.bank_group) * b + h.bank =
      omega (arith, c.banks_word) in
    record {
      stack_lt = h1;
      channel_lt = h2;
      pseudo_lt = h3;
      group_lt = h4;
      bank_lt = h5;
      row_lt = h6;
      column_lt = h7;
      channel_flat = h8;
      sid_flat = refl;
      pseudo_flat = ep;
      group_flat = rw ep eg;
      bank_flat = rw (ep, eg) eb;
      channel_flat_lt = fc;
      bank_flat_lt = rw (ep, eg, eb, bank_count-eq m c) fb;
    }

-- Every field of such an address is a 32-bit word.
pub record IsWords (h : HbmAddress) : Type 0 where
  pub row_word : h.row < 2 ^ 32
  pub column_word : h.column < 2 ^ 32
  pub bank_word : h.bank < 2 ^ 32
  pub group_word : h.bank_group < 2 ^ 32
  pub pseudo_word : h.pseudo_channel < 2 ^ 32
  pub flat_channel_word : h.flat_channel < 2 ^ 32
  pub flat_pseudo_word : h.flat_pseudo_channel < 2 ^ 32
  pub flat_group_word : h.flat_bank_group < 2 ^ 32
  pub flat_bank_word : h.flat_bank < 2 ^ 32

pub InTopology-IsWords :
    (m : HbmAddressMapper) (h : HbmAddress) → IsMapper m → InTopology m h → IsWords h
InTopology-IsWords m h v t =
    let c = topology-Counts m.topology v.shape in
    let count = bank_count-eq m c in
    let g = le-mul_pos h.flat_bank_group m.banks_per_bank_group v.shape.banks_pos in
    let p =
      le-mul_pos h.flat_pseudo_channel m.bank_groups_per_pseudo_channel v.shape.bank_groups_pos in
    let fb : h.flat_bank < 2 ^ 32 = omega (arith, c.banks_word) in omega (arith, c.channels_word)

-- Each dimension is a word.
pub dimensions-le :
    (m : HbmAddressMapper)
    → IsMapper m
    → (m.pseudo_channels_per_channel < 2 ^ 32)
      × (m.bank_groups_per_pseudo_channel < 2 ^ 32)
      × (m.banks_per_bank_group < 2 ^ 32)
dimensions-le m v =
    let c = topology-Counts m.topology v.shape in
    let n = channel_count m.topology in
    let p = m.pseudo_channels_per_channel in
    let g = m.bank_groups_per_pseudo_channel in
    let b = m.banks_per_bank_group in
    let hp = le-mul_left n p c.channels_pos in
    let np = mul_pos n p c.channels_pos v.shape.pseudo_channels_pos in
    let hg = le-mul_left (n * p) g np in
    let ng = mul_pos (n * p) g np v.shape.bank_groups_pos in
    let hb = le-mul_left (n * p * g) b ng in omega (arith, c)
