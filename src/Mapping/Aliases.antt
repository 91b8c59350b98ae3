-- ===== src/Mapping/Aliases.antt =====
-- What the HBM2 bit layout of `map` leaves out: bit 10, which no field reads, and the bits from 30 on.
use hbmsim.Prelude.{ℕ, ◌+◌, ◌*◌, ◌^◌, ◌<◌, ◌≡◌, arith}
use hbmsim.Mapping.{HbmAddressMapper, brc_fields, hbm2_pseudo_channel_brc, fields}
use hbmsim.Mapping

-- Under the HBM2 layout, in any topology, addresses below 2^30 that differ in bit 10 alone map alike, and
-- so do an address and its sum with a multiple of 2^30.
pub map_alias :
    (m : HbmAddressMapper) (hi bit lo k : ℕ)
    → m.mapping ≡ hbm2_pseudo_channel_brc
    → lo < 2 ^ 10
    → bit < 2
    → hi < 2 ^ 19
    → Mapping.map m (k * 2 ^ 30 + hi * 2 ^ 11 + bit * 2 ^ 10 + lo)
      ≡ Mapping.map m (hi * 2 ^ 11 + lo)
unfolding Mapping.map brc_fields
map_alias m hi bit lo k e hl hb hh = ground arith
