-- ===== src/Examples/Devices.antt =====
-- The transport rate and the address mapper at the profiles of the program.
use hbmsim.Prelude.{
  ℕ, ◌+◌, ◌-◌, ◌*◌, ◌≤◌, ◌<◌, ◌^◌, ◌≡◌, ◌⊎◌, ◌↔◌, refl, ok, err, overflow_error, arith, u64_max,
}
use hbmsim.Bandwidth.{BandwidthRate, transfer_time}
use hbmsim.Bandwidth.Rounding.{ceil_time, transfer_time-exact}
use hbmsim.Topology.{channel_count}
use hbmsim.Mapping
use hbmsim.Mapping.{
  HbmAddress, HbmAddressMapper, linear, hbm2_pseudo_channel_brc, brc_fields, linear_fields, flatten,
  bank_address, bank_count, IsMapper,
}
use hbmsim.Mapping.Bounds.{InTopology}
use hbmsim.Mapping.Roundtrip.{map-InTopology, bank_address-flat_bank}
use hbmsim.Mapping.Lines.{line_of, line_count, map-iff-line_of}
use hbmsim.Mapping.Aliases.{map_alias}

abbrev hbm3_rate : BandwidthRate
hbm3_rate = record { bytes = 32; interval = 1_250 }

transfer_time_test : transfer_time hbm3_rate 33 ≡ ok 1_290
unfolding transfer_time
transfer_time_test = refl

transfer_time-exact_example :
    ((33 * 1_250 + 32 - 1 ≤ u64_max)
      × (transfer_time hbm3_rate 33 ≡ ok (ceil_time hbm3_rate 33))
      × (33 * 1_250 ≤ ceil_time hbm3_rate 33 * 32)
      × (ceil_time hbm3_rate 33 * 32 < 33 * 1_250 + 32))
    ⊎ ((u64_max < 33 * 1_250 + 32 - 1) × (transfer_time hbm3_rate 33 ≡ err overflow_error))
transfer_time-exact_example = transfer_time-exact hbm3_rate 33 (omega arith)

abbrev pub two_channels : HbmAddressMapper
two_channels = record {
  topology = record {
    stacks = 1;
    channels_per_stack = 2;
    pseudo_channels_per_channel = 2;
    bank_groups_per_pseudo_channel = 4;
    banks_per_bank_group = 4;
  };
  interleave_bytes = 32;
  columns_per_row = 32;
  rows_per_bank = 16_384;
  mapping = linear;
}

abbrev brc : HbmAddressMapper
brc = record two_channels { mapping = hbm2_pseudo_channel_brc }

pub two_channels-IsMapper : IsMapper two_channels
two_channels-IsMapper = omega arith

brc-IsMapper : IsMapper brc
brc-IsMapper = omega arith

-- Line 2 * (32 * (16384 * 5 + 3) + 7) + 1 of the device.
abbrev place : HbmAddress
place = record {
  stack = 0;
  channel = 1;
  pseudo_channel = 0;
  bank_group = 1;
  bank = 1;
  row = 3;
  column = 7;
  flat_channel = 1;
  flat_sid = 0;
  flat_pseudo_channel = 2;
  flat_bank_group = 9;
  flat_bank = 37;
}

place_address : ℕ
place_address = (2 * (32 * (16_384 * 5 + 3) + 7) + 1) * 32 + 5

map_test : Mapping.map two_channels place_address ≡ ok place
unfolding Mapping.map linear_fields flatten place_address
map_test = refl

place-InTopology : InTopology two_channels place
place-InTopology = map-InTopology two_channels place_address place two_channels-IsMapper map_test

map-InTopology_example : InTopology two_channels place
map-InTopology_example =
    map-InTopology two_channels place_address place two_channels-IsMapper map_test

bank_address-flat_bank_example :
    bank_address two_channels 37 ≡ ok (record place { row = 0; column = 0 })
bank_address-flat_bank_example = bank_address-flat_bank two_channels place place-InTopology

map-iff-line_of_example :
    (Mapping.map two_channels (5_243_343 * 32) ≡ ok place)
    ↔ (5_243_343 ≡ line_of two_channels place)
unfolding line_count channel_count
map-iff-line_of_example =
    map-iff-line_of two_channels place (5_243_343 * 32) two_channels-IsMapper refl place-InTopology
      (omega arith)

map_alias_example :
    Mapping.map brc (1 * 2 ^ 30 + 3 * 2 ^ 11 + 1 * 2 ^ 10 + 64) ≡ Mapping.map brc (3 * 2 ^ 11 + 64)
map_alias_example = map_alias brc 3 1 64 1 refl (omega arith) (omega arith) (omega arith)
