-- ===== src/Examples/Splitting.antt =====
-- A transaction of five bursts and a bit, split into accesses of at most 64 bytes.
use hbmsim.Prelude.{ℕ, ◌≡◌, refl, ok, arith, true, some, List, [], ◌∷◌, Result, Option, map, inr}
use hbmsim.Types.{HbmOp}
use hbmsim.Mapping
use hbmsim.Mapping.{
  HbmAddress, HbmAddressMapper, zero_address, flatten, linear_fields, next_mapping_boundary,
}
use hbmsim.Controller.Access.{LogicalAccess, demand}
use hbmsim.System.Transaction.{HbmTransaction}
use hbmsim.System.Splitting.{next_access, grow, chunk, extend, advance, same_resource}
use hbmsim.System.Splitting.Tiling.{
  IsSplittable, IsPart, all_parts, Tiles, next_access-IsPart, next_access-same_resource,
  all_parts-Tiles,
}
use hbmsim.Examples.Devices.{two_channels}

-- Two bursts in each line of the device.
abbrev wide : HbmAddressMapper
wide = record two_channels { interleave_bytes = 64 }

abbrev pub long_read : HbmTransaction
long_read = record {
  id = 7;
  op = HbmOp.read;
  address = 80;
  size_bytes = 170;
  arrival_time = 0;
  client = 0;
  metadata = record { traffic_class = demand; priority = 0; opaque_tag = 0; ordering_domain = 0 };
}

long_read-IsSplittable : IsSplittable wide 32 64 long_read
long_read-IsSplittable = record {
  mapper = omega arith;
  is_linear = refl;
  burst_pos = omega arith;
  burst_word = omega arith;
  granularity_fits = inr (omega arith);
  size_word = omega arith;
  end_word = omega arith;
}

abbrev first_part : LogicalAccess
first_part = record {
  parent_id = 7;
  op = HbmOp.read;
  address = record zero_address {
    channel = 1;
    flat_channel = 1;
    flat_pseudo_channel = 2;
    flat_bank_group = 8;
    flat_bank = 32;
  };
  size_bytes = 48;
  arrival_time = 0;
  client = 0;
  sequence = 0;
  metadata = long_read.metadata;
  byte_address = 80;
}

abbrev later_byte : HbmAddress
later_byte = first_part.address

sizes : Option (Result (List LogicalAccess)) → List ℕ
sizes (some (ok gs)) = map (λ (g : LogicalAccess). g.size_bytes) gs
sizes _ = []

all_parts_test : sizes (all_parts 200 wide 32 64 long_read 0) ≡ 48 ∷ 64 ∷ 58 ∷ []
unfolding sizes all_parts next_access grow chunk extend advance same_resource Mapping.map
    linear_fields flatten next_mapping_boundary
all_parts_test = refl

first_part_test : next_access 200 wide 32 64 long_read 0 ≡ some (ok (some first_part))
unfolding next_access grow chunk extend advance same_resource Mapping.map linear_fields flatten
    next_mapping_boundary
first_part_test = refl

later_byte_test : Mapping.map wide 120 ≡ ok later_byte
unfolding Mapping.map linear_fields flatten
later_byte_test = refl

all_parts-Tiles_example :
    (gs : List LogicalAccess) × (all_parts 200 wide 32 64 long_read 0 ≡ some (ok gs))
    × Tiles 32 64 long_read 250 80 gs
all_parts-Tiles_example =
    all_parts-Tiles wide 32 64 long_read 200 0 long_read-IsSplittable (omega arith) (omega arith)

next_access-IsPart_example :
    (g : LogicalAccess) × (next_access 200 wide 32 64 long_read 48 ≡ some (ok (some g)))
    × IsPart 32 64 250 long_read 128 g
next_access-IsPart_example =
    next_access-IsPart wide 32 64 long_read 200 48 long_read-IsSplittable (omega arith)
      (omega arith)

next_access-same_resource_example : same_resource first_part.address later_byte ≡ true
next_access-same_resource_example =
    next_access-same_resource wide 32 64 long_read 200 0 40 first_part later_byte
      long_read-IsSplittable (omega arith) (omega arith) first_part_test (omega arith)
      later_byte_test
