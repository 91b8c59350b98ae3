-- ===== src/System/Splitting.antt =====
-- `HbmSystem::next_access` of src/hbm_system.cpp: the next part of a transaction that one access carries.
-- The parts of the system that it reads are arguments: the mapper, the size of a burst and the size of a
-- group. The loop takes fuel; a transaction of n bytes takes n rounds at most.
pub mod Coverage
pub mod Rounds
pub mod Tiling
use hbmsim.Prelude.{
  ℕ, zero, suc, ◌+◌, ◌-◌, ◌%◌, min, Bool, true, false, ◌&&◌, ◌||◌, Option, none, some, Result, ok,
  err, overflow_error, if◌then◌else◌, ltb, leb, ◌==◌, u64_max, add32, add64, sub64, ◌>>=◌,
}
use hbmsim.Mapping.{HbmAddress, HbmAddressMapper, zero_address, next_mapping_boundary}
use hbmsim.Mapping
use hbmsim.Controller.Access.{LogicalAccess, HbmAccess, new_access}
use hbmsim.System.Transaction.{HbmTransaction}

-- `same_resource`
unfoldable pub same_resource : HbmAddress → HbmAddress → Bool
same_resource left right =
    left.flat_channel == right.flat_channel
    && left.pseudo_channel == right.pseudo_channel
    && left.bank_group == right.bank_group
    && left.bank == right.bank
    && left.row == right.row

-- `std::min({remaining, burst_boundary, mapping_boundary})`
unfoldable pub chunk : HbmAddressMapper → ℕ → ℕ → ℕ → ℕ
unfolding next_mapping_boundary
chunk m burst address remaining =
    min remaining (min (sub64 burst (address % burst)) (next_mapping_boundary m address))

-- The group with another chunk, or `none` where the loop breaks off.
unfoldable pub extend :
    HbmTransaction
    → ℕ
    → Option LogicalAccess
    → HbmAddress
    → ℕ
    → HbmAddress
    → ℕ
    → Option LogicalAccess
unfolding same_resource
extend t max_group none previous address mapped bytes = some (record {
  parent_id = t.id;
  op = t.op;
  address = mapped;
  size_bytes = bytes;
  arrival_time = t.arrival_time;
  client = t.client;
  sequence = 0;
  metadata = t.metadata;
  byte_address = address;
})
extend t max_group (some group) previous address mapped bytes =
    if leb (add64 group.size_bytes bytes) max_group
      && same_resource group.address mapped
      && (mapped.column == previous.column || mapped.column == add32 previous.column 1)
    then some (record group { size_bytes = add64 group.size_bytes bytes })
    else none

-- The address of the next round, if there is one.
unfoldable pub advance : ℕ → ℕ → ℕ → Result ℕ
advance address bytes remaining =
    if remaining == 0
    then ok address
    else if ltb (sub64 u64_max bytes) address
    then err overflow_error
    else ok (add64 address bytes)

unfoldable pub grow :
    ℕ
    → HbmAddressMapper
    → ℕ
    → ℕ
    → HbmTransaction
    → Option LogicalAccess
    → HbmAddress
    → ℕ
    → ℕ
    → Option (Result (Option LogicalAccess))
unfolding chunk extend advance
grow zero m burst max_group t group previous address remaining = none
grow (suc fuel) m burst max_group t group previous address remaining = elim (remaining == 0) [
  | true ↦ some (ok group)
  | false ↦ elim (Mapping.map m address) [
    | err e ↦ some (err e)
    | ok mapped ↦
        elim (extend t max_group group previous address mapped (chunk m burst address remaining)) [
          | none ↦ some (ok group)
          | some larger ↦
              elim (advance address (chunk m burst address remaining)
                (sub64 remaining (chunk m burst address remaining))) [
                  | err e ↦ some (err e)
                  | ok next ↦
                      grow fuel m burst max_group t (some larger) mapped next
                        (sub64 remaining (chunk m burst address remaining))
                ]
        ]
  ]
]

-- `max_group_bytes`
abbrev pub max_group_bytes : ℕ → ℕ → ℕ
max_group_bytes granularity burst = if granularity == 0 then burst else granularity

-- The last `none` is the missing group of an empty remainder, which the source would read all the same.
unfoldable pub next_access :
    ℕ → HbmAddressMapper → ℕ → ℕ → HbmTransaction → ℕ → Option (Result (Option LogicalAccess))
unfolding grow
next_access fuel m burst granularity t offset =
    grow fuel m burst (max_group_bytes granularity burst) t none zero_address
      (add64 t.address offset) (sub64 t.size_bytes offset)
