-- ===== src/System/Splitting/Rounds.antt =====
-- One round of the loop.
use native.Mathlib.Nat.{mod-lt}
use hbmsim.Prelude.{
  ℕ, ◌+◌, ◌-◌, ◌%◌, ◌≤◌, ◌<◌, ◌≡◌, arith, u64_max, sub64, ok, ◌⊎◌, inl, inr, refl, dec_lt,
}
use hbmsim.Mapping.{HbmAddressMapper, next_mapping_boundary, IsMapper}
use hbmsim.System.Splitting.{chunk, advance}

-- What is left of the block of `d` bytes that holds an address.
sub64-rest :
    (d address : ℕ)
    → 0 < d
    → d ≤ u64_max
    → (sub64 d (address % d) ≡ d - address % d) × (0 < d - address % d)
sub64-rest d address p w = let h = mod-lt address {m = d} p in (omega (arith, h), omega (arith, h))

boundary_pos :
    (m : HbmAddressMapper) (address : ℕ) → IsMapper m → 0 < next_mapping_boundary m address
unfolding next_mapping_boundary
boundary_pos m address v =
    let e = sub64-rest m.interleave_bytes address v.interleave_pos v.interleave_word in rw e.0 e.1

-- A chunk is not empty, and no larger than what remains, than a burst and than the mapping boundary.
pub chunk_lem :
    (m : HbmAddressMapper) (burst address remaining : ℕ)
    → IsMapper m
    → 0 < burst
    → burst ≤ u64_max
    → 0 < remaining
    → (0 < chunk m burst address remaining)
      × (chunk m burst address remaining ≤ remaining)
      × (chunk m burst address remaining ≤ burst)
      × (chunk m burst address remaining ≤ next_mapping_boundary m address)
unfolding chunk
chunk_lem m burst address remaining v b w r =
    let e1 = sub64-rest burst address b w in
    let e2 = boundary_pos m address v in
    rw e1.0 (omega (arith, e1.1, e2), omega arith, omega arith, omega arith)

-- Where the next round begins: the end of the chunk, if that is an address.
pub advance_lem :
    (address bytes remaining : ℕ)
    → bytes ≤ remaining
    → 0 < bytes
    → address + remaining ≤ u64_max + 1
    → (next : ℕ) × (advance address bytes (sub64 remaining bytes) ≡ ok next)
      × (sub64 remaining bytes ≡ remaining - bytes)
      × ((remaining - bytes ≡ 0) ⊎ (next ≡ address + bytes))
      × (next + (remaining - bytes) ≤ u64_max + 1)
unfolding advance
advance_lem address bytes remaining le pos fits = elim (dec_lt bytes remaining) [
  | yes more ↦
      let e : sub64 remaining bytes ≡ remaining - bytes = omega arith in
      (address + bytes, ground arith, e, inr refl, omega arith)
  | no last ↦
      let e : sub64 remaining bytes ≡ remaining - bytes = omega arith in
      (address, ground arith, e, inl (omega arith), omega arith)
]
