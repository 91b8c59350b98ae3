-- ===== src/System/Splitting/Tiling.antt =====
-- The parts of a whole transaction: what `pump_admissions` of src/hbm_system.cpp admits, one after the other,
-- as long as the controllers have room.
use hbmsim.Prelude.{
  ℕ, zero, suc, ◌+◌, ◌-◌, ◌≤◌, ◌<◌, ◌≡◌, ◌∙◌, sym, subst, ok-injective, refl, arith, u64_max, add64,
  true, false, Option, none, some, Result, ok, err, ◌⊎◌, List, [], ◌∷◌, ℕ_discrete, ◌==◌,
}
use hbmsim.Mapping.{HbmAddress, HbmAddressMapper, IsMapper, linear}
use hbmsim.Mapping
use hbmsim.Mapping.Roundtrip.{map_linear}
use hbmsim.Controller.Access.{LogicalAccess}
use hbmsim.System.Transaction.{HbmTransaction}
use hbmsim.System.Splitting.{same_resource, next_access, max_group_bytes}
use hbmsim.System.Splitting.Coverage.{Holds, Covers, place, next_access-Covers}

-- A transaction that the system accepts, on a device whose burst and granularity it accepts.
pub record IsSplittable (m : HbmAddressMapper) (burst granularity : ℕ) (t : HbmTransaction)
    : Type 0 where
  pub mapper : IsMapper m
  pub is_linear : m.mapping ≡ linear
  pub burst_pos : 0 < burst
  pub burst_word : burst ≤ u64_max
  pub granularity_fits : (granularity ≡ 0) ⊎ (burst ≤ granularity)
  pub size_word : t.size_bytes ≤ u64_max
  pub end_word : t.address + t.size_bytes ≤ u64_max + 1

burst-le-max_group_bytes :
    (burst granularity : ℕ)
    → (granularity ≡ 0) ⊎ (burst ≤ granularity)
    → burst ≤ max_group_bytes granularity burst
burst-le-max_group_bytes burst granularity h = ground arith

Covers-part :
    (m : HbmAddressMapper) (burst granularity : ℕ) (t : HbmTransaction) (fuel offset : ℕ)
    → (s : IsSplittable m burst granularity t) → offset < t.size_bytes
    → t.size_bytes - offset < fuel
    → Covers m s.mapper s.is_linear burst
        (max_group_bytes granularity burst)
        s.burst_pos
        s.burst_word
        t
        (t.address + offset)
        (t.size_bytes - offset)
        (next_access fuel m burst granularity t offset)
Covers-part m burst granularity t fuel offset s o f =
    next_access-Covers m s.mapper s.is_linear burst (max_group_bytes granularity burst) s.burst_pos
      s.burst_word t granularity offset fuel refl
      (burst-le-max_group_bytes burst granularity s.granularity_fits) o s.size_word s.end_word f

-- A part of a transaction: what it asks for is asked for by the transaction.
abbrev pub IsPart : ℕ → ℕ → ℕ → HbmTransaction → ℕ → LogicalAccess → Type 0
IsPart burst granularity end t start g =
    (g.byte_address ≡ start)
    × (0 < g.size_bytes)
    × (start + g.size_bytes ≤ end)
    × (g.size_bytes ≤ max_group_bytes granularity burst)
    × (g.parent_id ≡ t.id)
    × (g.op ≡ t.op)

-- With more fuel than bytes remain, `next_access` ends without an exception and returns an access of the
-- transaction that begins at the offset, has at least one byte, does not reach beyond the transaction
-- and is no larger than a group.
pub next_access-IsPart :
    (m : HbmAddressMapper) (burst granularity : ℕ) (t : HbmTransaction) (fuel offset : ℕ)
    → IsSplittable m burst granularity t
    → offset < t.size_bytes
    → t.size_bytes - offset < fuel
    → (g : LogicalAccess) × (next_access fuel m burst granularity t offset ≡ some (ok (some g)))
      × IsPart burst granularity (t.address + t.size_bytes) t (t.address + offset) g
next_access-IsPart m burst granularity t fuel offset s o f =
    covered (next_access fuel m burst granularity t offset)
      (Covers-part m burst granularity t fuel offset s o f)
  where
    covered :
        (r : Option (Result (Option LogicalAccess)))
        → Covers m s.mapper s.is_linear burst
            (max_group_bytes granularity burst)
            s.burst_pos
            s.burst_word
            t
            (t.address + offset)
            (t.size_bytes - offset)
            r
        → (g : LogicalAccess) × (r ≡ some (ok (some g)))
          × IsPart burst granularity (t.address + t.size_bytes) t (t.address + offset) g
    covered none h = elim h [ ]
    covered (some (err thrown)) h = elim h [ ]
    covered (some (ok none)) h = elim h [ ]
    covered (some (ok (some g))) h =
        (g, refl, (h.starts, h.some_bytes, omega (arith, h.within), h.small, h.parent, h.same_op))

-- Under the linear mapping, for a device and a transaction whose sizes are in range and with more fuel
-- than bytes remain, all bytes of an access that `next_access` returns are at the access's bank and row.
pub next_access-same_resource :
    (m : HbmAddressMapper) (burst granularity : ℕ) (t : HbmTransaction) (fuel offset d : ℕ)
    (g : LogicalAccess) (h : HbmAddress)
    → IsSplittable m burst granularity t
    → offset < t.size_bytes
    → t.size_bytes - offset < fuel
    → next_access fuel m burst granularity t offset ≡ some (ok (some g))
    → d < g.size_bytes
    → Mapping.map m (t.address + offset + d) ≡ ok h
    → same_resource g.address h ≡ true
next_access-same_resource m burst granularity t fuel offset d g h s o f e l at =
    let c = Covers-part m burst granularity t fuel offset s o f in
    let held : Holds m s.mapper s.is_linear burst (max_group_bytes granularity burst) s.burst_pos
        s.burst_word t (t.address + offset) (t.size_bytes - offset) g =
      rw e at c in
    let same : place m s.mapper s.is_linear burst (max_group_bytes granularity burst) s.burst_pos
          s.burst_word t (t.address + offset + d)
        ≡ h =
      ok-injective (sym (map_linear m (t.address + offset + d) s.mapper s.is_linear) ∙ at) in
    subst (λ x. same_resource g.address x ≡ true) same (held.in_row d l)

abbrev prepend :
    LogicalAccess → Option (Result (List LogicalAccess)) → Option (Result (List LogicalAccess))
prepend g (some (ok gs)) = some (ok (g ∷ gs))
prepend g r = r

-- The loop of `pump_admissions` over one transaction, with room for every part.
unfoldable pub all_parts :
    ℕ → HbmAddressMapper → ℕ → ℕ → HbmTransaction → ℕ → Option (Result (List LogicalAccess))
all_parts zero m burst granularity t offset = none
all_parts (suc fuel) m burst granularity t offset = elim (offset == t.size_bytes) [
  | true ↦ some (ok [])
  | false ↦ elim (next_access (suc t.size_bytes) m burst granularity t offset) [
    | none ↦ none
    | some (err e) ↦ some (err e)
    | some (ok none) ↦ none
    | some (ok (some g)) ↦
        prepend g (all_parts fuel m burst granularity t (add64 offset g.size_bytes))
  ]
]

-- Parts that follow each other from `start` to `end` without a gap.
abbrev pub Tiles : ℕ → ℕ → HbmTransaction → ℕ → ℕ → List LogicalAccess → Type 0
Tiles burst granularity t end start [] = start ≡ end
Tiles burst granularity t end start (g ∷ gs) =
    IsPart burst granularity end t start g × Tiles burst granularity t end (start + g.size_bytes) gs

-- Under the linear mapping, for a device and a transaction whose sizes are in range and with more fuel
-- than bytes remain, a transaction falls into finitely many parts of at most a group each, at most one
-- for each byte, which follow each other from its first byte to its last without gap or overlap; no
-- exception is thrown on the way.
pub all_parts-Tiles :
    (m : HbmAddressMapper) (burst granularity : ℕ) (t : HbmTransaction) (fuel offset : ℕ)
    → IsSplittable m burst granularity t
    → offset ≤ t.size_bytes
    → t.size_bytes - offset < fuel
    → (gs : List LogicalAccess) × (all_parts fuel m burst granularity t offset ≡ some (ok gs))
      × Tiles burst granularity t (t.address + t.size_bytes) (t.address + offset) gs
unfolding all_parts
all_parts-Tiles m burst granularity t zero offset s o f = absurd (omega arith)
all_parts-Tiles m burst granularity t (suc fuel) offset s o f =
    elim (ℕ_discrete offset t.size_bytes) [
      | yes end ↦ ([], ground arith, omega arith)
      | no more ↦
          let o' : offset < t.size_bytes = omega arith in
          let p =
            next_access-IsPart m burst granularity t (suc t.size_bytes) offset s o' (omega arith) in
          let g = p.0 in
          let le : offset + g.size_bytes ≤ t.size_bytes = omega (arith, p.2.2) in
          let sum : add64 offset g.size_bytes ≡ offset + g.size_bytes =
            omega (arith, s.size_word) in
          let ih =
            all_parts-Tiles m burst granularity t fuel (offset + g.size_bytes) s le
              (omega (arith, p.2.1)) in
          let next : all_parts (suc fuel) m burst granularity t offset
              ≡ prepend g (all_parts fuel m burst granularity t (offset + g.size_bytes)) =
            rw (← sum) (ground (arith, p.1)) in
          (
            g ∷ ih.0,
            rw (next, ih.1) refl,
            (
              p.2,
              subst (λ x. Tiles burst granularity t (t.address + t.size_bytes) x ih.0) (omega arith)
                  ih.2,
            ),
          )
    ]
