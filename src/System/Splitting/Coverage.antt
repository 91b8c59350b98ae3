-- ===== src/System/Splitting/Coverage.antt =====
-- What one call of `next_access` covers, under the linear mapping.
use hbmsim.Prelude.{
  ℕ, zero, suc, ◌+◌, ◌-◌, ◌≤◌, ◌<◌, ◌≡◌, ◌∙◌, sym, ap, subst, ok-injective, refl, arith, u64_max,
  add64, sub64, true, Option, some, Result, ok, ◌⊎◌, inl, inr, Option-cases, ℕ_discrete, dec_lt,
}
use hbmsim.Mapping.{HbmAddress, HbmAddressMapper, IsMapper, linear, linear_fields, flatten}
use hbmsim.Mapping.Roundtrip.{map_linear}
use hbmsim.Mapping.Lines.{next_mapping_boundary_lem}
use hbmsim.Controller.Access.{LogicalAccess}
use hbmsim.System.Transaction.{HbmTransaction}
use hbmsim.System.Splitting.{same_resource, chunk, extend, grow, next_access, max_group_bytes}
use hbmsim.System.Splitting.Rounds.{chunk_lem, advance_lem}

extend_lem :
    (t : HbmTransaction) (max : ℕ) (g l : LogicalAccess) (previous : HbmAddress) (address : ℕ)
    (mapped : HbmAddress) (bytes : ℕ)
    → g.size_bytes + bytes ≤ u64_max
    → extend t max (some g) previous address mapped bytes ≡ some l
    → (l ≡ record g { size_bytes = g.size_bytes + bytes })
      × (g.size_bytes + bytes ≤ max)
      × (same_resource g.address mapped ≡ true)
unfolding extend
extend_lem t max g l previous address mapped bytes w e = ground arith

same_resource_refl : (a : HbmAddress) → same_resource a a ≡ true
unfolding same_resource
same_resource_refl a = ground arith

module _ (m : HbmAddressMapper) (v : IsMapper m) (k : m.mapping ≡ linear) (burst max : ℕ)
    (burst_pos : 0 < burst) (burst_word : burst ≤ u64_max) (t : HbmTransaction) where
  abbrev pub place : ℕ → HbmAddress
  place a = flatten m (linear_fields m a)

  place-chunk :
      (address remaining d : ℕ)
      → 0 < remaining
      → d < chunk m burst address remaining
      → place (address + d) ≡ place address
  place-chunk address remaining d r l =
      let c = chunk_lem m burst address remaining v burst_pos burst_word r in
      let b = next_mapping_boundary_lem m address d v k (omega (arith, c.3)) in
      ok-injective (sym (map_linear m (address + d) v k) ∙ b.3 ∙ map_linear m address v k)

  -- The bytes from `start` on that a group has so far, all in one row.
  pub record Holds (start total : ℕ) (g : LogicalAccess) : Type 0 where
    pub starts : g.byte_address ≡ start
    pub some_bytes : 0 < g.size_bytes
    pub within : g.size_bytes ≤ total
    pub small : g.size_bytes ≤ max
    pub in_row : (d : ℕ) → d < g.size_bytes → same_resource g.address (place (start + d)) ≡ true
    pub parent : g.parent_id ≡ t.id
    pub same_op : g.op ≡ t.op

  Holds-extend :
      (g l : LogicalAccess) (address remaining start total : ℕ)
      → Holds start total g
      → 0 < remaining
      → g.size_bytes + remaining ≡ total
      → address ≡ start + g.size_bytes
      → l ≡ record g { size_bytes = g.size_bytes + chunk m burst address remaining }
      → g.size_bytes + chunk m burst address remaining ≤ max
      → same_resource g.address (place address) ≡ true
      → Holds start total l
  Holds-extend g l address remaining start total h r e at same fits row =
      let c = chunk_lem m burst address remaining v burst_pos burst_word r in
      rw same (record {
        starts = h.starts;
        some_bytes = omega (arith, h.some_bytes);
        within = omega (arith, c.1);
        small = fits;
        in_row = λ d l. elim (dec_lt d g.size_bytes) [
          | yes old ↦ h.in_row d old
          | no new ↦
              let f : start + d ≡ address + (d - g.size_bytes) = omega arith in
              rw (f, place-chunk address remaining (d - g.size_bytes) r (omega arith)) row
        ];
        parent = h.parent;
        same_op = h.same_op;
      })

  abbrev pub Covers : ℕ → ℕ → Option (Result (Option LogicalAccess)) → Type 0
  Covers start total (some (ok (some g))) = Holds start total g
  Covers start total _ = ⊥

  grow-Covers :
      (fuel : ℕ) (g : LogicalAccess) (previous : HbmAddress) (address remaining start total : ℕ)
      → remaining < fuel
      → Holds start total g
      → g.size_bytes + remaining ≡ total
      → start + total ≤ u64_max + 1
      → total ≤ u64_max
      → (remaining ≡ 0) ⊎ (address ≡ start + g.size_bytes)
      → Covers start total (grow fuel m burst max t (some g) previous address remaining)
  unfolding grow
  grow-Covers zero g previous address remaining start total l h e w x at = absurd (omega arith)
  grow-Covers (suc fuel) g previous address remaining start total l h e w x at =
      elim (ℕ_discrete remaining 0) [
        | yes z ↦
            let stop : grow (suc fuel) m burst max t (some g) previous address remaining
                ≡ some (ok (some g)) =
              ground arith in
            subst (Covers start total) (sym stop) h
        | no more ↦
            let form = map_linear m address v k in
            let bytes = chunk m burst address remaining in
            elim (Option-cases (extend t max (some g) previous address (place address) bytes)) [
              | inl full ↦
                  let stop : grow (suc fuel) m burst max t (some g) previous address remaining
                      ≡ some (ok (some g)) =
                    ground arith in
                  subst (Covers start total) (sym stop) h
              | inr (larger, e') ↦
                  let r : 0 < remaining = omega arith in
                  let c = chunk_lem m burst address remaining v burst_pos burst_word r in
                  let at' : address ≡ start + g.size_bytes = ground arith in
                  let a = advance_lem address bytes remaining c.1 c.0 (omega arith) in
                  let y =
                    extend_lem t max g larger previous address (place address) bytes
                      (omega (arith, c.1, e, x)) e' in
                  let next : grow (suc fuel) m burst max t (some g) previous address remaining
                      ≡ grow fuel m burst max t (some larger) (place address) a.0
                          (sub64 remaining bytes) =
                    ground (arith, form, a.1) in
                  let held =
                    Holds-extend g larger address remaining start total h r e at' y.0 y.1 y.2 in
                  let size : larger.size_bytes ≡ g.size_bytes + bytes =
                    ap (λ (z : LogicalAccess). z.size_bytes) y.0 in
                  subst (Covers start total) (sym next) (
                    grow-Covers fuel larger (place address) a.0 (sub64 remaining bytes) start total
                      (omega (arith, a.2, c.0)) held (omega (arith, a.2, c.1, size)) w x
                      (ground (arith, a.2, a.3, size, c.1, at')))
            ]
      ]

  -- The first round makes a group of its own.
  pub next_access-Covers :
      (granularity offset fuel : ℕ)
      → max ≡ max_group_bytes granularity burst
      → burst ≤ max
      → offset < t.size_bytes
      → t.size_bytes ≤ u64_max
      → t.address + t.size_bytes ≤ u64_max + 1
      → t.size_bytes - offset < fuel
      → Covers
          (t.address + offset)
          (t.size_bytes - offset)
          (next_access fuel m burst granularity t offset)
  unfolding next_access grow extend
  next_access-Covers granularity offset zero g b o w fits l = absurd (omega arith)
  next_access-Covers granularity offset (suc fuel) g b o w fits l =
      let start = t.address + offset in
      let total = t.size_bytes - offset in
      let r : 0 < total = omega arith in
      let form = map_linear m start v k in
      let bytes = chunk m burst start total in
      let c = chunk_lem m burst start total v burst_pos burst_word r in
      let a = advance_lem start bytes total c.1 c.0 (omega arith) in
      let first : LogicalAccess = record {
        parent_id = t.id;
        op = t.op;
        address = place start;
        size_bytes = bytes;
        arrival_time = t.arrival_time;
        client = t.client;
        sequence = 0;
        metadata = t.metadata;
        byte_address = start;
      } in
      let s1 : add64 t.address offset ≡ start = omega arith in
      let s2 : sub64 t.size_bytes offset ≡ total = omega arith in
      let next : next_access (suc fuel) m burst granularity t offset
          ≡ grow fuel m burst max t (some first) (place start) a.0 (sub64 total bytes) =
        rw (s1, s2, g) (ground (arith, form, a.1)) in
      subst (Covers start total) (sym next) (
        grow-Covers fuel first (place start) a.0 (sub64 total bytes) start total
          (omega (arith, a.2, c.0))
          (record {
            starts = refl;
            some_bytes = c.0;
            within = c.1;
            small = omega (arith, c.2);
            in_row = λ d l. rw (place-chunk start total d r l) (same_resource_refl (place start));
            parent = refl;
            same_op = refl;
          })
          (omega (arith, a.2, c.1)) (omega arith) (omega arith) (ground (arith, a.2, a.3)))
