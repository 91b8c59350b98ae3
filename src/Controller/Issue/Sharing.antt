-- ===== src/Controller/Issue/Sharing.antt =====
-- Which reads merge (`RequestCoalescer::can_merge`), and which writes keep them from it (the test in
-- `HbmController::issue`).
use hbmsim.Prelude.{
  ◌+◌, ◌<◌, ◌≤◌, ◌≡◌, ◌≢◌, ◌⊎◌, inl, inr, refl, arith, Bool, true, false, List, [], ◌∷◌, map,
  Bool-cases, any, u64_max, All,
}
use hbmsim.Types.{HbmOp, is_read}
use hbmsim.Controller.Access.{LogicalAccess, HbmAccess, HbmAccessClass, can_merge}
use hbmsim.Controller.Issue.{overlaps, merge_queue, merge_with}
use hbmsim.Controller.State.{HbmController}

-- Two reads of the same bytes at the same place, in the same ordering domain.
pub record Shares (leader other : LogicalAccess) : Type 0 where
  pub leader_reads : leader.op ≡ HbmOp.read
  pub other_reads : other.op ≡ HbmOp.read
  pub bytes_at : leader.byte_address ≡ other.byte_address
  pub bytes : leader.size_bytes ≡ other.size_bytes
  pub bank : leader.address.flat_bank ≡ other.address.flat_bank
  pub row : leader.address.row ≡ other.address.row
  pub column : leader.address.column ≡ other.address.column
  pub domain : leader.metadata.ordering_domain ≡ other.metadata.ordering_domain

-- A write that a read cannot observe: of another ordering domain, ending where the read starts or
-- before, or starting after the read does and where it ends or later.
abbrev pub IsUnseen : LogicalAccess → HbmAccess → Type 0
IsUnseen l write =
    (write.metadata.ordering_domain ≢ l.metadata.ordering_domain)
    ⊎ (write.byte_address + write.size_bytes ≤ l.byte_address)
    ⊎ ((l.byte_address < write.byte_address) × (l.byte_address + l.size_bytes ≤ write.byte_address))

abbrev pub HasWordAddress : HbmAccess → Type 0
HasWordAddress a = a.byte_address ≤ u64_max

abbrev pub logicals : List HbmAccess → List LogicalAccess
logicals q = map (λ (a : HbmAccess). a.logical) q

reads : (op : HbmOp) → is_read op ≡ true → op ≡ HbmOp.read
reads HbmOp.read h = refl
reads HbmOp.write h = absurd (ground arith)

abbrev pub IsOther : LogicalAccess → HbmAccess → Type 0
IsOther leader a = ¬ (Shares leader a.logical)

can_merge-Shares :
    (enabled : Bool) (leader other : LogicalAccess)
    → can_merge enabled leader other ≡ true
    → Shares leader other
unfolding can_merge
can_merge-Shares false leader other h = absurd (ground arith)
can_merge-Shares true leader other h = record {
  leader_reads = reads leader.op (ground arith);
  other_reads = reads other.op (ground arith);
  bytes_at = ground arith;
  bytes = ground arith;
  bank = ground arith;
  row = ground arith;
  column = ground arith;
  domain = ground arith;
}

Shares-can_merge :
    (leader other : LogicalAccess) → can_merge true leader other ≡ false → ¬ (Shares leader other)
unfolding can_merge
Shares-can_merge leader other h s =
    let r : is_read leader.op ≡ true = rw s.leader_reads refl in
    let r' : is_read other.op ≡ true = rw s.other_reads refl in
    absurd (ground (arith, s.bytes_at, s.bytes, s.bank, s.row, s.column, s.domain))

merge_queue-Shares :
    (enabled : Bool) (leader : LogicalAccess) (class : HbmAccessClass) (q : List HbmAccess)
    → All (Shares leader) (logicals (merge_queue enabled leader class q).0)
unfolding merge_queue
merge_queue-Shares enabled leader class [] = tt
merge_queue-Shares enabled leader class (a ∷ q) =
    elim (Bool-cases (can_merge enabled leader a.logical)) [
      | inl e ↦
          rw e
            (can_merge-Shares enabled leader a.logical e, merge_queue-Shares enabled leader class q)
      | inr e ↦ rw e (merge_queue-Shares enabled leader class q)
    ]

-- None that could leave stays.
merge_queue_rest :
    (leader : LogicalAccess) (class : HbmAccessClass) (q : List HbmAccess)
    → All (IsOther leader) (merge_queue true leader class q).1
unfolding merge_queue
merge_queue_rest leader class [] = tt
merge_queue_rest leader class (a ∷ q) = elim (Bool-cases (can_merge true leader a.logical)) [
  | inl e ↦ rw e (merge_queue_rest leader class q)
  | inr e ↦ rw e (Shares-can_merge leader a.logical e, merge_queue_rest leader class q)
]

merge_queue_off :
    (leader : LogicalAccess) (class : HbmAccessClass) (q : List HbmAccess)
    → (merge_queue false leader class q).0 ≡ []
unfolding merge_queue can_merge
merge_queue_off leader class [] = refl
merge_queue_off leader class (a ∷ q) = merge_queue_off leader class q

overlaps-IsUnseen :
    (l : LogicalAccess) (write : HbmAccess)
    → l.byte_address ≤ u64_max
    → HasWordAddress write
    → overlaps l write ≡ false
    → IsUnseen l write
unfolding overlaps
overlaps-IsUnseen l write hl hw h = ground arith

overlaps_seen :
    (l : LogicalAccess) (write : HbmAccess)
    → l.byte_address ≤ u64_max
    → HasWordAddress write
    → overlaps l write ≡ true
    → ¬ (IsUnseen l write)
unfolding overlaps
overlaps_seen l write hl hw h u = absurd (ground arith)

-- The search through the queued writes.
any-IsUnseen :
    (l : LogicalAccess) (writes : List HbmAccess)
    → l.byte_address ≤ u64_max
    → All HasWordAddress writes
    → ((any (overlaps l) writes ≡ true) × ¬ (All (IsUnseen l) writes))
      ⊎ ((any (overlaps l) writes ≡ false) × All (IsUnseen l) writes)
any-IsUnseen l [] hl hw = inr (refl, tt)
any-IsUnseen l (write ∷ writes) hl hw = elim (Bool-cases (overlaps l write)) [
  | inl e ↦ inl (rw e refl, λ u. overlaps_seen l write hl hw.0 e u.0)
  | inr e ↦ elim (any-IsUnseen l writes hl hw.1) [
    | inl (f, n) ↦ inl (rw (e, f) refl, λ u. n u.1)
    | inr (f, u) ↦ inr (rw (e, f) refl, (overlaps-IsUnseen l write hl hw.0 e, u))
  ]
]

-- Either nothing merges, since the access is a write, merging is off or a queued write could be observed;
-- or exactly the reads that share its bytes leave with a read.
abbrev pub Merges :
    (enabled : Bool) (writes : List HbmAccess) (w : Bool) (l : LogicalAccess)
    (others : List LogicalAccess) (remaining : List HbmAccess)
    → Type 0
Merges enabled writes w l others remaining =
    ((others ≡ []) × ((w ≡ true) ⊎ (enabled ≡ false) ⊎ ¬ (All (IsUnseen l) writes)))
    ⊎ ((w ≡ false)
        × (enabled ≡ true)
        × All (IsUnseen l) writes
        × All (Shares l) others
        × All (IsOther l) remaining)

pub merge_with-Merges :
    (c : HbmController) (w : Bool) (a : HbmAccess) (q : List HbmAccess)
    → a.byte_address ≤ u64_max
    → (w ≡ false → All HasWordAddress c.write_queue)
    → Merges c.config.enable_request_merging c.write_queue w a.logical
        (logicals (merge_with c w a q).0)
        (merge_with c w a q).1
unfolding merge_with
merge_with-Merges c true a q h writes = inl (refl, inl refl)
merge_with-Merges c false a q h writes =
    elim (any-IsUnseen a.logical c.write_queue h (writes refl)) [
      | inl (e, n) ↦ rw e (inl (refl, inr (inr n)))
      | inr (e, u) ↦ elim (Bool-cases c.config.enable_request_merging) [
        | inl on ↦
            rw (e, on)
              (inr (
                refl,
                refl,
                u,
                merge_queue-Shares true a.logical a.access_class q,
                merge_queue_rest a.logical a.access_class q,
              ))
        | inr off ↦
            rw (e, off, merge_queue_off a.logical a.access_class q) (inl (refl, inr (inl refl)))
      ]
    ]

-- A write does not look at the queued writes.
pub Merges-same :
    (enabled enabled' : Bool) (before after : List HbmAccess) (w : Bool) (l l' : LogicalAccess)
    (others : List LogicalAccess) (remaining remaining' : List HbmAccess)
    → (w ≡ false → after ≡ before)
    → enabled' ≡ enabled
    → l' ≡ l
    → remaining ≡ remaining'
    → Merges enabled' after w l' others remaining'
    → Merges enabled before w l others remaining
Merges-same on on' before after true l l' others left left' same e f g (inl (h, r)) =
    inl (h, inl refl)
Merges-same on on' before after true l l' others left left' same e f g (inr m) =
    absurd (ground (arith, m.0))
Merges-same on on' before after false l l' others left left' same e f g m =
    let s = same refl in rw (← s, ← e, ← f, g) m
