-- ===== src/System/Events/Completion.antt =====
-- What the completion of an access means for its parent.
use hbmsim.Prelude.{
  ℕ, ◌≡◌, ◌≢◌, ◌<◌, ◌≤◌, u64_max, ◌+◌, ◌⊎◌, inl, inr, refl, sym, ap, ◌∙◌, arith, none, some, List,
  [], ◌∷◌, Result, ok, Bool-cases, Result-cases, Option-cases, get_at, subst, add64, All, ◌==◌,
  ℕ_discrete,
}
use hbmsim.Statistics.{HbmStats, ChannelStats, change_at, change_channel}
use hbmsim.Controller.Access.{LogicalCompletion, HbmAccessClass, row_hit, row_closed, row_conflict}
use hbmsim.Controller.Drive.{complete_access, count_class}
use hbmsim.Controller.State.{HbmController}
use hbmsim.System.Admission.Frame.{keys, keys-set_parent}
use hbmsim.System.Events.{
  note_completion, is_complete, retire, note_access, complete_parent, finish_access,
}
use hbmsim.System.Transaction.{HbmTransaction, HbmCompletion}
use hbmsim.System.State.{
  HbmSystem, ParentRequest, find_parent, set_parent, erase_parent, lend, put_back,
}

-- No identifier stands twice.
abbrev pub Distinct : List ℕ → Type 0
Distinct [] = Unit
Distinct (k ∷ ks) = All (λ j. j ≢ k) ks × Distinct ks

find-set_parent :
    (id : ℕ) (old parent : ParentRequest) (parents : List (ℕ × ParentRequest))
    → find_parent id parents ≡ some old
    → find_parent id (set_parent id parent parents) ≡ some parent
find-set_parent id old parent [] h = cc
find-set_parent id old parent ((k, p) ∷ parents) h =
    ground (arith, find-set_parent id old parent parents)

find-set_parent-other :
    (id other : ℕ) (parent : ParentRequest) (parents : List (ℕ × ParentRequest))
    → other ≢ id
    → find_parent other (set_parent id parent parents) ≡ find_parent other parents
find-set_parent-other id other parent [] n = refl
find-set_parent-other id other parent ((k, p) ∷ parents) n =
    ground (arith, find-set_parent-other id other parent parents n)

find-absent :
    (id : ℕ) (parents : List (ℕ × ParentRequest))
    → All (λ j. j ≢ id) (keys parents)
    → find_parent id parents ≡ none
find-absent id [] all = refl
find-absent id ((k, p) ∷ parents) all = ground (arith, all.0, find-absent id parents all.1)

find-erase_parent :
    (id : ℕ) (parents : List (ℕ × ParentRequest))
    → Distinct (keys parents)
    → find_parent id (erase_parent id parents) ≡ none
find-erase_parent id [] d = refl
find-erase_parent id ((k, p) ∷ parents) d = elim (ℕ_discrete k id) [
  | yes e ↦
      ground (arith, find-absent id parents (subst (λ x. All (λ j. j ≢ x) (keys parents)) e d.0))
  | no n ↦ ground (arith, find-erase_parent id parents d.1)
]

find-erase_parent-other :
    (id other : ℕ) (parents : List (ℕ × ParentRequest))
    → other ≢ id
    → find_parent other (erase_parent id parents) ≡ find_parent other parents
find-erase_parent-other id other [] n = refl
find-erase_parent-other id other ((k, p) ∷ parents) n =
    ground (arith, find-erase_parent-other id other parents n)

change_channel-completed :
    (change : ChannelStats → Result ChannelStats) (channel : ℕ) (s s' : HbmStats)
    → change_channel change channel s ≡ ok s'
    → s'.completed_transactions ≡ s.completed_transactions
unfolding change_channel
change_channel-completed change channel s s' h =
    elim (Result-cases (change_at change channel s.channels)) [
      | inl (e, thrown) ↦ absurd (ground arith)
      | inr (channels, hc) ↦
          let same : s' ≡ record s { channels = channels } = ground arith in rw same refl
    ]

count_class-completed :
    (class : HbmAccessClass) (s : HbmStats)
    → (count_class class s).completed_transactions ≡ s.completed_transactions
count_class-completed row_hit s = refl
count_class-completed row_closed s = refl
count_class-completed row_conflict s = refl

complete_access-completed :
    (c c' : HbmController) (access : LogicalCompletion)
    → complete_access c access ≡ ok c'
    → c'.stats.completed_transactions ≡ c.stats.completed_transactions
unfolding complete_access
complete_access-completed c c' access h = elim (Bool-cases (c.outstanding_accesses == 0)) [
  | inl underflow ↦ absurd (ground arith)
  | inr outstanding ↦
      let add : ChannelStats → Result ChannelStats =
        λ k. ok (record k { completed_bytes = add64 k.completed_bytes access.size_bytes }) in
      elim (Result-cases (change_channel add c.config.channel c.stats)) [
        | inl (e, thrown) ↦ absurd (ground arith)
        | inr (stats, hs) ↦
            let same : c'.stats ≡ count_class access.access_class stats = ground arith in
            rw same (
              count_class-completed access.access_class stats
              ∙ change_channel-completed add c.config.channel c.stats stats hs)
      ]
]

-- What `note_access` leaves.
record Noted (s : HbmSystem) (access : LogicalCompletion) (channel time : ℕ)
    (parent noted : ParentRequest) (s' : HbmSystem) : Type 0 where
  outstanding : 0 < parent.remaining_accesses
  is_noted : noted ≡ note_completion channel time access parent
  stored : s'.parents ≡ set_parent access.parent_id noted s.parents
  same_count : s'.stats.completed_transactions ≡ s.stats.completed_transactions

note_access-Noted :
    (s s' : HbmSystem) (access : LogicalCompletion) (channel time : ℕ)
    (parent noted : ParentRequest)
    → find_parent access.parent_id s.parents ≡ some parent
    → note_access s access channel time ≡ ok (noted, s')
    → Noted s access channel time parent noted s'
unfolding note_access
note_access-Noted s s' access channel time parent noted f h =
    elim (Result-cases (get_at s.controllers channel)) [
      | inl (e, thrown) ↦ absurd (ground arith)
      | inr (c, hc) ↦ elim (Result-cases (complete_access (lend s c) access)) [
        | inl (e, thrown) ↦ absurd (ground arith)
        | inr (completed, hd) ↦ elim (Bool-cases (parent.remaining_accesses == 0)) [
          | inl none_left ↦ absurd (ground arith)
          | inr some_left ↦
              let noted' : noted ≡ note_completion channel time access parent = ground arith in
              let same : s' ≡ record (put_back s channel completed) {
                parents = set_parent access.parent_id noted s.parents;
              } =
                ground arith in
              record {
                outstanding = ground arith;
                is_noted = noted';
                stored = ap (λ (x : HbmSystem). x.parents) same;
                same_count =
                    ap (λ (x : HbmSystem). x.stats.completed_transactions) same
                    ∙ complete_access-completed (lend s c) completed access hd;
              }
        ]
      ]
    ]

-- A parent is retired exactly with the last of its accesses, when all of its bytes are admitted.
abbrev Retires : ParentRequest → Type 0
Retires parent =
    (parent.remaining_accesses ≡ 1) × (parent.admitted_bytes ≡ parent.transaction.size_bytes)

note_completion-lem :
    (channel time : ℕ) (access : LogicalCompletion) (parent : ParentRequest)
    → 0 < parent.remaining_accesses
    → parent.remaining_accesses ≤ u64_max
    → ((note_completion channel time access parent).remaining_accesses + 1
        ≡ parent.remaining_accesses)
      × ((note_completion channel time access parent).admitted_bytes ≡ parent.admitted_bytes)
      × ((note_completion channel time access parent).transaction ≡ parent.transaction)
unfolding note_completion
note_completion-lem channel time access parent l w = ground arith

retire-frame :
    (s s' : HbmSystem) (id : ℕ) (completion : HbmCompletion)
    → retire s id ≡ ok (completion, s')
    → (s'.parents ≡ erase_parent id s.parents)
      × (s'.stats.completed_transactions ≡ add64 s.stats.completed_transactions 1)
unfolding retire
retire-frame s s' id completion h = elim (Option-cases (find_parent id s.parents)) [
  | inl missing ↦ absurd (ground arith)
  | inr (parent, hf) ↦ ground arith
]

module _ {W : Type 0} where
  complete_parent-frame :
      (w w' : W) (s s' : HbmSystem) (id : ℕ)
      → complete_parent none none (w, s) id ≡ some (ok (w', s'))
      → (s'.parents ≡ erase_parent id s.parents)
        × (s'.stats.completed_transactions ≡ add64 s.stats.completed_transactions 1)
  unfolding complete_parent
  complete_parent-frame w w' s s' id h = elim (Result-cases (retire s id)) [
    | inl (e, thrown) ↦ absurd (ground arith)
    | inr ((completion, retired), hr) ↦
        let f = retire-frame s retired id completion hr in
        let same : s' ≡ retired = ground arith in rw same f
  ]

  -- In a system whose parents have different identifiers and whose client has no callbacks, the
  -- completion of an access of an active parent, whose count of accesses fits 64 bits, leaves every
  -- other parent alone. It retires the parent, who is counted as completed and no longer active, if
  -- the access was its last and all of its bytes were admitted; otherwise the parent stays with one
  -- access less and the count does not change.
  pub finish_access-Outcome :
      (w w' : W) (s s' : HbmSystem) (access : LogicalCompletion) (channel time other : ℕ)
      (parent : ParentRequest)
      → Distinct (keys s.parents)
      → find_parent access.parent_id s.parents ≡ some parent
      → parent.remaining_accesses ≤ u64_max
      → other ≢ access.parent_id
      → finish_access none none (w, s) access channel time ≡ some (ok (w', s'))
      → (find_parent other s'.parents ≡ find_parent other s.parents)
        × ((Retires parent
              × (find_parent access.parent_id s'.parents ≡ none)
              × (s'.stats.completed_transactions ≡ add64 s.stats.completed_transactions 1))
            ⊎ (((parent.remaining_accesses ≢ 1)
                  ⊎ (parent.admitted_bytes ≢ parent.transaction.size_bytes))
                × ((later : ParentRequest) × (find_parent access.parent_id s'.parents ≡ some later)
                    × (later.remaining_accesses + 1 ≡ parent.remaining_accesses))
                × (s'.stats.completed_transactions ≡ s.stats.completed_transactions)))
  unfolding finish_access
  finish_access-Outcome w w' s s' access channel time other parent d f l n h =
      elim (Result-cases (note_access s access channel time)) [
        | inl (e, thrown) ↦ absurd (ground arith)
        | inr ((noted, next), hn) ↦
            let id = access.parent_id in
            let k = note_access-Noted s next access channel time parent noted f hn in
            let m = note_completion-lem channel time access parent k.outstanding l in
            let left : noted.remaining_accesses + 1 ≡ parent.remaining_accesses =
              ap (λ (x : ParentRequest). x.remaining_accesses + 1) k.is_noted ∙ m.0 in
            let bytes : noted.admitted_bytes ≡ parent.admitted_bytes =
              ap (λ (x : ParentRequest). x.admitted_bytes) k.is_noted ∙ m.1 in
            let size : noted.transaction.size_bytes ≡ parent.transaction.size_bytes =
              ap (λ (x : ParentRequest). x.transaction.size_bytes) k.is_noted
              ∙ ap (λ (x : HbmTransaction). x.size_bytes) m.2 in
            let elsewhere = find-set_parent-other id other noted s.parents n in
            elim (Bool-cases (is_complete noted)) [
              | inr more ↦
                  let same : s' ≡ next = ground arith in
                  let parents : s'.parents ≡ set_parent id noted s.parents =
                    ap (λ (x : HbmSystem). x.parents) same ∙ k.stored in
                  (
                    ap (find_parent other) parents ∙ elsewhere,
                    inr (
                      ground (arith, more, left, bytes, size),
                      (
                        noted,
                        ap (find_parent id) parents ∙ find-set_parent id parent noted s.parents f,
                        left,
                      ),
                      ap (λ (x : HbmSystem). x.stats.completed_transactions) same ∙ k.same_count,
                    ),
                  )
              | inl last ↦
                  let r = complete_parent-frame w w' next s' id (ground arith) in
                  let parents : s'.parents ≡ erase_parent id (set_parent id noted s.parents) =
                    r.0 ∙ ap (erase_parent id) k.stored in
                  let distinct = subst Distinct (sym (keys-set_parent id noted s.parents)) d in
                  (
                    ap (find_parent other) parents
                        ∙ find-erase_parent-other id other (set_parent id noted s.parents) n
                        ∙ elsewhere,
                    inl (
                      ground (arith, last, left, bytes, size),
                      ap (find_parent id) parents
                          ∙ find-erase_parent id (set_parent id noted s.parents) distinct,
                      r.1 ∙ ap (λ x. add64 x 1) k.same_count,
                    ),
                  )
            ]
      ]
