-- ===== src/System/Admission/Frame.antt =====
-- What admission leaves alone: the configuration and the keys of the parents.
use hbmsim.Prelude.{
  ℕ, zero, suc, ◌≡◌, inl, inr, refl, ap, ◌∙◌, arith, Bool, true, some, List, [], ◌∷◌, ok,
  Bool-cases, Result-cases, Ran-cases, Option-cases, get_at, set, ltb, add64, length,
}
use hbmsim.EventQueue.{schedule_at}
use hbmsim.Controller.Access.{LogicalAccess, new_access}
use hbmsim.Controller.Drive.{reserve_slots, admit_reserved}
use hbmsim.Controller.State.{HbmController}
use hbmsim.System.Admission.{
  schedule_event, next_part, has_room, admit_part, count_part, admit_parts, pump, reads, writes,
}
use hbmsim.System.State.{
  HbmSystem, ParentRequest, SystemEvent, find_parent, set_parent, lend, put_back,
}

-- `parents_` as a set of identifiers.
abbrev pub keys : List (ℕ × ParentRequest) → List ℕ
keys [] = []
keys ((k, parent) ∷ parents) = k ∷ keys parents

pub keys-set_parent :
    (id : ℕ) (parent : ParentRequest) (parents : List (ℕ × ParentRequest))
    → keys (set_parent id parent parents) ≡ keys parents
keys-set_parent id parent [] = refl
keys-set_parent id parent ((k, old) ∷ parents) =
    ap (λ ks. k ∷ ks) (keys-set_parent id parent parents)

pub length-keys : (parents : List (ℕ × ParentRequest)) → length (keys parents) ≡ length parents
length-keys [] = refl
length-keys ((k, old) ∷ parents) = omega (arith, length-keys parents)

pub record Keeps (s s' : HbmSystem) : Type 0 where
  pub same_keys : keys s'.parents ≡ keys s.parents
  pub same_config : s'.config ≡ s.config

pub Keeps-trans : (s s' s'' : HbmSystem) → Keeps s s' → Keeps s' s'' → Keeps s s''
Keeps-trans s s' s'' k l = record {
  same_keys = l.same_keys ∙ k.same_keys;
  same_config = l.same_config ∙ k.same_config;
}

admit_part-Keeps :
    (fuel : ℕ) (s s' : HbmSystem) (c : HbmController) (a : LogicalAccess)
    → admit_part fuel s c a ≡ some (ok s')
    → Keeps s s'
unfolding admit_part
admit_part-Keeps fuel s s' c a h =
    elim (Result-cases (reserve_slots c (reads a.op) (writes a.op))) [
      | inl (e, thrown) ↦ absurd (ground arith)
      | inr (reserved, hr) ↦
          let counted : HbmSystem = record s {
            stats = record s.stats { modeled_accesses = add64 s.stats.modeled_accesses 1 };
            next_access_sequence = add64 s.next_access_sequence 1;
          } in
          let access = new_access (record a { sequence = s.next_access_sequence }) in
          elim (Ran-cases
            (admit_reserved fuel fuel (lend counted reserved) access s.scheduler.now)) [
              | inl out ↦ absurd (ground arith)
              | inr (inl (e, thrown)) ↦ absurd (ground arith)
              | inr (inr (admitted, ha)) ↦
                  let same : s' ≡ put_back counted a.address.flat_channel admitted = ground arith in
                  record { same_keys = rw same refl; same_config = rw same refl }
            ]
    ]

admit_parts-Keeps :
    (rounds fuel : ℕ) (s s' : HbmSystem) (parent parent' : ParentRequest)
    (touched touched' : List Bool)
    → admit_parts rounds fuel s parent touched ≡ some (ok (s', parent', touched'))
    → Keeps s s'
unfolding admit_parts
admit_parts-Keeps zero fuel s s' parent parent' touched touched' h = absurd (cc)
admit_parts-Keeps (suc rounds) fuel s s' parent parent' touched touched' h =
    elim (Bool-cases (ltb parent.admitted_bytes parent.transaction.size_bytes)) [
      | inr done ↦
          let same : s' ≡ s = ground arith in
          record { same_keys = rw same refl; same_config = rw same refl }
      | inl more ↦ elim (Ran-cases (next_part s parent.transaction parent.admitted_bytes)) [
        | inl out ↦ absurd (ground arith)
        | inr (inl (e, thrown)) ↦ absurd (ground arith)
        | inr (inr (a, hp)) ↦ elim (Result-cases (get_at s.controllers a.address.flat_channel)) [
          | inl (e, thrown) ↦ absurd (ground arith)
          | inr (c, hc) ↦ elim (Bool-cases (has_room c a.op)) [
            | inr full ↦
                let same : s' ≡ s = ground arith in
                record { same_keys = rw same refl; same_config = rw same refl }
            | inl room ↦ elim (Ran-cases (admit_part fuel s c a)) [
              | inl out ↦ absurd (ground arith)
              | inr (inl (e, thrown)) ↦ absurd (ground arith)
              | inr (inr (next, hn)) ↦ Keeps-trans s next s' (admit_part-Keeps fuel s next c a hn) (
                  admit_parts-Keeps rounds fuel next s' (count_part a parent) parent'
                    (set touched a.address.flat_channel true) touched' (ground arith))
            ]
          ]
        ]
      ]
    ]

pub pump-Keeps :
    (fuel : ℕ) (s s' : HbmSystem) (touched touched' : List Bool) (ids ids' : List ℕ)
    → pump fuel s touched ids ≡ some (ok (s', ids', touched'))
    → Keeps s s'
unfolding pump
pump-Keeps fuel s s' touched touched' [] ids' h =
    let same : s' ≡ s = ground arith in
    record { same_keys = rw same refl; same_config = rw same refl }
pump-Keeps fuel s s' touched touched' (id ∷ ids) ids' h =
    elim (Option-cases (find_parent id s.parents)) [
      | inl missing ↦ absurd (ground arith)
      | inr (parent, hf) ↦
          elim (Ran-cases (admit_parts (suc parent.transaction.size_bytes) fuel s parent touched)) [
            | inl out ↦ absurd (ground arith)
            | inr (inl (e, thrown)) ↦ absurd (ground arith)
            | inr (inr ((next, grown, marks), ha)) ↦
                let stored : HbmSystem = record next {
                  parents = set_parent id grown next.parents;
                } in
                elim (Ran-cases (pump fuel stored marks ids)) [
                  | inl out ↦ absurd (ground arith)
                  | inr (inl (e, thrown)) ↦ absurd (ground arith)
                  | inr (inr ((last, kept, marks'), hp)) ↦
                      let k =
                        admit_parts-Keeps (suc parent.transaction.size_bytes) fuel s next parent
                          grown touched marks ha in
                      let l = pump-Keeps fuel stored last marks marks' ids kept hp in
                      let same : s' ≡ last = ground arith in
                      let keys' : keys stored.parents ≡ keys s.parents =
                        keys-set_parent id grown next.parents ∙ k.same_keys in
                      record {
                        same_keys = rw same (l.same_keys ∙ keys');
                        same_config = rw same (l.same_config ∙ k.same_config);
                      }
                ]
          ]
    ]

pub schedule_event-Keeps :
    (s s' : HbmSystem) (when : ℕ) (event : SystemEvent)
    → schedule_event s when event ≡ ok s'
    → (s'.parents ≡ s.parents) × (s'.config ≡ s.config)
unfolding schedule_event
schedule_event-Keeps s s' when event h =
    elim (Result-cases
      (schedule_at s.scheduler when (record { token = s.scheduler.next_token; event = event }))) [
        | inl (e, thrown) ↦ absurd (ground arith)
        | inr (r, hr) ↦
            let same : s' ≡ record s { scheduler = r.1; pending_events = r.0 ∷ s.pending_events } =
              ground arith in
            rw same (refl, refl)
      ]
