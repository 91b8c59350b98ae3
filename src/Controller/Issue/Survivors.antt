-- ===== src/Controller/Issue/Survivors.antt =====
-- What holds of every access of a queue holds of those that leave it and of those that stay.
use hbmsim.Prelude.{
  ℕ, zero, suc, ◌≡◌, inl, inr, refl, subst, arith, Bool, true, false, some, List, [], ◌∷◌, ok, All,
  get_elem?, set, get_at, Option-cases, ◌||◌, any, Bool-cases,
}
use hbmsim.Controller.Access.{LogicalAccess, HbmAccess, HbmAccessClass, can_merge}
use hbmsim.Controller.Issue.{merge_with, merge_queue, overlaps, erase_at}
use hbmsim.Controller.Selection.{with_queue}
use hbmsim.Controller.State.{HbmController}

pub All-get :
    {A : Type 0} (P : A → Type 0) (q : List A) (i : ℕ) (a : A)
    → All P q
    → get_elem? q i ≡ some a
    → P a
All-get P [] i a all h = absurd (cc)
All-get P (x ∷ q) zero a (p, ps) h = let e : x ≡ a = cc in subst P e p
All-get P (x ∷ q) (suc i) a (p, ps) h = All-get P q i a ps h

module _ (P : HbmAccess → Type 0) where
  pub All-set : (q : List HbmAccess) (i : ℕ) (b : HbmAccess) → All P q → P b → All P (set q i b)
  All-set [] i b all p = tt
  All-set (x ∷ q) zero b all p = (p, all.1)
  All-set (x ∷ q) (suc i) b all p = (all.0, All-set q i b all.1 p)

  pub All-erase_at : (q : List HbmAccess) (i : ℕ) → All P q → All P (erase_at q i)
  unfolding erase_at
  All-erase_at [] i all = tt
  All-erase_at (x ∷ q) zero all = all.1
  All-erase_at (x ∷ q) (suc i) all = (all.0, All-erase_at q i all.1)

  module _
      (reclassed : (a : HbmAccess) (class : HbmAccessClass)
        → P a
        → P (record a { access_class = class })) where
    pub All-merge_queue :
        (enabled : Bool) (leader : LogicalAccess) (class : HbmAccessClass) (q : List HbmAccess)
        → All P q
        → All P (merge_queue enabled leader class q).0
    unfolding merge_queue
    All-merge_queue enabled leader class [] all = tt
    All-merge_queue enabled leader class (a ∷ q) all =
        elim (Bool-cases (can_merge enabled leader a.logical)) [
          | inl e ↦ rw e (reclassed a class all.0, All-merge_queue enabled leader class q all.1)
          | inr e ↦ rw e (All-merge_queue enabled leader class q all.1)
        ]

    pub All-merge_with :
        (c : HbmController) (w : Bool) (a : HbmAccess) (q : List HbmAccess)
        → All P q
        → All P (merge_with c w a q).0
    unfolding merge_with
    All-merge_with c w a q all = elim (Bool-cases (w || any (overlaps a.logical) c.write_queue)) [
      | inl e ↦ rw e tt
      | inr e ↦
          rw e (All-merge_queue c.config.enable_request_merging a.logical a.access_class q all)
    ]

pub get_at-All :
    {A : Type 0} (P : A → Type 0) (xs : List A) (i : ℕ) (v : A)
    → All P xs
    → get_at xs i ≡ ok v
    → P v
get_at-All P xs i v all h = elim (Option-cases (get_elem? xs i)) [
  | inl e ↦ absurd (ground arith)
  | inr (u, e) ↦ let same : u ≡ v = ground arith in subst P same (All-get P xs i u all e)
]

pub config-with_queue :
    (w : Bool) (q : List HbmAccess) (c : HbmController) → (with_queue w q c).config ≡ c.config
config-with_queue true q c = refl
config-with_queue false q c = refl

pub bus-with_queue :
    (w : Bool) (q : List HbmAccess) (c : HbmController)
    → (with_queue w q c).data_bus_ready_at ≡ c.data_bus_ready_at
bus-with_queue true q c = refl
bus-with_queue false q c = refl
