-- ===== src/Controller/Scheduler/Choice.antt =====
-- The chosen candidate is one that no other comes before.
use hbmsim.Prelude.{
  ◌+◌, ℕ, ◌<◌, ◌≤◌, ◌≡◌, ◌⊎◌, inl, inr, refl, sym, ap, subst, Bool, true, false, some, List, [],
  ◌∷◌, arith, All, All-imp, if◌then◌else◌, Bool-cases,
}
use hbmsim.Controller.Scheduler.{
  SchedulerKind, fr_fcfs, fr_fcfs_row_hit, fifo, SchedulerCandidate, before, min_element, choose,
}

-- Each comparator is a strict weak order: irreflexive, and incomparability is transitive.
before_irrefl : (k : SchedulerKind) (now : ℕ) (x : SchedulerCandidate) → before k now x x ≡ false
unfolding before
before_irrefl fr_fcfs now x = ground arith
before_irrefl _ now x = ground arith

before_negative :
    (k : SchedulerKind) (now : ℕ) (x y z : SchedulerCandidate)
    → before k now x y ≡ false
    → before k now y z ≡ false
    → before k now x z ≡ false
unfolding before
before_negative fr_fcfs now x y z h g = ground arith
before_negative _ now x y z h g = ground arith

before_asym :
    (k : SchedulerKind) (now : ℕ) (x y : SchedulerCandidate)
    → before k now x y ≡ true
    → before k now y x ≡ false
unfolding before
before_asym fr_fcfs now x y h = ground arith
before_asym _ now x y h = ground arith

abbrev pub In : {A : Type 0} → A → List A → Type 0
In x [] = ⊥
In x (y ∷ ys) = (x ≡ y) ⊎ In x ys

-- What `min_element` returns under any strict weak order.
module _ {A : Type 0} (less : A → A → Bool) (asym : (x y : A) → less x y ≡ true → less y x ≡ false)
    (irrefl : (x : A) → less x x ≡ false)
    (negative : (x y z : A) → less x y ≡ false → less y z ≡ false → less x z ≡ false) where
  abbrev Chosen : List A → A → Type 0
  Chosen xs r = In r xs × All (λ (x : A). less x r ≡ false) xs

  min_element-least : (m : A) (xs : List A) → Chosen (m ∷ xs) (min_element less m xs)
  unfolding min_element
  min_element-least m [] = (inl refl, (irrefl m, tt))
  min_element-least m (x ∷ xs) = elim (Bool-cases (less x m)) [
    | inl h ↦
        let ih = min_element-least x xs in
        let r = min_element less x xs in
        let first : less m r ≡ false = negative m x r (asym x m h) ih.1.0 in
        let next : min_element less m (x ∷ xs) ≡ r =
          ap (λ b. min_element less (if b then x else m) xs) h in
        subst (Chosen (m ∷ x ∷ xs)) (sym next) (inr ih.0, (first, ih.1))
    | inr h ↦
        let ih = min_element-least m xs in
        let r = min_element less m xs in
        let second : less x r ≡ false = negative x m r h ih.1.0 in
        let next : min_element less m (x ∷ xs) ≡ r =
          ap (λ b. min_element less (if b then x else m) xs) h in
        subst (Chosen (m ∷ x ∷ xs)) (sym next) (skip r ih.0, (ih.1.0, (second, ih.1.1)))
  ]
    where
      skip : (r : A) → In r (m ∷ xs) → In r (m ∷ x ∷ xs)
      skip r (inl e) = inl e
      skip r (inr i) = inr (inr i)

-- A scheduler chooses nothing only from no candidates. Otherwise it chooses one of them, and its order
-- puts no candidate before the chosen one.
pub choose-least :
    (k : SchedulerKind) (now : ℕ) (c : SchedulerCandidate) (cs : List SchedulerCandidate)
    → (m : SchedulerCandidate) × (choose k (c ∷ cs) now ≡ some m)
      × In m (c ∷ cs)
      × All (λ x. before k now x m ≡ false) (c ∷ cs)
unfolding choose
choose-least k now c cs =
    let l =
      min_element-least (before k now) (before_asym k now) (before_irrefl k now)
        (before_negative k now) c cs in
    (min_element (before k now) c cs, refl, l.0, l.1)

-- How much an FR-FCFS scheduler prefers a command by the row that is open: in the first variant row hits of data
-- commands, then other data commands; in the second every row hit.
abbrev pub row_rank : SchedulerKind → SchedulerCandidate → ℕ
row_rank fr_fcfs c = if c.data_command then 1 + (if c.row_hit then 1 else 0) else 0
row_rank fr_fcfs_row_hit c = if c.row_hit then 1 else 0
row_rank fifo c = 0

-- Why `x` yields to `m` when both are ready, or become ready at the same time: by the priority of the
-- request, then by the row, then by age.
abbrev pub RequestYields : SchedulerKind → SchedulerCandidate → SchedulerCandidate → Type 0
RequestYields k m x =
    (x.request_priority < m.request_priority)
    ⊎ ((x.request_priority ≡ m.request_priority)
        × ((row_rank k x < row_rank k m)
            ⊎ ((row_rank k x ≡ row_rank k m) × (m.sequence ≤ x.sequence))))

-- Why `x` yields to the chosen `m`.
abbrev pub Yields : SchedulerKind → ℕ → SchedulerCandidate → SchedulerCandidate → Type 0
Yields fifo now m x = m.sequence ≤ x.sequence
Yields k now m x =
    ((m.ready_at ≤ now) × (now < x.ready_at))
    ⊎ (((now < m.ready_at) × (m.ready_at < x.ready_at))
        ⊎ ((((m.ready_at ≤ now) × (x.ready_at ≤ now))
              ⊎ ((now < m.ready_at) × (m.ready_at ≡ x.ready_at)))
            × RequestYields k m x))

Yields-before :
    (k : SchedulerKind) (now : ℕ) (m x : SchedulerCandidate)
    → before k now x m ≡ false
    → Yields k now m x
unfolding before
Yields-before fr_fcfs now m x h = ground arith
Yields-before fr_fcfs_row_hit now m x h = ground arith
Yields-before fifo now m x h = ground arith

-- Every candidate yields to the chosen one. Under FIFO the chosen one is the oldest. Under FR-FCFS, in both
-- variants, a ready candidate comes before one that is not ready, and of those that are not the one that
-- is ready earlier; otherwise the higher request priority decides, then the preference of the variant for
-- row hits, and then, whatever the commands are, age.
pub choose-Yields :
    (k : SchedulerKind) (now : ℕ) (m : SchedulerCandidate) (cs : List SchedulerCandidate)
    → choose k cs now ≡ some m
    → All (Yields k now m) cs
unfolding choose
choose-Yields k now m [] e = tt
choose-Yields k now m (c ∷ cs) e =
    let l = choose-least k now c cs in
    let same : l.0 ≡ m = ground arith in
    All-imp (λ x. before k now x l.0 ≡ false) (Yields k now m)
      (λ x h. Yields-before k now m x (rw same at h)) (c ∷ cs) l.3
