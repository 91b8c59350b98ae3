-- ===== src/Timing/Engine/Earliest.antt =====
-- `earliest_issue` returns the least time that every constraint admits.
use hbmsim.Prelude.{
  ℕ, ◌+◌, ◌≤◌, ◌≡◌, ◌⊎◌, ◌∙◌, sym, subst, inl, inr, refl, Option, none, some, List, [], ◌∷◌, Result,
  ok, err, overflow_error, arith, Error, u64_max, All, Result-cases,
}
use hbmsim.Dram.Command.{HbmCommand}
use hbmsim.Mapping.{HbmAddress}
use hbmsim.Timing.Spec.{TimingConstraint}
use hbmsim.Timing.Engine.{
  HbmTimingEngine, timing_command, preceding_time, tighten, earliest_over, earliest_issue,
}

-- A delay after a time, if there is one, has passed at `when`; and has just passed.
abbrev pub Passed : Option ℕ → ℕ → ℕ → Type 0
Passed none delay when = Unit
Passed (some time) delay when = time + delay ≤ when

abbrev pub JustPassed : Option ℕ → ℕ → ℕ → Type 0
JustPassed none delay when = ⊥
JustPassed (some time) delay when = time + delay ≡ when

abbrev pub HasWordDelay : TimingConstraint → Type 0
HasWordDelay c = c.delay ≤ u64_max

tighten-ok :
    (e r d : ℕ) (o : Option ℕ)
    → d ≤ u64_max
    → tighten e o d ≡ ok r
    → (e ≤ r) × Passed o d r × ((r ≡ e) ⊎ JustPassed o d r)
unfolding tighten
tighten-ok e r d none w h = (ground arith, tt, inl (ground arith))
tighten-ok e r d (some t) w h = ground arith

tighten-err :
    (e d : ℕ) (o : Option ℕ) (x : Error)
    → d ≤ u64_max
    → tighten e o d ≡ err x
    → (x ≡ overflow_error) × ¬ (Passed o d u64_max)
unfolding tighten
tighten-err e d none x w h = cc
tighten-err e d (some t) x w h = (ground arith, λ a. ground arith)

Passed-le : (o : Option ℕ) (d r s : ℕ) → r ≤ s → Passed o d r → Passed o d s
Passed-le none d r s l p = tt
Passed-le (some t) d r s l p = omega (arith, l, p)

module _ (t : HbmTimingEngine) (command : HbmCommand) (address : HbmAddress) where
  -- `when` is after the delay of every constraint, and is the end of the delay of some constraint.
  abbrev pub Admitted : ℕ → List TimingConstraint → Type 0
  Admitted when [] = Unit
  Admitted when (c ∷ cs) =
      Passed (preceding_time t command address c) c.delay when × Admitted when cs

  abbrev pub Attained : ℕ → List TimingConstraint → Type 0
  Attained when [] = ⊥
  Attained when (c ∷ cs) =
      JustPassed (preceding_time t command address c) c.delay when ⊎ Attained when cs

  -- An admitted time that is `e` or the end of a delay, or an overflow that is not avoidable.
  abbrev pub Least : List TimingConstraint → ℕ → Result ℕ → Type 0
  Least cs e (ok r) = (e ≤ r) × Admitted r cs × ((r ≡ e) ⊎ Attained r cs)
  Least cs e (err x) = (x ≡ overflow_error) × ¬ (Admitted u64_max cs)

  Least-cons :
      (c : TimingConstraint) (cs : List TimingConstraint) (e r : ℕ) (res : Result ℕ)
      → e ≤ r
      → Passed (preceding_time t command address c) c.delay r
      → (r ≡ e) ⊎ JustPassed (preceding_time t command address c) c.delay r
      → Least cs r res
      → Least (c ∷ cs) e res
  Least-cons c cs e r (ok s) l a b k = (
    omega (arith, k.0),
    (Passed-le (preceding_time t command address c) c.delay r s k.0 a, k.1),
    attained b k.2,
  )
    where
      attained :
          (r ≡ e) ⊎ JustPassed (preceding_time t command address c) c.delay r
          → (s ≡ r) ⊎ Attained s cs
          → (s ≡ e) ⊎ Attained s (c ∷ cs)
      attained b (inr x) = inr (inr x)
      attained (inl p) (inl q) = inl (q ∙ p)
      attained (inr p) (inl q) =
          inr
            (inl (subst (λ v. JustPassed (preceding_time t command address c) c.delay v) (sym q) p))
  Least-cons c cs e r (err x) l a b k = (k.0, λ all. k.1 all.1)

  earliest_over-Least :
      (cs : List TimingConstraint) (e : ℕ)
      → All HasWordDelay cs
      → Least cs e (earliest_over t command address cs e)
  unfolding earliest_over
  earliest_over-Least [] e w = (omega arith, tt, inl refl)
  earliest_over-Least (c ∷ cs) e w =
      elim (Result-cases (tighten e (preceding_time t command address c) c.delay)) [
        | inl (x, h) ↦
            let k = tighten-err e c.delay (preceding_time t command address c) x w.0 h in
            rw (h, earliest_over) (k.0, λ a. k.1 a.0)
        | inr (r, h) ↦
            let k = tighten-ok e r c.delay (preceding_time t command address c) w.0 h in
            let next : earliest_over t command address (c ∷ cs) e
                ≡ earliest_over t command address cs r =
              ground arith in
            rw next (
              Least-cons c cs e r (earliest_over t command address cs r) k.0 k.1 k.2
                (earliest_over-Least cs r w.1))
      ]

-- With delays that are 64-bit words, the earliest time is `now` or later, the delay of every row of
-- the table has passed by then, and it is `now` itself or the end of one row's delay, so that no
-- earlier time will do. The call throws `overflow_error` only if no 64-bit time is after all delays.
pub earliest_issue-Least :
    (t : HbmTimingEngine) (command : HbmCommand) (address : HbmAddress) (now : ℕ)
    → All HasWordDelay t.table
    → Least t (timing_command command) address t.table now (earliest_issue t command address now)
unfolding earliest_issue
earliest_issue-Least t command address now w =
    earliest_over-Least t (timing_command command) address t.table now w
