-- ===== src/Controller/Selection/RowOpen.antt =====
-- `choose_next` proposes a data command only for a bank whose row is open.
use hbmsim.Prelude.{
  ℕ, suc, ◌+◌, ◌≡◌, inl, inr, refl, sym, ap, ◌∙◌, arith, Bool, true, false, not, ◌||◌, Option, none,
  some, List, [], ◌∷◌, ok, get_elem?, get_at, subst, Result-cases, Option-cases, Bool-cases,
  if◌then◌else◌, ltb, ◌==◌, All,
}
use hbmsim.Dram.Command.{
  pre_bank, command_eqb, is_data_command, to_hbm_command, to_hbm_command-to_dram_command,
}
use hbmsim.Controller.Access.{HbmAccess}
use hbmsim.Controller.Banks.Maintenance.{IsPlanned}
use hbmsim.Controller.Commands.{earliest_command}
use hbmsim.Controller.Scheduler.{SchedulerCandidate, choose}
use hbmsim.Controller.Scheduler.Choice.{In, choose-least}
use hbmsim.Controller.Selection.{
  planned, survey, candidate_of, precedes, find_waiting, defer_precharge, serves_writes, with_queue,
  queue_of, choose_next,
}
use hbmsim.Controller.State.{HbmController, Candidate}
use hbmsim.Controller.Selection.Planned.{
  IsOpenFor, planned-IsOpenFor, PlannedAt, planned-with_queue, Surveyed, survey-Surveyed,
}

-- A candidate is what is planned for the access at its place.
abbrev pub Proposes : HbmController → Candidate → Type 0
Proposes c candidate = PlannedAt c (queue_of candidate.is_write c) candidate.index candidate.command

abbrev Waits : HbmController → Option (Candidate × ℕ) → Type 0
Waits c none = Unit
Waits c (some (candidate, sequence)) = Proposes c candidate

find_waiting-Waits :
    (c : HbmController) (now bank : ℕ) (w : Bool) (index : ℕ) (q : List HbmAccess)
    (waiting r : Option (Candidate × ℕ))
    → ((j : ℕ) (a : HbmAccess)
        → get_elem? q j ≡ some a
        → get_elem? (queue_of w c) (index + j) ≡ some a)
    → Waits c waiting
    → find_waiting c now bank w index q waiting ≡ ok r
    → Waits c r
unfolding find_waiting
find_waiting-Waits c now bank w index [] waiting r k f h =
    let e : r ≡ waiting = ground arith in rw e f
find_waiting-Waits c now bank w index (a ∷ q) waiting r k f h =
    let here : get_elem? (queue_of w c) index ≡ some a =
      subst (λ x. get_elem? (queue_of w c) x ≡ some a) (omega arith) (k 0 a refl) in
    let there : (j : ℕ) (b : HbmAccess)
        → get_elem? q j ≡ some b
        → get_elem? (queue_of w c) (suc index + j) ≡ some b =
      λ j b g. subst (λ x. get_elem? (queue_of w c) x ≡ some b) (omega arith) (k (suc j) b g) in
    elim (Bool-cases (a.address.flat_bank == bank)) [
      | inr elsewhere ↦
          find_waiting-Waits c now bank w (suc index) q waiting r there f (ground arith)
      | inl same ↦ elim (Result-cases (planned c a)) [
        | inl (e, thrown) ↦ absurd (ground arith)
        | inr (command, hc) ↦ elim (Bool-cases (is_data_command command)) [
          | inr other ↦
              find_waiting-Waits c now bank w (suc index) q waiting r there f (ground arith)
          | inl data_command ↦ elim (Result-cases (earliest_command c command a.address now)) [
            | inl (e, thrown) ↦ absurd (ground arith)
            | inr (ready, hr) ↦
                let found : Candidate = record {
                  is_write = w;
                  index = index;
                  command = command;
                  ready_at = ready;
                  priority = 2;
                } in
                elim (Bool-cases (precedes ready a.sequence waiting)) [
                  | inl sooner ↦
                      find_waiting-Waits c now bank w (suc index) q (some (found, a.sequence)) r
                        there (a, here, hc) (ground arith)
                  | inr later ↦
                      find_waiting-Waits c now bank w (suc index) q waiting r there f (ground arith)
                ]
          ]
        ]
      ]
    ]

defer_precharge-Proposes :
    (c : HbmController) (now : ℕ) (candidate r : Candidate)
    → Proposes c candidate
    → defer_precharge c now candidate ≡ ok r
    → Proposes c r
unfolding defer_precharge
defer_precharge-Proposes c now candidate r k h =
    elim (Bool-cases (ltb now candidate.ready_at || not (command_eqb candidate.command pre_bank))) [
      | inl at_once ↦ let e : r ≡ candidate = ground arith in rw e k
      | inr deferred ↦
          elim (Result-cases
            (get_at (if candidate.is_write then c.write_queue else c.read_queue) candidate.index)) [
              | inl (e, thrown) ↦ absurd (ground arith)
              | inr (a, ha) ↦
                  elim (Result-cases
                    (find_waiting c now a.address.flat_bank false 0 c.read_queue none)) [
                      | inl (e, thrown) ↦ absurd (ground arith)
                      | inr (reads, hr) ↦
                          elim (Result-cases
                            (find_waiting c now a.address.flat_bank true 0 c.write_queue reads)) [
                              | inl (e, thrown) ↦ absurd (ground arith)
                              | inr (none, hw) ↦ let e : r ≡ candidate = ground arith in rw e k
                              | inr (some (found, sequence), hw) ↦
                                  let first =
                                    find_waiting-Waits c now a.address.flat_bank false 0
                                      c.read_queue none reads
                                      (λ j b g.
                                        subst (λ x. get_elem? c.read_queue x ≡ some b) (omega arith)
                                          g)
                                      tt hr in
                                  let second =
                                    find_waiting-Waits c now a.address.flat_bank true 0
                                      c.write_queue reads (some (found, sequence))
                                      (λ j b g.
                                        subst (λ x. get_elem? c.write_queue x ≡ some b)
                                          (omega arith) g)
                                      first hw in
                                  let e : r ≡ found = ground arith in rw e second
                            ]
                    ]
            ]
    ]

All-In :
    (P : SchedulerCandidate → Type 0) (x : SchedulerCandidate) (xs : List SchedulerCandidate)
    → All P xs
    → In x xs
    → P x
All-In P x [] all i = elim i [ ]
All-In P x (y ∷ ys) all (inl e) = subst P (sym e) all.0
All-In P x (y ∷ ys) all (inr i) = All-In P x ys all.1 i

choose-In :
    (c : HbmController) (now : ℕ) (cs : List SchedulerCandidate) (s : SchedulerCandidate)
    → choose c.config.scheduler cs now ≡ some s
    → In s cs
unfolding choose
choose-In c now [] s h = absurd (ground arith)
choose-In c now (x ∷ cs) s h =
    let l = choose-least c.config.scheduler now x cs in
    let e : l.0 ≡ s = ground (arith, l.1) in subst (λ y. In y (x ∷ cs)) e l.2

queue_of-with_queue :
    (w : Bool) (q : List HbmAccess) (c : HbmController) → queue_of w (with_queue w q c) ≡ q
queue_of-with_queue true q c = refl
queue_of-with_queue false q c = refl

config-with_queue :
    (w : Bool) (q : List HbmAccess) (c : HbmController) → (with_queue w q c).config ≡ c.config
config-with_queue true q c = refl
config-with_queue false q c = refl

Surveyed-Proposes :
    (c : HbmController) (w : Bool) (q : List HbmAccess) (s : SchedulerCandidate)
    → Surveyed c w q 0 s
    → Proposes (with_queue w q c) (candidate_of s)
unfolding candidate_of
Surveyed-Proposes c w q s k =
    let command : to_hbm_command s.command ≡ k.command =
      to_hbm_command-to_dram_command.0 k.command s.command k.generic in
    let index : s.queue_index ≡ k.place = omega (arith, k.index) in
    let queue : queue_of s.is_write (with_queue w q c) ≡ q =
      ap (λ x. queue_of x (with_queue w q c)) k.same_queue ∙ queue_of-with_queue w q c in
    rw (command, index, queue) (k.at.0, k.at.1, planned-with_queue w q c k.at.0 ∙ k.at.2)

-- In a controller without a standard, or with one of the three, a data command that `choose_next` proposes is for
-- an access that stands at the proposed place of its queue, and the access's bank has its row open: what
-- `issue` demands of a data command holds.
pub choose_next-IsOpenFor :
    (c c' : HbmController) (now : ℕ) (candidate : Candidate)
    → IsPlanned c.config.standard
    → choose_next c now ≡ ok (some candidate, c')
    → is_data_command candidate.command ≡ true
    → (a : HbmAccess) × (get_elem? (queue_of candidate.is_write c') candidate.index ≡ some a)
      × IsOpenFor c' a
unfolding choose_next
choose_next-IsOpenFor c c' now candidate v h d =
    let w = serves_writes c in
    elim (Result-cases (survey c w now 0 (queue_of w c))) [
      | inl (e, thrown) ↦ absurd (ground arith)
      | inr ((cs, q), hs) ↦
          let marked = with_queue w q c in
          elim (Option-cases (choose c.config.scheduler cs now)) [
            | inl nothing ↦ absurd (ground arith)
            | inr (s, hc) ↦ elim (Result-cases (defer_precharge marked now (candidate_of s))) [
              | inl (e, thrown) ↦ absurd (ground arith)
              | inr (r, hd) ↦
                  let all = survey-Surveyed c w now 0 (queue_of w c) q cs hs in
                  let k =
                    Surveyed-Proposes c w q s
                      (All-In (Surveyed c w q 0) s cs all (choose-In c now cs s hc)) in
                  let p = defer_precharge-Proposes marked now (candidate_of s) r k hd in
                  let same : (r ≡ candidate) × (c' ≡ marked) = ground arith in
                  let v' : IsPlanned marked.config.standard =
                    subst (λ x. IsPlanned x.standard) (sym (config-with_queue w q c)) v in
                  let d' : is_data_command r.command ≡ true = rw same.0 d in
                  let o = planned-IsOpenFor marked p.0 r.command v' p.2 d' in
                  rw (← same.0, same.1) (p.0, p.1, o)
            ]
          ]
    ]
