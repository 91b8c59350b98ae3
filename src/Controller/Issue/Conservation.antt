-- ===== src/Controller/Issue/Conservation.antt =====
-- `issue` neither loses nor doubles an access.
use hbmsim.Prelude.{
  ℕ, zero, suc, ◌+◌, ◌≡◌, inl, inr, refl, ap, arith, Bool, true, false, Option, none, some, List,
  [], ◌∷◌, map, ok, get_elem?, set, if◌then◌else◌, ◌||◌, any, Bool-cases, Result-cases,
}
use hbmsim.Dram.Command.{act, pre_bank, pre_all, command_eqb, HbmCommand}
use hbmsim.Dram.Standard.{HbmBankState, differs}
use hbmsim.Controller.Banks.{apply_to_banks, change_bank}
use hbmsim.Controller.Commands.Frame.{record_issue-Same}
use hbmsim.Controller.Access.{
  LogicalAccess, HbmAccess, HbmAccessClass, row_conflict, LogicalCompletion, can_merge,
}
use hbmsim.Controller.Issue.{
  classify, merge_with, merge_queue, overlaps, erase_at, issue_act, issue_precharge, issue_data,
  issue_command, issue, count_activation,
}
use hbmsim.Controller.Transfers.{Transfer, begin_access, finish_item, completion_of}
use hbmsim.Controller.Issue.Branches.{issue_data-Sent, leavers, begun, issue-Begins, begun-queued}
use hbmsim.Controller.Selection.{with_queue, queue_of}
use hbmsim.Controller.State.{HbmController, HbmControllerConfig, Candidate, PhysicalAccess}

module _ (p : LogicalAccess → Bool) where
  abbrev pub one : LogicalAccess → ℕ
  one l = if p l then 1 else 0

  -- How many accesses satisfy a test: in a queue, among completions, and in a controller.
  unfoldable pub tally : List HbmAccess → ℕ
  tally [] = 0
  tally (a ∷ queue) = one a.logical + tally queue

  unfoldable pub tally_done : List LogicalCompletion → ℕ
  tally_done [] = 0
  tally_done (a ∷ done) = one a.logical + tally_done done

  abbrev pub queued : HbmController → ℕ
  queued c = tally c.read_queue + tally c.write_queue

  abbrev pub done : Option PhysicalAccess → ℕ
  done none = 0
  done (some x) = tally_done x.completions

  tally-set :
      (q : List HbmAccess) (i : ℕ) (a b : HbmAccess)
      → get_elem? q i ≡ some a
      → b.logical ≡ a.logical
      → tally (set q i b) ≡ tally q
  unfolding tally
  tally-set [] i a b h e = refl
  tally-set (x ∷ q) zero a b h e = ground (arith, h, e)
  tally-set (x ∷ q) (suc i) a b h e = ground (arith, tally-set q i a b h e)

  tally-erase_at :
      (q : List HbmAccess) (i : ℕ) (a : HbmAccess)
      → get_elem? q i ≡ some a
      → tally q ≡ one a.logical + tally (erase_at q i)
  unfolding tally erase_at
  tally-erase_at [] i a h = cc
  tally-erase_at (x ∷ q) zero a h = ground (arith, h)
  tally-erase_at (x ∷ q) (suc i) a h = omega (arith, tally-erase_at q i a h)

  tally-merge_queue :
      (enabled : Bool) (leader : LogicalAccess) (class : HbmAccessClass) (q : List HbmAccess)
      → tally (merge_queue enabled leader class q).0 + tally (merge_queue enabled leader class q).1
        ≡ tally q
  unfolding tally merge_queue
  tally-merge_queue enabled leader class [] = refl
  tally-merge_queue enabled leader class (a ∷ q) =
      elim (Bool-cases (can_merge enabled leader a.logical)) [
        | inl e ↦ ground (arith, tally-merge_queue enabled leader class q)
        | inr e ↦ ground (arith, tally-merge_queue enabled leader class q)
      ]

  tally-merge_with :
      (c : HbmController) (w : Bool) (a : HbmAccess) (q : List HbmAccess)
      → tally (merge_with c w a q).0 + tally (merge_with c w a q).1 ≡ tally q
  unfolding tally merge_with
  tally-merge_with c w a q = elim (Bool-cases (w || any (overlaps a.logical) c.write_queue)) [
    | inl e ↦ ground arith
    | inr e ↦
        ground (arith, tally-merge_queue c.config.enable_request_merging a.logical a.access_class q)
  ]

  begin_access-logical : (now : ℕ) (a : HbmAccess) → (begin_access now a).logical ≡ a.logical
  unfolding begin_access
  begin_access-logical now a = ground arith

  tally_done-map :
      (config : HbmControllerConfig) (x : Transfer) (q : List HbmAccess)
      → tally_done (map (completion_of config x) q) ≡ tally q
  unfolding tally tally_done completion_of finish_item
  tally_done-map config x [] = refl
  tally_done-map config x (a ∷ q) =
      let e = begin_access-logical x.issued_at a in rw (e, tally_done-map config x q) refl

  classify-logical : (a : HbmAccess) → (classify a).logical ≡ a.logical
  unfolding classify
  classify-logical a = ground arith

  -- The queues after one of them is replaced.
  pub queued-with_queue :
      (w : Bool) (q : List HbmAccess) (c d : HbmController)
      → d.read_queue ≡ c.read_queue
      → d.write_queue ≡ c.write_queue
      → queued (with_queue w q d) + tally (queue_of w c) ≡ queued c + tally q
  queued-with_queue true q c d h g = omega (arith, ap tally h, ap tally g)
  queued-with_queue false q c d h g = omega (arith, ap tally h, ap tally g)

  issue_data-queued :
      (c : HbmController) (w : Bool) (i : ℕ) (command : HbmCommand) (a : HbmAccess)
      (bank : HbmBankState) (bi now : ℕ) (r : Option PhysicalAccess) (c' : HbmController)
      → get_elem? (queue_of w c) i ≡ some a
      → issue_data c w i command a bank bi now ≡ ok (r, c')
      → queued c ≡ done r + queued c'
  unfolding tally tally_done
  issue_data-queued c w i command a bank bi now r c' g h =
      let s = issue_data-Sent c w i command a bank bi now r c' h in
      let items = leavers c w i command a bank bi now in
      let e1 = tally-erase_at (queue_of w c) i a g in
      let e2 = tally-merge_with c w (classify a) (erase_at (queue_of w c) i) in
      let e3 = tally_done-map c.config s.x (classify a ∷ items.0) in
      let e4 : queued c' + tally (queue_of w c) ≡ queued c + tally items.1 =
        rw s.state (queued-with_queue w items.1 c _ refl refl) in
      let e5 : done r ≡ one a.logical + tally items.0 =
        rw (s.result, e3, classify-logical a) refl in
      omega (arith, e1, e2, e4, e5)

  issue_act-queued :
      (c : HbmController) (w : Bool) (i : ℕ) (a : HbmAccess) (bi : ℕ) (r : Option PhysicalAccess)
      (c' : HbmController)
      → get_elem? (queue_of w c) i ≡ some a
      → issue_act c w i a bi ≡ ok (r, c')
      → queued c ≡ done r + queued c'
  unfolding issue_act
  issue_act-queued c w i a bi r c' g h =
      elim (Result-cases (apply_to_banks c.config.standard act a.address.row bi c.banks)) [
        | inl (e, thrown) ↦ absurd (ground arith)
        | inr (opened, ho) ↦
            elim (Result-cases (change_bank (λ b. ok (count_activation c.config b)) bi opened)) [
              | inl (e, thrown) ↦ absurd (ground arith)
              | inr (banks, hb) ↦
                  let b = record a { activated = true } in
                  let next = with_queue w (set (queue_of w c) i b) (record c { banks = banks }) in
                  let e : issue_act c w i a bi ≡ ok (none, next) = ground arith in
                  let e4 =
                    queued-with_queue w (set (queue_of w c) i b) c (record c { banks = banks }) refl
                      refl in
                  let e5 = tally-set (queue_of w c) i a b g refl in
                  let er : r ≡ none = cc in
                  let ec : c' ≡ next = cc in rw (er, ec) (omega (arith, e4, e5))
            ]
      ]

  issue_precharge-queued :
      (c : HbmController) (w : Bool) (i : ℕ) (command : HbmCommand) (a : HbmAccess)
      (bank : HbmBankState) (bi : ℕ) (r : Option PhysicalAccess) (c' : HbmController)
      → get_elem? (queue_of w c) i ≡ some a
      → issue_precharge c w i command a bank bi ≡ ok (r, c')
      → queued c ≡ done r + queued c'
  unfolding issue_precharge
  issue_precharge-queued c w i command a bank bi r c' g h =
      elim (Result-cases (apply_to_banks c.config.standard command a.address.row bi c.banks)) [
        | inl (e, thrown) ↦ absurd (ground arith)
        | inr (banks, hb) ↦
            let b =
              if differs bank.open_row a.address.row
              then record a { access_class = row_conflict }
              else a in
            let next = with_queue w (set (queue_of w c) i b) (record c { banks = banks }) in
            let e : issue_precharge c w i command a bank bi ≡ ok (none, next) = ground arith in
            let e4 =
              queued-with_queue w (set (queue_of w c) i b) c (record c { banks = banks }) refl
                refl in
            let e5 = tally-set (queue_of w c) i a b g (ground arith) in
            let er : r ≡ none = cc in let ec : c' ≡ next = cc in rw (er, ec) (omega (arith, e4, e5))
      ]

  issue_command-queued :
      (c : HbmController) (candidate : Candidate) (a : HbmAccess) (bank : HbmBankState) (bi now : ℕ)
      (r : Option PhysicalAccess) (c' : HbmController)
      → get_elem? (queue_of candidate.is_write c) candidate.index ≡ some a
      → issue_command c candidate a bank bi now ≡ ok (r, c')
      → queued c ≡ done r + queued c'
  unfolding issue_command
  issue_command-queued c candidate a bank bi now r c' g h =
      elim (Bool-cases (command_eqb candidate.command act)) [
        | inl e ↦ issue_act-queued c candidate.is_write candidate.index a bi r c' g (ground arith)
        | inr e ↦
            elim (Bool-cases
              (command_eqb candidate.command pre_bank || command_eqb candidate.command pre_all)) [
                | inl f ↦
                    issue_precharge-queued c candidate.is_write candidate.index candidate.command a
                      bank bi r c' g (ground arith)
                | inr f ↦
                    issue_data-queued c candidate.is_write candidate.index candidate.command a bank
                      bi now r c' g (ground arith)
              ]
      ]

  -- A call of `issue` that returns conserves the accesses: of those with any property, as many stood in
  -- the two queues as stand there afterwards or have left with the data that was sent.
  pub issue-conserves :
      (c c' : HbmController) (candidate : Candidate) (now : ℕ) (r : Option PhysicalAccess)
      → issue c candidate now ≡ ok (r, c')
      → queued c ≡ done r + queued c'
  issue-conserves c c' candidate now r h =
      let b = issue-Begins c candidate now r c' h in
      let e1 =
        issue_command-queued b.noted candidate (begun now b.a) b.bank b.bank_index now r c'
          (begun-queued c candidate now r c' b) b.branch in
      let s = record_issue-Same _ _ _ _ _ _ b.recorded in
      let q = set (queue_of candidate.is_write c) candidate.index (begun now b.a) in
      let e2 =
        tally-set (queue_of candidate.is_write c) candidate.index b.a (begun now b.a) b.queued
          (begin_access-logical now b.a) in
      let e3 = queued-with_queue candidate.is_write q c (record c { stats = b.waited }) refl refl in
      omega (arith, e1, e2, e3, ap tally s.read_queue, ap tally s.write_queue)
