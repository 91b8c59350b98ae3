-- ===== src/Controller/Drive/Conservation.antt =====
-- A step of the controller neither loses nor doubles an access.
use hbmsim.Prelude.{
  ℕ, suc, ◌+◌, ◌≡◌, inl, inr, refl, ap, ◌∙◌, arith, Bool, true, Option, none, some, List, [], ◌∷◌,
  ok, if◌then◌else◌, ltb, ◌==◌, Bool-cases, Result-cases, length, add32,
}
use hbmsim.Statistics.{HbmStats}
use hbmsim.Dram.Command.{
  HbmCommand, refresh_all_bank, refresh_per_bank, rfm_all_bank, rfm_per_bank, to_dram_command,
}
use hbmsim.Controller.Access.{LogicalAccess, HbmAccess}
use hbmsim.Mapping.{bank_address}
use hbmsim.Controller.Banks.{apply_to_banks}
use hbmsim.Controller.Commands.{earliest_command, record_issue}
use hbmsim.Controller.Commands.Frame.{record_issue-Same}
use hbmsim.Controller.Drive.{account_stall, drive_queues, drive_idle, drive}
use hbmsim.Controller.Issue.{issue}
use hbmsim.Controller.Issue.Conservation.{tally, queued, done, issue-conserves, queued-with_queue}
use hbmsim.Controller.Refresh.{choose_maintenance, issue_maintenance, settle}
use hbmsim.Controller.Scheduler.{SchedulerCandidate}
use hbmsim.Controller.Selection.{
  is_starved, starve_one, starve_queue, update_starvation, planned, mark_eligible, survey,
  serves_writes, queue_of, with_queue, choose_next,
}
use hbmsim.Controller.State.{
  HbmController, HbmControllerStep, MaintenanceCandidate, Candidate, write_drain,
}
use hbmsim.Controller.WriteDrain.{update_write_drain}

mark_eligible-logical :
    (ready now : ℕ) (a : HbmAccess) → (mark_eligible ready now a).logical ≡ a.logical
unfolding mark_eligible
mark_eligible-logical ready now a = ground arith

module _ (p : LogicalAccess → Bool) where
  tally-starve_queue :
      (channel threshold now : ℕ) (q q' : List HbmAccess) (s s' : HbmStats)
      → starve_queue channel threshold now q s ≡ ok (q', s')
      → tally p q' ≡ tally p q
  unfolding starve_queue tally
  tally-starve_queue channel threshold now [] q' s s' h = let e : q' ≡ [] = cc in rw e refl
  tally-starve_queue channel threshold now (a ∷ q) q' s s' h =
      elim (Result-cases (starve_one channel threshold now a s)) [
        | inl (e, thrown) ↦ absurd (ground arith)
        | inr (counted, hc) ↦ elim (Result-cases (starve_queue channel threshold now q counted)) [
          | inl (e, thrown) ↦ absurd (ground arith)
          | inr (rest, hs) ↦
              let ih = tally-starve_queue channel threshold now q rest.0 counted rest.1 hs in
              let e : q'
                  ≡ (if is_starved threshold now a
                      then record a { starvation_reported = true }
                      else a)
                    ∷ rest.0 =
                ground arith in
              rw e (ground (arith, ih))
        ]
      ]

  update_starvation-queued :
      (c c' : HbmController) (now : ℕ) → update_starvation c now ≡ ok c' → queued p c' ≡ queued p c
  unfolding update_starvation
  update_starvation-queued c c' now h = elim (Bool-cases (c.config.starvation_threshold == 0)) [
    | inl e ↦ let same : c' ≡ c = ground arith in rw same refl
    | inr e ↦
        elim (Result-cases
          (starve_queue c.config.channel c.config.starvation_threshold now c.read_queue c.stats)) [
            | inl (x, thrown) ↦ absurd (ground arith)
            | inr (reads, hr) ↦
                elim (Result-cases (
                  starve_queue c.config.channel c.config.starvation_threshold now c.write_queue
                    reads.1)) [
                      | inl (x, thrown) ↦ absurd (ground arith)
                      | inr (writes, hw) ↦
                          let r =
                            tally-starve_queue c.config.channel c.config.starvation_threshold now
                              c.read_queue reads.0 c.stats reads.1 hr in
                          let w =
                            tally-starve_queue c.config.channel c.config.starvation_threshold now
                              c.write_queue writes.0 reads.1 writes.1 hw in
                          let same : c' ≡ record c {
                            read_queue = reads.0;
                            write_queue = writes.0;
                            stats = writes.1;
                          } =
                            ground arith in
                          rw same (omega (arith, r, w))
                    ]
          ]
  ]

  tally-survey :
      (c : HbmController) (w : Bool) (now index : ℕ) (q q' : List HbmAccess)
      (cs : List SchedulerCandidate)
      → survey c w now index q ≡ ok (cs, q')
      → (tally p q' ≡ tally p q) × (length cs ≡ length q)
  unfolding survey tally
  tally-survey c w now index [] q' cs h = ground arith
  tally-survey c w now index (a ∷ q) q' cs h = elim (Result-cases (planned c a)) [
    | inl (e, thrown) ↦ absurd (ground arith)
    | inr (command, hc) ↦ elim (Result-cases (earliest_command c command a.address now)) [
      | inl (e, thrown) ↦ absurd (ground arith)
      | inr (ready, hr) ↦ elim (Result-cases (to_dram_command command)) [
        | inl (e, thrown) ↦ absurd (ground arith)
        | inr (generic, hg) ↦ elim (Result-cases (survey c w now (suc index) q)) [
          | inl (e, thrown) ↦ absurd (ground arith)
          | inr (rest, hs) ↦
              let ih = tally-survey c w now (suc index) q rest.1 rest.0 hs in
              let eq : q' ≡ mark_eligible ready now a ∷ rest.1 = ground arith in
              let ec : length cs ≡ suc (length rest.0) = ground arith in
              rw (eq, ec)
                (rw (mark_eligible-logical ready now a) (omega (arith, ih)), omega (arith, ih))
        ]
      ]
    ]
  ]

  choose_next-queued :
      (c c' : HbmController) (now : ℕ) (r : Option Candidate)
      → choose_next c now ≡ ok (r, c')
      → queued p c' ≡ queued p c
  unfolding choose_next
  choose_next-queued c c' now r h =
      let w = serves_writes c in
      elim (Result-cases (survey c w now 0 (queue_of w c))) [
        | inl (x, thrown) ↦ absurd (ground arith)
        | inr (surveyed, hs) ↦
            let t = tally-survey c w now 0 (queue_of w c) surveyed.1 surveyed.0 hs in
            let q = queued-with_queue p w surveyed.1 c c refl refl in
            let same : c' ≡ with_queue w surveyed.1 c = ground arith in
            rw same (omega (arith, q, t.0))
      ]

-- Maintenance does not touch the queues.
abbrev SameQueues : HbmController → HbmController → Type 0
SameQueues c c' = (c'.read_queue ≡ c.read_queue) × (c'.write_queue ≡ c.write_queue)

settle-SameQueues :
    (c c' : HbmController) (requested : HbmCommand) (index : ℕ)
    → settle c requested index ≡ ok c'
    → SameQueues c c'
unfolding settle
settle-SameQueues c c' refresh_all_bank index h = ground arith
settle-SameQueues c c' refresh_per_bank index h = ground arith
settle-SameQueues c c' rfm_all_bank index h = ground arith
settle-SameQueues c c' rfm_per_bank index h = ground arith
settle-SameQueues c c' _ index h = cc

issue_maintenance-SameQueues :
    (c c' : HbmController) (m : MaintenanceCandidate) (now : ℕ)
    → issue_maintenance c m now ≡ ok c'
    → SameQueues c c'
unfolding issue_maintenance
issue_maintenance-SameQueues c c' m now h =
    elim (Result-cases (bank_address c.mapper (add32 c.config.first_flat_bank m.local_bank))) [
      | inl (x, thrown) ↦ absurd (ground arith)
      | inr (address, ha) ↦
          elim (Result-cases (record_issue c m.command address m.local_bank now)) [
            | inl (x, thrown) ↦ absurd (ground arith)
            | inr (noted, hn) ↦
                elim (Result-cases
                  (apply_to_banks c.config.standard m.command 0 m.local_bank noted.banks)) [
                    | inl (x, thrown) ↦ absurd (ground arith)
                    | inr (banks, hb) ↦
                        let s = record_issue-Same c noted m.command address m.local_bank now hn in
                        elim (Bool-cases m.final_command) [
                          | inr e ↦
                              let same : c' ≡ record noted { banks = banks } = ground arith in
                              rw same (s.read_queue, s.write_queue)
                          | inl e ↦
                              elim (Result-cases (
                                settle (record noted { banks = banks }) m.requested m.local_bank)) [
                                  | inl (x, thrown) ↦ absurd (ground arith)
                                  | inr (settled, hs) ↦
                                      let k =
                                        settle-SameQueues (record noted { banks = banks }) settled
                                          m.requested m.local_bank hs in
                                      let r : c'.read_queue ≡ settled.read_queue = ground arith in
                                      let w : c'.write_queue ≡ settled.write_queue = ground arith in
                                      (r ∙ k.0 ∙ s.read_queue, w ∙ k.1 ∙ s.write_queue)
                                ]
                        ]
                  ]
          ]
    ]

account_stall-SameQueues :
    (c c' : HbmController) (now : ℕ) → account_stall c now ≡ ok c' → SameQueues c c'
unfolding account_stall
account_stall-SameQueues c c' now h = ground arith

module _ (p : LogicalAccess → Bool) where
  queued-Same : (c c' : HbmController) → SameQueues c c' → queued p c' ≡ queued p c
  queued-Same c c' s = omega (arith, ap (tally p) s.0, ap (tally p) s.1)

  drive_queues-conserves :
      (c c' : HbmController) (now : ℕ) (step : HbmControllerStep)
      → drive_queues c now ≡ ok (step, c')
      → queued p c ≡ done p step.issued_access + queued p c'
  unfolding drive_queues
  drive_queues-conserves c c' now step h =
      let drained = record c {
        draining_writes =
            (update_write_drain (write_drain c) (length c.write_queue)).draining_writes;
      } in
      elim (Result-cases (choose_next drained now)) [
        | inl (x, thrown) ↦ absurd (ground arith)
        | inr ((none, marked), hc) ↦
            let k = choose_next-queued p drained marked now none hc in
            let e : (step.issued_access ≡ none) × (c' ≡ marked) = ground arith in
            rw (e.0, e.1) (omega (arith, k))
        | inr ((some candidate, marked), hc) ↦
            let k = choose_next-queued p drained marked now (some candidate) hc in
            elim (Bool-cases (ltb now candidate.ready_at)) [
              | inl wait ↦
                  let e : (step.issued_access ≡ none) × (c' ≡ marked) = ground arith in
                  rw (e.0, e.1) (omega (arith, k))
              | inr ready ↦ elim (Result-cases (issue marked candidate now)) [
                | inl (x, thrown) ↦ absurd (ground arith)
                | inr ((r, issued), hi) ↦
                    let i = issue-conserves p marked issued candidate now r hi in
                    let e : (step.issued_access ≡ r) × (c' ≡ issued) = ground arith in
                    rw (e.0, e.1) (omega (arith, k, i))
              ]
            ]
      ]

  drive_idle-conserves :
      (c c' : HbmController) (now : ℕ) (step : HbmControllerStep)
      → drive_idle c now ≡ ok (step, c')
      → queued p c ≡ done p step.issued_access + queued p c'
  unfolding drive_idle
  drive_idle-conserves c c' now step h = elim (Result-cases (choose_maintenance c now)) [
    | inl (x, thrown) ↦ absurd (ground arith)
    | inr (none, hm) ↦ drive_queues-conserves c c' now step (ground arith)
    | inr (some m, hm) ↦ elim (Bool-cases (ltb now m.ready_at)) [
      | inl wait ↦
          let e : (step.issued_access ≡ none) × (c' ≡ c) = ground arith in
          rw (e.0, e.1) (omega arith)
      | inr ready ↦ elim (Result-cases (issue_maintenance c m now)) [
        | inl (x, thrown) ↦ absurd (ground arith)
        | inr (issued, hi) ↦
            let s = queued-Same c issued (issue_maintenance-SameQueues c issued m now hi) in
            let e : (step.issued_access ≡ none) × (c' ≡ issued) = ground arith in
            rw (e.0, e.1) (omega (arith, s))
      ]
    ]
  ]

  -- A step of a controller conserves the accesses: of those with any property, as many stood in its two
  -- queues as stand there afterwards or have left with the data that the step issued.
  pub drive-conserves :
      (c c' : HbmController) (now : ℕ) (step : HbmControllerStep)
      → drive c now ≡ ok (step, c')
      → queued p c ≡ done p step.issued_access + queued p c'
  unfolding drive
  drive-conserves c c' now step h = elim (Result-cases (update_starvation c now)) [
    | inl (x, thrown) ↦ absurd (ground arith)
    | inr (starved, hs) ↦
        let u = update_starvation-queued p c starved now hs in
        elim (Bool-cases (ltb now starved.refresh_busy_until)) [
          | inr free ↦
              let d = drive_idle-conserves starved c' now step (ground arith) in omega (arith, u, d)
          | inl busy ↦ elim (Result-cases (account_stall starved now)) [
            | inl (x, thrown) ↦ absurd (ground arith)
            | inr (stalled, ha) ↦
                let s =
                  queued-Same starved stalled (account_stall-SameQueues starved stalled now ha) in
                let e : (step.issued_access ≡ none) × (c' ≡ stalled) = ground arith in
                rw (e.0, e.1) (omega (arith, u, s))
          ]
        ]
  ]
