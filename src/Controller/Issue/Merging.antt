-- ===== src/Controller/Issue/Merging.antt =====
-- The reads that leave with another's data command in `HbmController::issue`.
use hbmsim.Prelude.{
  ℕ, ◌≤◌, ◌≡◌, refl, ◌∙◌, ap, arith, Bool, true, false, some, List, [], ◌∷◌, map, ok, get_elem?,
  set, u64_max, All,
}
use hbmsim.Controller.Access.{LogicalAccess, HbmAccess, LogicalCompletion}
use hbmsim.Controller.Commands.Frame.{record_issue-Same}
use hbmsim.Controller.Issue.{classify, erase_at, issue}
use hbmsim.Controller.Issue.Sharing.{
  HasWordAddress, logicals, Merges, merge_with-Merges, Merges-same,
}
use hbmsim.Controller.Issue.Branches.{
  leavers, physical, issue_data-Sent, begun, issue-Begins, queue_of-with_queue,
}
use hbmsim.Controller.Issue.Latency.{issue_command-data, finish_item-logical}
use hbmsim.Controller.Issue.Survivors.{All-get, config-with_queue}
use hbmsim.Controller.Selection.{queue_of, with_queue}
use hbmsim.Statistics.{HbmStats}
use hbmsim.Controller.State.{HbmController, HbmControllerConfig, Candidate, PhysicalAccess}
use hbmsim.Controller.Transfers.{Transfer, completion_of, begin_access}

classify-logical : (a : HbmAccess) → (classify a).logical ≡ a.logical
unfolding classify
classify-logical a = ground arith

begun-logical : (now : ℕ) (a : HbmAccess) → (begun now a).logical ≡ a.logical
unfolding begin_access
begun-logical now a = ground arith

completions_logical :
    (config : HbmControllerConfig) (x : Transfer) (q : List HbmAccess)
    → map (λ (l : LogicalCompletion). l.logical) (map (completion_of config x) q) ≡ logicals q
unfolding completion_of
completions_logical config x [] = refl
completions_logical config x (a ∷ q) =
    rw (finish_item-logical x a, completions_logical config x q) refl

reads_only :
    (c : HbmController) (w : Bool) (q : List HbmAccess) (stats : HbmStats)
    → w ≡ false
    → (with_queue w q (record c { stats = stats })).write_queue ≡ c.write_queue
reads_only c true q stats e = absurd (ground arith)
reads_only c false q stats e = refl

-- What leaves with a data command is the access at the proposed place of its queue and others that merge
-- with it, as long as the byte addresses of the queued accesses fit 64 bits. Nothing merges if the access
-- is a write, if merging is not enabled, or if a queued write of its ordering domain overlaps its bytes;
-- otherwise what leaves with it are reads of the same bytes, bank, row and column in its ordering domain,
-- and no such read stays in the queue.
pub issue-Merges :
    (c c' : HbmController) (candidate : Candidate) (now : ℕ) (r : PhysicalAccess)
    → All HasWordAddress (queue_of candidate.is_write c)
    → All HasWordAddress c.write_queue
    → issue c candidate now ≡ ok (some r, c')
    → (a : HbmAccess) × (others : List LogicalAccess) × (get_elem?
          (queue_of candidate.is_write c)
          candidate.index
        ≡ some a)
      × (map (λ (l : LogicalCompletion). l.logical) r.completions ≡ a.logical ∷ others)
      × Merges c.config.enable_request_merging c.write_queue candidate.is_write a.logical others
          (queue_of candidate.is_write c')
unfolding classify
issue-Merges c c' candidate now r words writes h =
    let b = issue-Begins c candidate now (some r) c' h in
    let w = candidate.is_write in
    let i = candidate.index in
    let a = begun now b.a in
    let f = record_issue-Same _ _ _ _ _ _ b.recorded in
    let sent = issue_command-data b.noted candidate a b.bank b.bank_index now r c' b.branch in
    let s =
      issue_data-Sent b.noted w i candidate.command a b.bank b.bank_index now (some r) c' sent in
    let same : r ≡ physical b.noted w i candidate.command a b.bank b.bank_index now s.x = cc in
    let left = (leavers b.noted w i candidate.command a b.bank b.bank_index now).0 in
    let lead : (classify a).logical ≡ b.a.logical = classify-logical a ∙ begun-logical now b.a in
    let word : (classify a).byte_address ≤ u64_max =
      rw lead (All-get HasWordAddress (queue_of w c) i b.a words b.queued) in
    let unchanged : w ≡ false → b.noted.write_queue ≡ c.write_queue =
      λ e. f.write_queue ∙ reads_only c w (set (queue_of w c) i a) b.waited e in
    let parts = leavers b.noted w i candidate.command a b.bank b.bank_index now in
    let m =
      merge_with-Merges b.noted w (classify a) (erase_at (queue_of w b.noted) i) word
        (λ e. rw (unchanged e) writes) in
    let stays : queue_of w c' ≡ parts.1 = rw s.state (queue_of-with_queue w parts.1 _) in
    let enabled : b.noted.config.enable_request_merging ≡ c.config.enable_request_merging =
      ap (λ (config : HbmControllerConfig). config.enable_request_merging)
        (f.config ∙ config-with_queue w (set (queue_of w c) i a) (record c { stats = b.waited })) in
    (
      b.a,
      logicals left,
      b.queued,
      ap (λ (p : PhysicalAccess). map (λ (l : LogicalCompletion). l.logical) p.completions) same
          ∙ completions_logical b.noted.config s.x (classify a ∷ left)
          ∙ ap (λ l. l ∷ logicals left) lead,
      Merges-same _ _ c.write_queue b.noted.write_queue w _ _ _ _ _ unchanged enabled lead stays m,
    )
