-- ===== src/Controller/Issue/Latency.antt =====
-- The stages of an access's latency add up (include/hbmsim/stats.h).
use hbmsim.Prelude.{
  ℕ, ◌+◌, ◌-◌, ◌≤◌, ◌≡◌, ◌≢◌, ◌⊎◌, inl, inr, sym, ap, ◌∙◌, subst, arith, Bool, true, false, some,
  List, [], ◌∷◌, map, Result, ok, err, All, get_elem?, set, u64_max, ◌||◌, Bool-cases, max,
}
use hbmsim.Bandwidth.{transfer_time}
use hbmsim.Dram.Command.{act, pre_bank, pre_all, command_eqb, HbmCommand}
use hbmsim.Dram.Standard.{HbmBankState}
use hbmsim.Statistics.{total}
use hbmsim.Controller.Access.{LogicalAccess, HbmAccess, HbmAccessClass, LogicalCompletion}
use hbmsim.Controller.Commands.Frame.{record_issue-Same}
use hbmsim.Controller.Issue.{
  classify, erase_at, issue_act, issue_precharge, issue_data, issue_command, issue, cas_latency_of,
}
use hbmsim.Controller.Transfers.{Transfer, completion, begin_access, finish_item, completion_of}
use hbmsim.Controller.Issue.Branches.{
  issue_data-Sent, leavers, physical, begun, begun_in, issue-Begins, begun-queued, queue_of-Same,
  queue_of-with_queue,
}
use hbmsim.Controller.Selection.{queue_of}
use hbmsim.Controller.State.{HbmController, HbmControllerConfig, Candidate, PhysicalAccess}
use hbmsim.Controller.Issue.Survivors.{
  All-get, All-set, All-erase_at, All-merge_with, get_at-All, config-with_queue, bus-with_queue,
}

-- The times of a queued access at `now`: it was queued when it arrived, and since its first command
-- its wait is known.
pub record IsTimed (now : ℕ) (a : HbmAccess) : Type 0 where
  pub arrived : a.enqueued_at ≡ a.arrival_time
  pub in_past : a.enqueued_at ≤ now
  pub now_word : now ≤ u64_max
  pub waited :
      (a.first_command_issued ≡ false)
      ⊎ ((a.enqueued_at ≤ a.first_command_at)
          × (a.first_command_at ≤ now)
          × (a.latency_breakdown.queue_wait + a.enqueued_at ≡ a.first_command_at))

-- A transfer whose times are 64-bit words.
abbrev pub Fits : Transfer → Type 0
Fits x =
    (x.issued_at + x.cas_latency ≤ u64_max)
    × (max (x.issued_at + x.cas_latency) x.bus_ready + x.duration ≤ u64_max)

begin_access_lem :
    (now : ℕ) (a : HbmAccess)
    → IsTimed now a
    → ((begin_access now a).first_command_at ≤ now)
      × ((begin_access now a).latency_breakdown.queue_wait + a.arrival_time
          ≡ (begin_access now a).first_command_at)
unfolding begin_access
begin_access_lem now a t = ground (arith, t.arrived, t.in_past, t.now_word, t.waited)

finish_item-total :
    (x : Transfer) (a : HbmAccess)
    → IsTimed x.issued_at a
    → Fits x
    → total (finish_item x a).latency_breakdown + a.arrival_time ≡ completion x
unfolding finish_item total
finish_item-total x a t f = let b = begin_access_lem x.issued_at a t in ground (arith, b, f)

IsTimed-class :
    (now : ℕ) (a : HbmAccess) (class : HbmAccessClass)
    → IsTimed now a
    → IsTimed now (record a { access_class = class })
IsTimed-class now a class t = record {
  arrived = t.arrived;
  in_past = t.in_past;
  now_word = t.now_word;
  waited = t.waited;
}

IsTimed-classify : (now : ℕ) (a : HbmAccess) → IsTimed now a → IsTimed now (classify a)
unfolding classify
IsTimed-classify now a t = record {
  arrived = ground (arith, t.arrived);
  in_past = ground (arith, t.in_past);
  now_word = t.now_word;
  waited = ground (arith, t.waited);
}

IsTimed-begun : (now : ℕ) (a : HbmAccess) → IsTimed now a → IsTimed now (begun now a)
unfolding begin_access
IsTimed-begun now a t = record {
  arrived = ground (arith, t.arrived);
  in_past = ground (arith, t.in_past);
  now_word = t.now_word;
  waited = inr (ground (arith, t.in_past, t.now_word, t.waited));
}

-- The latency of what has left, stage by stage, against the time that passed since it arrived.
abbrev pub Partitions : ℕ → LogicalCompletion → Type 0
Partitions time l = total l.latency_breakdown + l.arrival_time ≡ time

pub finish_item-logical : (x : Transfer) (a : HbmAccess) → (finish_item x a).logical ≡ a.logical
unfolding finish_item begin_access
finish_item-logical x a = ground arith

completion_of-Partitions :
    (config : HbmControllerConfig) (x : Transfer) (a : HbmAccess)
    → config.detailed_stats ≡ true
    → IsTimed x.issued_at a
    → Fits x
    → Partitions (completion x) (completion_of config x a)
unfolding completion_of
completion_of-Partitions config x a d t f =
    let arrival : (finish_item x a).arrival_time ≡ a.arrival_time =
      ap (λ (l : LogicalAccess). l.arrival_time) (finish_item-logical x a) in
    rw (d, arrival) (finish_item-total x a t f)

completions-Partitions :
    (config : HbmControllerConfig) (x : Transfer) (q : List HbmAccess)
    → config.detailed_stats ≡ true
    → All (IsTimed x.issued_at) q
    → Fits x
    → All (Partitions (completion x)) (map (completion_of config x) q)
completions-Partitions config x [] d t f = tt
completions-Partitions config x (a ∷ q) d t f =
    (completion_of-Partitions config x a d t.0 f, completions-Partitions config x q d t.1 f)

abbrev pub Within : ℕ → Result ℕ → Type 0
Within bound (ok n) = n ≤ bound
Within bound (err e) = Unit

-- No time that a transfer of a queued access could have exceeds 64 bits, when buses are ready by `limit`.
pub record HasTime (c : HbmController) (w : Bool) (now limit : ℕ) : Type 0 where
  pub limit_word : limit ≤ u64_max
  pub cas_word : now + cas_latency_of c.config w ≤ limit
  pub buses : All (λ ready. ready ≤ limit) c.data_bus_ready_at
  pub transfers :
      All
        (λ (a : HbmAccess).
          Within (u64_max - limit) (transfer_time c.config.data_rate a.size_bytes))
        (queue_of w c)

classify-size : (a : HbmAccess) → (classify a).size_bytes ≡ a.size_bytes
unfolding classify
classify-size a = ground arith

issue_data-Partitions :
    (c : HbmController) (w : Bool) (i : ℕ) (command : HbmCommand) (a : HbmAccess)
    (bank : HbmBankState) (bi now limit : ℕ) (r : PhysicalAccess) (c' : HbmController)
    → get_elem? (queue_of w c) i ≡ some a
    → c.config.detailed_stats ≡ true
    → HasTime c w now limit
    → All (IsTimed now) (queue_of w c)
    → issue_data c w i command a bank bi now ≡ ok (some r, c')
    → All (Partitions r.completion_time) r.completions
issue_data-Partitions c w i command a bank bi now limit r c' g d time timed h =
    let s = issue_data-Sent c w i command a bank bi now (some r) c' h in
    let t = All-get (IsTimed now) (queue_of w c) i a timed g in
    let same : r ≡ physical c w i command a bank bi now s.x = cc in
    let ready : s.x.bus_ready ≤ limit =
      get_at-All (λ ready. ready ≤ limit) c.data_bus_ready_at _ s.x.bus_ready time.buses s.bus in
    let takes : s.x.duration ≤ u64_max - limit =
      let size : (classify a).size_bytes ≡ a.size_bytes = classify-size a in
      let takes : transfer_time c.config.data_rate a.size_bytes ≡ ok s.x.duration =
        rw size at s.takes in
      let within =
        All-get
          (λ (b : HbmAccess).
            Within (u64_max - limit) (transfer_time c.config.data_rate b.size_bytes))
          (queue_of w c) i a time.transfers g in
      rw takes at within in
    let fits : Fits s.x =
      omega (arith, ready, takes, s.issued, s.cas, time.limit_word, time.cas_word) in
    let left =
      All-merge_with (IsTimed now) (IsTimed-class now) c w (classify a) (erase_at (queue_of w c) i)
        (All-erase_at (IsTimed now) (queue_of w c) i timed) in
    let all : All (IsTimed s.x.issued_at) (classify a ∷ (leavers c w i command a bank bi now).0) =
      subst (λ n. All (IsTimed n) (classify a ∷ (leavers c w i command a bank bi now).0))
        (sym s.issued) (IsTimed-classify now a t, left) in
    rw same (
      completions-Partitions c.config s.x (classify a ∷ (leavers c w i command a bank bi now).0) d
        all fits)

issue_act-none :
    (c : HbmController) (w : Bool) (i : ℕ) (a : HbmAccess) (bi : ℕ) (r : PhysicalAccess)
    (c' : HbmController)
    → issue_act c w i a bi ≢ ok (some r, c')
unfolding issue_act
issue_act-none c w i a bi r c' h = ground arith

issue_precharge-none :
    (c : HbmController) (w : Bool) (i : ℕ) (command : HbmCommand) (a : HbmAccess)
    (bank : HbmBankState) (bi : ℕ) (r : PhysicalAccess) (c' : HbmController)
    → issue_precharge c w i command a bank bi ≢ ok (some r, c')
unfolding issue_precharge
issue_precharge-none c w i command a bank bi r c' h = ground arith

-- Only the branch for data sends something.
pub issue_command-data :
    (c : HbmController) (candidate : Candidate) (a : HbmAccess) (bank : HbmBankState) (bi now : ℕ)
    (r : PhysicalAccess) (c' : HbmController)
    → issue_command c candidate a bank bi now ≡ ok (some r, c')
    → issue_data c candidate.is_write candidate.index candidate.command a bank bi now
      ≡ ok (some r, c')
unfolding issue_command
issue_command-data c candidate a bank bi now r c' h =
    elim (Bool-cases (command_eqb candidate.command act)) [
      | inl e ↦
          absurd (issue_act-none c candidate.is_write candidate.index a bi r c' (ground arith))
      | inr e ↦
          elim (Bool-cases
            (command_eqb candidate.command pre_bank || command_eqb candidate.command pre_all)) [
              | inl f ↦ absurd (
                  issue_precharge-none c candidate.is_write candidate.index candidate.command a bank
                    bi r c' (ground arith))
              | inr f ↦ ground arith
            ]
    ]

begun-size : (now : ℕ) (a : HbmAccess) → (begun now a).size_bytes ≡ a.size_bytes
unfolding begin_access
begun-size now a = ground arith

-- With detailed statistics on, for everything that leaves with a command, the five stages of its latency
-- add up to exactly the time from its arrival to the completion, as long as each access of the queue was
-- queued at its arrival, its recorded wait, if it has had a command, ends at its first command, and no
-- time exceeds 64 bits.
pub issue-Partitions :
    (c c' : HbmController) (candidate : Candidate) (now limit : ℕ) (r : PhysicalAccess)
    → c.config.detailed_stats ≡ true
    → HasTime c candidate.is_write now limit
    → All (IsTimed now) (queue_of candidate.is_write c)
    → issue c candidate now ≡ ok (some r, c')
    → All (Partitions r.completion_time) r.completions
issue-Partitions c c' candidate now limit r d time timed h =
    let b = issue-Begins c candidate now (some r) c' h in
    let w = candidate.is_write in
    let q = queue_of w c in
    let s = record_issue-Same _ _ _ _ _ _ b.recorded in
    let next = set q candidate.index (begun now b.a) in
    let config : b.noted.config ≡ c.config =
      s.config ∙ config-with_queue w next (record c { stats = b.waited }) in
    let bus : b.noted.data_bus_ready_at ≡ c.data_bus_ready_at =
      s.data_bus ∙ bus-with_queue w next (record c { stats = b.waited }) in
    let queue : queue_of w b.noted ≡ next =
      queue_of-Same w (begun_in c candidate now b.a b.waited) b.noted s.read_queue s.write_queue
      ∙ queue_of-with_queue w next (record c { stats = b.waited }) in
    let sent =
      issue_command-data b.noted candidate (begun now b.a) b.bank b.bank_index now r c' b.branch in
    let t = All-get (IsTimed now) q candidate.index b.a timed b.queued in
    let f =
      λ (a : HbmAccess). Within (u64_max - limit) (transfer_time c.config.data_rate a.size_bytes) in
    let g = All-get f q candidate.index b.a time.transfers b.queued in
    let time' : HasTime b.noted w now limit = record {
      limit_word = time.limit_word;
      cas_word = rw config time.cas_word;
      buses = rw bus time.buses;
      transfers =
          rw (config, queue)
            (All-set f q candidate.index (begun now b.a) time.transfers
              (rw (begun-size now b.a) g));
    } in
    issue_data-Partitions b.noted w candidate.index candidate.command (begun now b.a) b.bank
      b.bank_index now limit r c' (begun-queued c candidate now (some r) c' b) (rw config d) time'
      (rw queue
        (All-set (IsTimed now) q candidate.index (begun now b.a) timed (IsTimed-begun now b.a t)))
      sent
