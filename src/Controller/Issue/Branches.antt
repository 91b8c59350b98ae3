-- ===== src/Controller/Issue/Branches.antt =====
-- What a call of `issue` that returns has done, branch by branch.
use hbmsim.Prelude.{
  ℕ, zero, suc, ◌≡◌, inl, inr, refl, arith, Bool, true, false, Option, some, List, [], ◌∷◌, map,
  Result, ok, Result-cases, Bool-cases, get_at, set, holds, get_elem?, if◌then◌else◌, Option-cases,
}
use hbmsim.Types.{HbmOp}
use hbmsim.Bandwidth.{transfer_time}
use hbmsim.Dram.Command.{HbmCommand}
use hbmsim.Dram.Standard.{HbmBankState}
use hbmsim.Statistics.{HbmStats}
use hbmsim.Controller.Access.{HbmAccess}
use hbmsim.Controller.Issue.{
  classify, merge_with, erase_at, after_data, cas_latency_of, issue_data, count_wait, issue_command,
  issue,
}
use hbmsim.Controller.Transfers.{
  Transfer, completion, completion_of, count_transfer, begin_access, first_wait,
}
use hbmsim.Controller.Banks.{local_bank}
use hbmsim.Controller.Commands.{record_issue}
use hbmsim.Controller.Commands.Frame.{record_issue-Same}
use hbmsim.Controller.Selection.{with_queue, queue_of}
use hbmsim.Controller.State.{HbmController, Candidate, PhysicalAccess}

module _ (c : HbmController) (w : Bool) (i : ℕ) (command : HbmCommand) (a : HbmAccess)
    (bank : HbmBankState) (bi now : ℕ) where
  abbrev pub leavers : List HbmAccess × List HbmAccess
  leavers = merge_with c w (classify a) (erase_at (queue_of w c) i)

  abbrev pub physical : Transfer → PhysicalAccess
  physical x = record {
    op = if w then HbmOp.write else HbmOp.read;
    address = (classify a).address;
    bytes = (classify a).size_bytes;
    command = command;
    issued_at = now;
    completion_time = completion x;
    completions = map (completion_of c.config x) (classify a ∷ leavers.0);
  }

  abbrev pub after : Transfer → List HbmBankState → HbmStats → HbmController
  after x banks stats = with_queue w leavers.1 (record c {
    stats = stats;
    banks = banks;
    data_bus_ready_at = set c.data_bus_ready_at (classify a).address.pseudo_channel (completion x);
  })

  -- A data command that is issued: its row is open, and its transfer takes its time.
  pub record Sent (r : Option PhysicalAccess) (c' : HbmController) : Type 0 where
    pub x : Transfer
    pub banks : List HbmBankState
    pub stats : HbmStats
    pub issued : x.issued_at ≡ now
    pub cas : x.cas_latency ≡ cas_latency_of c.config w
    pub bus : get_at c.data_bus_ready_at (classify a).address.pseudo_channel ≡ ok x.bus_ready
    pub takes : transfer_time c.config.data_rate (classify a).size_bytes ≡ ok x.duration
    pub row_open : holds bank.open_row a.address.row ≡ true
    pub result : r ≡ some (physical x)
    pub state : c' ≡ after x banks stats

  pub issue_data-Sent :
      (r : Option PhysicalAccess) (c' : HbmController)
      → issue_data c w i command a bank bi now ≡ ok (r, c')
      → Sent r c'
  unfolding issue_data
  issue_data-Sent r c' h = elim (Bool-cases (holds bank.open_row a.address.row)) [
    | inr closed ↦ absurd (ground arith)
    | inl opened ↦ elim (Result-cases (after_data c command (classify a) bi)) [
      | inl (e, thrown) ↦ absurd (ground arith)
      | inr (banks, hb) ↦
          elim (Result-cases (get_at c.data_bus_ready_at (classify a).address.pseudo_channel)) [
            | inl (e, thrown) ↦ absurd (ground arith)
            | inr (ready, hr) ↦
                elim (Result-cases (transfer_time c.config.data_rate (classify a).size_bytes)) [
                  | inl (e, thrown) ↦ absurd (ground arith)
                  | inr (duration, hd) ↦
                      let x : Transfer = record {
                        issued_at = now;
                        cas_latency = cas_latency_of c.config w;
                        bus_ready = ready;
                        duration = duration;
                      } in
                      elim (Result-cases
                        (count_transfer c.config x w bi (classify a) leavers.0 c.stats)) [
                          | inl (e, thrown) ↦ absurd (ground arith)
                          | inr (stats, hs) ↦
                              let e : issue_data c w i command a bank bi now
                                  ≡ ok (some (physical x), after x banks stats) =
                                ground arith in
                              record {
                                x = x;
                                banks = banks;
                                stats = stats;
                                issued = refl;
                                cas = refl;
                                bus = hr;
                                takes = hd;
                                row_open = opened;
                                result = cc;
                                state = cc;
                              }
                        ]
                ]
          ]
    ]
  ]

-- The access with the marks of its command.
abbrev pub begun : ℕ → HbmAccess → HbmAccess
begun now a = record (begin_access now a) { command_eligible = false }

module _ (c : HbmController) (candidate : Candidate) (now : ℕ) where
  abbrev pub begun_in : HbmAccess → HbmStats → HbmController
  begun_in a waited =
      with_queue candidate.is_write
        (set (queue_of candidate.is_write c) candidate.index (begun now a))
        (record c { stats = waited })

  -- The way of every call that returns to the branches on the command.
  pub record Begins (r : Option PhysicalAccess) (c' : HbmController) : Type 0 where
    pub a : HbmAccess
    pub bank_index : ℕ
    pub bank : HbmBankState
    pub waited : HbmStats
    pub noted : HbmController
    pub queued : get_elem? (queue_of candidate.is_write c) candidate.index ≡ some a
    pub local :
        local_bank c.config.first_flat_bank c.config.bank_count a.address.flat_bank ≡ ok bank_index
    pub bank_at : get_at c.banks bank_index ≡ ok bank
    pub recorded :
        record_issue (begun_in a waited) candidate.command (begun now a).address bank_index now
        ≡ ok noted
    pub branch : issue_command noted candidate (begun now a) bank bank_index now ≡ ok (r, c')

  waits : HbmAccess → Result HbmStats
  waits a =
      if a.first_command_issued then ok c.stats else count_wait c.config (first_wait now a) c.stats

  pub issue-Begins :
      (r : Option PhysicalAccess) (c' : HbmController)
      → issue c candidate now ≡ ok (r, c')
      → Begins r c'
  unfolding issue waits
  issue-Begins r c' h =
      elim (Option-cases (get_elem? (queue_of candidate.is_write c) candidate.index)) [
        | inl e ↦ absurd (ground arith)
        | inr (a, ha) ↦
            elim (Result-cases
              (local_bank c.config.first_flat_bank c.config.bank_count a.address.flat_bank)) [
                | inl (e, thrown) ↦ absurd (ground arith)
                | inr (bank_index, hl) ↦ elim (Result-cases (get_at c.banks bank_index)) [
                  | inl (e, thrown) ↦ absurd (ground arith)
                  | inr (bank, hb) ↦ elim (Result-cases (waits a)) [
                    | inl (e, thrown) ↦ absurd (ground arith)
                    | inr (waited, hw) ↦
                        elim (Result-cases (
                          record_issue (begun_in a waited) candidate.command (begun now a).address
                            bank_index now)) [
                              | inl (e, thrown) ↦ absurd (ground arith)
                              | inr (noted, hn) ↦ record {
                                a = a;
                                bank_index = bank_index;
                                bank = bank;
                                waited = waited;
                                noted = noted;
                                queued = ha;
                                local = hl;
                                bank_at = hb;
                                recorded = hn;
                                branch = ground arith;
                              }
                            ]
                  ]
                ]
              ]
      ]

get_elem?-set :
    (q : List HbmAccess) (i : ℕ) (a b : HbmAccess)
    → get_elem? q i ≡ some a
    → get_elem? (set q i b) i ≡ some b
get_elem?-set [] i a b h = cc
get_elem?-set (x ∷ q) zero a b h = refl
get_elem?-set (x ∷ q) (suc i) a b h = get_elem?-set q i a b h

-- A queue of a controller whose queues are those of another.
pub queue_of-Same :
    (w : Bool) (c d : HbmController)
    → d.read_queue ≡ c.read_queue
    → d.write_queue ≡ c.write_queue
    → queue_of w d ≡ queue_of w c
queue_of-Same true c d h g = g
queue_of-Same false c d h g = h

pub queue_of-with_queue :
    (w : Bool) (q : List HbmAccess) (c : HbmController) → queue_of w (with_queue w q c) ≡ q
queue_of-with_queue true q c = refl
queue_of-with_queue false q c = refl

-- The access still stands in the queue when the branches begin.
pub begun-queued :
    (c : HbmController) (candidate : Candidate) (now : ℕ) (r : Option PhysicalAccess)
    (c' : HbmController)
    → (b : Begins c candidate now r c')
    → get_elem? (queue_of candidate.is_write b.noted) candidate.index ≡ some (begun now b.a)
begun-queued c candidate now r c' b =
    let q = queue_of candidate.is_write c in
    let s = record_issue-Same _ _ _ _ _ _ b.recorded in
    rw
      (
        queue_of-Same candidate.is_write (begun_in c candidate now b.a b.waited) b.noted
            s.read_queue s.write_queue,
        queue_of-with_queue candidate.is_write (set q candidate.index (begun now b.a))
            (record c { stats = b.waited }),
      )
      (get_elem?-set q candidate.index b.a (begun now b.a) b.queued)
