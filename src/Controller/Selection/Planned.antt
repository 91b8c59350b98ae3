-- ===== src/Controller/Selection/Planned.antt =====
-- What the survey of `choose_next` plans, and for which banks it plans data commands.
use hbmsim.Prelude.{
  ℕ, suc, ◌+◌, ◌≡◌, inl, inr, refl, ◌∙◌, arith, Bool, true, false, not, ◌&&◌, Option, none, some,
  List, [], ◌∷◌, ok, get_elem?, get_at, Result-cases, Bool-cases, holds, ltb, All, All-imp,
}
use hbmsim.Types.{HbmOp}
use hbmsim.Dram.Command.{HbmCommand, is_data_command, to_dram_command}
use hbmsim.Dram.Standard.{HbmBankState, HbmStandard}
use hbmsim.Dram.Profiles.{rfm_support, common_support}
use hbmsim.Dram.Progress.{by_tables}
use hbmsim.Controller.Access.{HbmAccess}
use hbmsim.Controller.Banks.{local_bank}
use hbmsim.Controller.Banks.Maintenance.{IsPlanned}
use hbmsim.Controller.Commands.{earliest_command}
use hbmsim.Controller.Planner.{next_command}
use hbmsim.Controller.Scheduler.{SchedulerCandidate}
use hbmsim.Controller.Selection.{auto_precharge, planned, mark_eligible, survey, with_queue}
use hbmsim.Controller.State.{HbmController}

-- A planner answers a request for data with a data command only if the row is open.
abbrev DataOpen : HbmOp → ℕ → HbmBankState → Bool → HbmCommand → Option HbmStandard → Type 0
DataOpen op row b auto command std =
    next_command std op row b auto ≡ ok command
    → is_data_command command ≡ true
    → holds b.open_row row ≡ true

next_command-open :
    (std : Option HbmStandard) (op : HbmOp) (row : ℕ) (b : HbmBankState) (auto : Bool)
    (command : HbmCommand)
    → IsPlanned std
    → DataOpen op row b auto command std
unfolding next_command is_data_command rfm_support common_support
next_command-open none op row b auto command v = λ h d. ground arith
next_command-open (some s) op row b auto command v =
    by_tables (λ x. DataOpen op row b auto command (some x)) s v (λ h d. ground arith)
      (λ h d. ground arith)

-- The bank of an access is one of the controller's, and has the row of the access open.
abbrev pub IsOpenFor : HbmController → HbmAccess → Type 0
IsOpenFor c a =
    (index : ℕ) × (bank : HbmBankState) × (local_bank c.config.first_flat_bank c.config.bank_count
        a.address.flat_bank
      ≡ ok index)
    × (get_at c.banks index ≡ ok bank)
    × (holds bank.open_row a.address.row ≡ true)

pub planned-IsOpenFor :
    (c : HbmController) (a : HbmAccess) (command : HbmCommand)
    → IsPlanned c.config.standard
    → planned c a ≡ ok command
    → is_data_command command ≡ true
    → IsOpenFor c a
unfolding planned
planned-IsOpenFor c a command v h d =
    elim (Result-cases
      (local_bank c.config.first_flat_bank c.config.bank_count a.address.flat_bank)) [
        | inl (e, thrown) ↦ absurd (ground arith)
        | inr (index, hi) ↦ elim (Result-cases (get_at c.banks index)) [
          | inl (e, thrown) ↦ absurd (ground arith)
          | inr (bank, hb) ↦ (
            index,
            bank,
            hi,
            hb,
            next_command-open c.config.standard a.op a.address.row bank (auto_precharge c) command v
                (ground arith) d,
          )
        ]
      ]

-- The access at a place of a queue, with the command planned for it.
abbrev pub PlannedAt : HbmController → List HbmAccess → ℕ → HbmCommand → Type 0
PlannedAt c q i command = (a : HbmAccess) × (get_elem? q i ≡ some a) × (planned c a ≡ ok command)

planned-mark_eligible :
    (c : HbmController) (ready now : ℕ) (a : HbmAccess)
    → planned c (mark_eligible ready now a) ≡ planned c a
unfolding planned mark_eligible
planned-mark_eligible c ready now a = elim (Bool-cases (ltb now ready)) [
  | inl later ↦ ground (arith, later)
  | inr due ↦ ground (arith, due)
]

pub planned-with_queue :
    (w : Bool) (q : List HbmAccess) (c : HbmController) (a : HbmAccess)
    → planned (with_queue w q c) a ≡ planned c a
unfolding planned
planned-with_queue true q c a = refl
planned-with_queue false q c a = refl

-- A candidate of a survey that began at `base`.
pub record Surveyed (c : HbmController) (w : Bool) (q : List HbmAccess) (base : ℕ)
    (s : SchedulerCandidate) : Type 0 where
  pub place : ℕ
  pub index : s.queue_index ≡ base + place
  pub same_queue : s.is_write ≡ w
  pub command : HbmCommand
  pub generic : to_dram_command command ≡ ok s.command
  pub at : PlannedAt c q place command

later-Surveyed :
    (c : HbmController) (w : Bool) (a : HbmAccess) (q : List HbmAccess) (base : ℕ)
    (s : SchedulerCandidate)
    → Surveyed c w q (suc base) s
    → Surveyed c w (a ∷ q) base s
later-Surveyed c w a q base s k = record {
  place = suc k.place;
  index = omega (arith, k.index);
  same_queue = k.same_queue;
  command = k.command;
  generic = k.generic;
  at = k.at;
}

pub survey-Surveyed :
    (c : HbmController) (w : Bool) (now base : ℕ) (q q' : List HbmAccess)
    (cs : List SchedulerCandidate)
    → survey c w now base q ≡ ok (cs, q')
    → All (Surveyed c w q' base) cs
unfolding survey
survey-Surveyed c w now base [] q' cs h = let e : cs ≡ [] = ground arith in rw e tt
survey-Surveyed c w now base (a ∷ q) q' cs h = elim (Result-cases (planned c a)) [
  | inl (e, thrown) ↦ absurd (ground arith)
  | inr (command, hc) ↦ elim (Result-cases (earliest_command c command a.address now)) [
    | inl (e, thrown) ↦ absurd (ground arith)
    | inr (ready, hr) ↦ elim (Result-cases (to_dram_command command)) [
      | inl (e, thrown) ↦ absurd (ground arith)
      | inr (generic, hg) ↦ elim (Result-cases (survey c w now (suc base) q)) [
        | inl (e, thrown) ↦ absurd (ground arith)
        | inr (rest, hs) ↦
            let ih = survey-Surveyed c w now (suc base) q rest.1 rest.0 hs in
            let first : SchedulerCandidate = record {
              queue_index = base;
              is_write = w;
              command = generic;
              ready_at = ready;
              sequence = a.sequence;
              row_hit = is_data_command command && not a.activated;
              data_command = is_data_command command;
              request_priority = a.metadata.priority;
            } in
            let eq : q' ≡ mark_eligible ready now a ∷ rest.1 = ground arith in
            let ec : cs ≡ first ∷ rest.0 = ground arith in
            rw (eq, ec)
              (
                record {
                  place = 0;
                  index = omega arith;
                  same_queue = refl;
                  command = command;
                  generic = hg;
                  at = (mark_eligible ready now a, refl, planned-mark_eligible c ready now a ∙ hc);
                },
                All-imp (Surveyed c w rest.1 (suc base))
                    (Surveyed c w (mark_eligible ready now a ∷ rest.1) base)
                    (later-Surveyed c w (mark_eligible ready now a) rest.1 base) rest.0 ih,
              )
      ]
    ]
  ]
]
