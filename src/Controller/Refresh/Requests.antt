-- ===== src/Controller/Refresh/Requests.antt =====
-- What `choose_maintenance` chooses: a command on the way to a request that is open.
use hbmsim.Prelude.{
  ℕ, suc, ◌+◌, ◌≡◌, ◌⊎◌, inl, inr, refl, sym, arith, Bool, true, false, Option, none, some, List,
  [], ◌∷◌, ok, get_elem?, get_at, subst, Result-cases, Option-cases, Bool-cases, add32, is_some,
}
use hbmsim.Mapping.{bank_address}
use hbmsim.Dram.Command.{
  HbmCommand, pre_bank, pre_all, refresh_all_bank, refresh_per_bank, rfm_per_bank,
}
use hbmsim.Dram.Standard.{HbmBankState, HbmStandard, CommandDecision}
use hbmsim.Dram.Profiles.{common_support, rfm_support}
use hbmsim.Dram.Progress.{by_tables}
use hbmsim.Controller.Banks.{any_bank_open}
use hbmsim.Controller.Banks.Maintenance.{IsPlanned}
use hbmsim.Controller.Commands.{earliest_command}
use hbmsim.Controller.Planner.{next_decision}
use hbmsim.Controller.Policies.{all_bank_command}
use hbmsim.Controller.Refresh.{
  maintain, maintain_all, request_of, sooner, maintain_banks, choose_maintenance, maintenance,
}
use hbmsim.Controller.State.{HbmController, MaintenanceCandidate}

-- A candidate carries out the planner's decision for its request.
pub record Follows (c : HbmController) (m : MaintenanceCandidate) (bank : HbmBankState)
    : Type 0 where
  pub d : CommandDecision
  pub decided : next_decision c.config.standard m.requested 0 bank (any_bank_open c.banks) ≡ ok d
  pub command : m.command ≡ d.command
  pub final_command : m.final_command ≡ d.final_command

-- A candidate for a request of one bank.
pub record OfBank (c : HbmController) (m : MaintenanceCandidate) : Type 0 where
  pub bank : HbmBankState
  pub queued : get_elem? c.banks m.local_bank ≡ some bank
  pub requests : request_of bank ≡ some m.requested
  pub follows : Follows c m bank

-- A candidate for the request of the channel.
pub record OfChannel (c : HbmController) (m : MaintenanceCandidate) : Type 0 where
  pub bank : HbmBankState
  pub pending : c.refresh_pending ≡ true
  pub requested : m.requested ≡ refresh_all_bank
  pub follows : Follows c m bank

maintain-OfBank :
    (c : HbmController) (now : ℕ) (requested : HbmCommand) (index : ℕ) (bank : HbmBankState)
    (m : MaintenanceCandidate)
    → get_elem? c.banks index ≡ some bank
    → request_of bank ≡ some requested
    → maintain c now requested index bank ≡ ok m
    → OfBank c m
unfolding maintain
maintain-OfBank c now requested index bank m g r h =
    elim (Result-cases (bank_address c.mapper (add32 c.config.first_flat_bank index))) [
      | inl (e, thrown) ↦ absurd (ground arith)
      | inr (address, ha) ↦
          elim (Result-cases
            (next_decision c.config.standard requested 0 bank (any_bank_open c.banks))) [
              | inl (e, thrown) ↦ absurd (ground arith)
              | inr (d, hd) ↦ elim (Result-cases (earliest_command c d.command address now)) [
                | inl (e, thrown) ↦ absurd (ground arith)
                | inr (ready, hr) ↦
                    let same : m ≡ maintenance requested d index ready = ground arith in
                    rw same (record {
                      bank = bank;
                      queued = g;
                      requests = r;
                      follows = record {
                        d = d;
                        decided = hd;
                        command = refl;
                        final_command = refl;
                      };
                    })
              ]
            ]
    ]

maintain_all-OfChannel :
    (c : HbmController) (now : ℕ) (bank : HbmBankState) (m : MaintenanceCandidate)
    → c.refresh_pending ≡ true
    → maintain_all c now bank ≡ ok m
    → OfChannel c m
unfolding maintain_all all_bank_command
maintain_all-OfChannel c now bank m p h =
    elim (Result-cases
      (next_decision c.config.standard refresh_all_bank 0 bank (any_bank_open c.banks))) [
        | inl (e, thrown) ↦ absurd (ground arith)
        | inr (d, hd) ↦ elim (Result-cases (bank_address c.mapper c.config.first_flat_bank)) [
          | inl (e, thrown) ↦ absurd (ground arith)
          | inr (address, ha) ↦ elim (Result-cases (earliest_command c d.command address now)) [
            | inl (e, thrown) ↦ absurd (ground arith)
            | inr (ready, hr) ↦
                let same : m ≡ maintenance refresh_all_bank d 0 ready = ground arith in
                rw same (record {
                  bank = bank;
                  pending = p;
                  requested = refl;
                  follows = record { d = d; decided = hd; command = refl; final_command = refl };
                })
          ]
        ]
      ]

abbrev Found : HbmController → Option MaintenanceCandidate → Type 0
Found c none = Unit
Found c (some m) = OfBank c m

maintain_banks-Found :
    (c : HbmController) (now index : ℕ) (banks : List HbmBankState)
    (earliest r : Option MaintenanceCandidate)
    → ((j : ℕ) (b : HbmBankState)
        → get_elem? banks j ≡ some b
        → get_elem? c.banks (index + j) ≡ some b)
    → Found c earliest
    → maintain_banks c now index banks earliest ≡ ok r
    → Found c r
unfolding maintain_banks
maintain_banks-Found c now index [] earliest r k f h = let e : r ≡ earliest = ground arith in rw e f
maintain_banks-Found c now index (b ∷ banks) earliest r k f h =
    let here : get_elem? c.banks index ≡ some b =
      subst (λ x. get_elem? c.banks x ≡ some b) (omega arith) (k 0 b refl) in
    let there : (j : ℕ) (a : HbmBankState)
        → get_elem? banks j ≡ some a
        → get_elem? c.banks (suc index + j) ≡ some a =
      λ j a g. subst (λ x. get_elem? c.banks x ≡ some a) (omega arith) (k (suc j) a g) in
    elim (Option-cases (request_of b)) [
      | inl idle ↦ maintain_banks-Found c now (suc index) banks earliest r there f (ground arith)
      | inr (requested, hq) ↦ elim (Result-cases (maintain c now requested index b)) [
        | inl (e, thrown) ↦ absurd (ground arith)
        | inr (m, hm) ↦
            let o = maintain-OfBank c now requested index b m here hq hm in
            elim (Bool-cases (sooner m earliest)) [
              | inl first ↦
                  maintain_banks-Found c now (suc index) banks (some m) r there o (ground arith)
              | inr later ↦
                  maintain_banks-Found c now (suc index) banks earliest r there f (ground arith)
            ]
      ]
    ]

pub choose_maintenance-Follows :
    (c : HbmController) (now : ℕ) (m : MaintenanceCandidate)
    → choose_maintenance c now ≡ ok (some m)
    → OfBank c m ⊎ OfChannel c m
unfolding choose_maintenance
choose_maintenance-Follows c now m h = elim (Bool-cases c.refresh_pending) [
  | inr none_pending ↦ inl (
      maintain_banks-Found c now 0 c.banks none (some m)
        (λ j b g. subst (λ x. get_elem? c.banks x ≡ some b) (omega arith) g) tt (ground arith))
  | inl pending ↦ elim (Result-cases (get_at c.banks 0)) [
    | inl (e, thrown) ↦ absurd (ground arith)
    | inr (bank, hb) ↦ elim (Result-cases (maintain_all c now bank)) [
      | inl (e, thrown) ↦ absurd (ground arith)
      | inr (n, hn) ↦
          let same : m ≡ n = ground arith in
          inr (rw same (maintain_all-OfChannel c now bank n pending hn))
    ]
  ]
]

-- The decisions of a planner for a request of a bank, and of the channel.
abbrev BankDecision : HbmCommand → HbmBankState → Bool → Option HbmStandard → Type 0
BankDecision requested b any std =
    (d : CommandDecision)
    → next_decision std requested 0 b any ≡ ok d
    → ((d.final_command ≡ true) × (d.command ≡ requested))
      ⊎ ((d.final_command ≡ false) × (d.command ≡ pre_bank) × (is_some b.open_row ≡ true))

abbrev ChannelDecision : HbmBankState → Bool → Option HbmStandard → Type 0
ChannelDecision b any std =
    (d : CommandDecision)
    → next_decision std refresh_all_bank 0 b any ≡ ok d
    → ((d.final_command ≡ true) × (d.command ≡ refresh_all_bank))
      ⊎ ((d.final_command ≡ false) × (d.command ≡ pre_all) × (any ≡ true))

refresh-BankDecision :
    (std : Option HbmStandard) (b : HbmBankState) (any : Bool)
    → IsPlanned std
    → BankDecision refresh_per_bank b any std
unfolding next_decision common_support rfm_support
refresh-BankDecision none b any v = λ d h. ground arith
refresh-BankDecision (some s) b any v =
    by_tables (λ x. BankDecision refresh_per_bank b any (some x)) s v (λ d h. ground arith)
      (λ d h. ground arith)

rfm-BankDecision :
    (std : Option HbmStandard) (b : HbmBankState) (any : Bool)
    → IsPlanned std
    → BankDecision rfm_per_bank b any std
unfolding next_decision common_support rfm_support
rfm-BankDecision none b any v = λ d h. ground arith
rfm-BankDecision (some s) b any v =
    by_tables (λ x. BankDecision rfm_per_bank b any (some x)) s v (λ d h. ground arith)
      (λ d h. ground arith)

pub all-ChannelDecision :
    (std : Option HbmStandard) (b : HbmBankState) (any : Bool)
    → IsPlanned std
    → ChannelDecision b any std
unfolding next_decision common_support rfm_support
all-ChannelDecision none b any v = λ d h. ground arith
all-ChannelDecision (some s) b any v =
    by_tables (λ x. ChannelDecision b any (some x)) s v (λ d h. ground arith) (λ d h. ground arith)

pub request-BankDecision :
    (std : Option HbmStandard) (requested : HbmCommand) (b : HbmBankState) (any : Bool)
    → IsPlanned std
    → request_of b ≡ some requested
    → ((requested ≡ refresh_per_bank) ⊎ (requested ≡ rfm_per_bank))
      × BankDecision requested b any std
unfolding request_of
request-BankDecision std requested b any v q = elim (Bool-cases b.rfm_pending) [
  | inl rfm ↦
      let e : requested ≡ rfm_per_bank = ground arith in
      (inr e, subst (λ r. BankDecision r b any std) (sym e) (rfm-BankDecision std b any v))
  | inr quiet ↦ elim (Bool-cases b.refresh_pending) [
    | inr idle ↦ absurd (ground arith)
    | inl pending ↦
        let e : requested ≡ refresh_per_bank = ground arith in
        (inl e, subst (λ r. BankDecision r b any std) (sym e) (refresh-BankDecision std b any v))
  ]
]
