-- ===== src/Controller/Refresh/Settling.antt =====
-- What a command of maintenance takes off the load that waits.
use hbmsim.Prelude.{
  ℕ, zero, suc, ◌+◌, ◌*◌, ◌≤◌, ◌<◌, ◌≡◌, ◌⊎◌, inl, inr, refl, arith, true, false, some, List, [],
  ◌∷◌, map, ok, get_elem?, subst, Result-cases, Bool-cases, add32, add64,
}
use hbmsim.Mapping.{bank_address}
use hbmsim.Dram.Command.{HbmCommand, refresh_all_bank, refresh_per_bank, rfm_per_bank}
use hbmsim.Dram.Standard.{HbmBankState}
use hbmsim.Controller.Banks.{apply_to_banks, change_bank}
use hbmsim.Controller.Commands.{record_issue}
use hbmsim.Controller.Commands.Frame.{record_issue-Same}
use hbmsim.Controller.Refresh.{
  request_of, settle, issue_maintenance, refreshed, managed, count_event, count_rfm,
}
use hbmsim.Controller.Refresh.Load.{flag, load, loads}
use hbmsim.Controller.State.{HbmController, MaintenanceCandidate}

-- The commands that a controller waits to issue for its banks.
abbrev pub pending_load : HbmController → ℕ
pending_load c = 2 * flag c.refresh_pending + loads c.banks

-- What the change of a request's flag takes off the load of a bank.
pub settled-loads :
    (change : HbmBankState → HbmBankState) (i : ℕ) (banks next : List HbmBankState)
    (b : HbmBankState)
    → load (change b) < load b
    → get_elem? banks i ≡ some b
    → change_bank (λ x. ok (change x)) i banks ≡ ok next
    → loads next < loads banks
unfolding loads
settled-loads change i [] next b l g h = absurd (cc)
settled-loads change zero (x ∷ banks) next b l g h =
    let same : x ≡ b = cc in
    let e : next ≡ change x ∷ banks = ground arith in rw (e, same) (omega (arith, l))
settled-loads change (suc i) (x ∷ banks) next b l g h =
    elim (Result-cases (change_bank (λ y. ok (change y)) i banks)) [
      | inl (e, thrown) ↦ absurd (ground arith)
      | inr (rest, hr) ↦
          let e : next ≡ x ∷ rest = ground arith in
          rw e (omega (arith, settled-loads change i banks rest b l g hr))
    ]

pub refreshed-loads : (banks : List HbmBankState) → loads (map refreshed banks) ≤ loads banks
unfolding loads
refreshed-loads [] = omega arith
refreshed-loads (b ∷ banks) = ground (arith, refreshed-loads banks)

pub settle-bank :
    (c c' : HbmController) (requested : HbmCommand) (i : ℕ) (b : HbmBankState)
    → request_of b ≡ some requested
    → get_elem? c.banks i ≡ some b
    → settle c requested i ≡ ok c'
    → (pending_load c' < pending_load c) × (c'.config ≡ c.config)
unfolding settle request_of
settle-bank c c' requested i b q g h = elim (Bool-cases b.rfm_pending) [
  | inl rfm ↦
      let e : requested ≡ rfm_per_bank = ground arith in
      let h' : settle c rfm_per_bank i ≡ ok c' = rw e at h in
      elim (Result-cases (change_bank (λ x. ok (managed x)) i c.banks)) [
        | inl (x, thrown) ↦ absurd (ground arith)
        | inr (banks, hb) ↦ elim (Result-cases (count_rfm c)) [
          | inl (x, thrown) ↦ absurd (ground arith)
          | inr (stats, hs) ↦
              let same : c' ≡ record c { stats = stats; banks = banks } = ground arith in
              let l = settled-loads managed i c.banks banks b (ground (arith, rfm)) g hb in
              rw same (omega (arith, l), refl)
        ]
      ]
  | inr quiet ↦ elim (Bool-cases b.refresh_pending) [
    | inr idle ↦ absurd (ground arith)
    | inl pending ↦
        let e : requested ≡ refresh_per_bank = ground arith in
        let h' : settle c refresh_per_bank i ≡ ok c' = rw e at h in
        elim (Result-cases (change_bank (λ x. ok (refreshed x)) i c.banks)) [
          | inl (x, thrown) ↦ absurd (ground arith)
          | inr (banks, hb) ↦
              elim (Result-cases (
                count_event (λ s. record s { per_bank_refreshes = add64 s.per_bank_refreshes 1 })
                  c)) [
                    | inl (x, thrown) ↦ absurd (ground arith)
                    | inr (stats, hs) ↦
                        let same : c' ≡ record c { stats = stats; banks = banks } = ground arith in
                        let l =
                          settled-loads refreshed i c.banks banks b (ground (arith, pending)) g
                            hb in
                        rw same (omega (arith, l), refl)
                  ]
        ]
  ]
]

pub settle-channel :
    (c c' : HbmController) (i : ℕ)
    → c.refresh_pending ≡ true
    → settle c refresh_all_bank i ≡ ok c'
    → (pending_load c' < pending_load c) × (c'.config ≡ c.config)
unfolding settle
settle-channel c c' i p h =
    elim (Result-cases (count_event (λ s. record s { refreshes = add64 s.refreshes 1 }) c)) [
      | inl (x, thrown) ↦ absurd (ground arith)
      | inr (stats, hs) ↦
          let same : c'
              ≡ record c { refresh_pending = false; stats = stats; banks = map refreshed c.banks } =
            ground arith in
          rw (same, p) (omega (arith, refreshed-loads c.banks), refl)
    ]

-- A command that was issued: noted, applied to the banks, and settled if it is final.
pub record Issued (c : HbmController) (m : MaintenanceCandidate) (c' : HbmController) : Type 0 where
  pub banks : List HbmBankState
  pub applied : apply_to_banks c.config.standard m.command 0 m.local_bank c.banks ≡ ok banks
  pub noted : HbmController
  pub noted_banks : noted.banks ≡ banks
  pub same_pending : noted.refresh_pending ≡ c.refresh_pending
  pub same_config : noted.config ≡ c.config
  pub outcome :
      ((m.final_command ≡ false) × (c' ≡ noted))
      ⊎ ((m.final_command ≡ true)
          × ((settled : HbmController) × (settle noted m.requested m.local_bank ≡ ok settled)
              × (c'.banks ≡ settled.banks)
              × (c'.refresh_pending ≡ settled.refresh_pending)
              × (c'.config ≡ settled.config)))

pub issue_maintenance-Issued :
    (c c' : HbmController) (m : MaintenanceCandidate) (now : ℕ)
    → issue_maintenance c m now ≡ ok c'
    → Issued c m c'
unfolding issue_maintenance
issue_maintenance-Issued c c' m now h =
    elim (Result-cases (bank_address c.mapper (add32 c.config.first_flat_bank m.local_bank))) [
      | inl (x, thrown) ↦ absurd (ground arith)
      | inr (address, ha) ↦
          elim (Result-cases (record_issue c m.command address m.local_bank now)) [
            | inl (x, thrown) ↦ absurd (ground arith)
            | inr (noted, hn) ↦
                elim (Result-cases
                  (apply_to_banks c.config.standard m.command 0 m.local_bank noted.banks)) [
                    | inl (x, thrown) ↦ absurd (ground arith)
                    | inr (banks, hb) ↦
                        let s = record_issue-Same c noted m.command address m.local_bank now hn in
                        let after : HbmController = record noted { banks = banks } in
                        let applied : apply_to_banks c.config.standard m.command 0 m.local_bank
                              c.banks
                            ≡ ok banks =
                          subst
                            (λ x.
                              apply_to_banks c.config.standard m.command 0 m.local_bank x
                              ≡ ok banks)
                            s.banks hb in
                        elim (Bool-cases m.final_command) [
                          | inr e ↦ record {
                            banks = banks;
                            applied = applied;
                            noted = after;
                            noted_banks = refl;
                            same_pending = s.pending;
                            same_config = s.config;
                            outcome = inl (e, ground arith);
                          }
                          | inl e ↦ elim (Result-cases (settle after m.requested m.local_bank)) [
                            | inl (x, thrown) ↦ absurd (ground arith)
                            | inr (settled, hs) ↦ record {
                              banks = banks;
                              applied = applied;
                              noted = after;
                              noted_banks = refl;
                              same_pending = s.pending;
                              same_config = s.config;
                              outcome =
                                  inr (e, (settled, hs, ground arith, ground arith, ground arith));
                            }
                          ]
                        ]
                  ]
          ]
    ]
