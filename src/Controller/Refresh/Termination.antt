-- ===== src/Controller/Refresh/Termination.antt =====
-- The maintenance of an idle channel comes to an end.
use hbmsim.Prelude.{
  ℕ, zero, suc, ◌+◌, ◌*◌, ◌≤◌, ◌<◌, ◌≡◌, ◌⊎◌, inl, inr, refl, sym, ap, ◌∙◌, arith, true, false,
  Option, none, some, List, [], ◌∷◌, Result, Error, ok, err, get_elem?, subst, Result-cases,
  Bool-cases, length, max,
}
use hbmsim.Dram.Command.{refresh_per_bank, rfm_per_bank}
use hbmsim.Dram.Standard.{HbmBankState}
use hbmsim.Controller.Banks.{any_bank_open, change_bank}
use hbmsim.Controller.Banks.Maintenance.{IsPlanned}
use hbmsim.Controller.Planner.{next_decision}
use hbmsim.Controller.Policies.{uses_all_bank_refresh}
use hbmsim.Controller.Refresh.{
  request_of, settle, issue_maintenance, choose_maintenance, is_refresh_pending, idle_round,
  idle_rounds, request_refresh, apply_idle_refresh,
}
use hbmsim.Controller.Refresh.Load.{
  flag, loads, loads-bound, Closed, ForBank, ForChannel, ForBank-OneBank, ForChannel-AllBanks,
  OneClosed, change_bank-OneClosed, change_all-loads,
}
use hbmsim.Controller.Refresh.Requests.{
  OfBank, OfChannel, choose_maintenance-Follows, request-BankDecision, all-ChannelDecision,
}
use hbmsim.Controller.State.{HbmController, MaintenanceCandidate}
use hbmsim.Controller.Refresh.Settling.{
  pending_load, settle-bank, settle-channel, Issued, issue_maintenance-Issued,
}

abbrev Lighter : HbmController → HbmController → Type 0
Lighter c c' = (pending_load c' < pending_load c) × (c'.config ≡ c.config)

request_of-Closed : (b b' : HbmBankState) → Closed b b' → request_of b' ≡ request_of b
unfolding request_of
request_of-Closed b b' k = ground (arith, k.rfm, k.refresh)

-- What is left after a command that does not settle its request, and after one that does.
unsettled-Lighter :
    (c c' : HbmController) (m : MaintenanceCandidate) (i : Issued c m c')
    → loads i.banks < loads c.banks
    → m.final_command ≡ false
    → Lighter c c'
unsettled-Lighter c c' m i l e = elim i.outcome [
  | inr o ↦ absurd (cc)
  | inl o ↦
      let banks : c'.banks ≡ i.banks = ap (λ (x : HbmController). x.banks) o.1 ∙ i.noted_banks in
      let pending : c'.refresh_pending ≡ c.refresh_pending =
        ap (λ (x : HbmController). x.refresh_pending) o.1 ∙ i.same_pending in
      (
        rw (banks, pending) (omega (arith, l)),
        ap (λ (x : HbmController). x.config) o.1 ∙ i.same_config,
      )
]

settled-Lighter :
    (c c' : HbmController) (m : MaintenanceCandidate) (i : Issued c m c')
    → loads i.banks ≤ loads c.banks
    → m.final_command ≡ true
    → ((s : HbmController) → settle i.noted m.requested m.local_bank ≡ ok s → Lighter i.noted s)
    → Lighter c c'
settled-Lighter c c' m i l e k = elim i.outcome [
  | inl o ↦ absurd (cc)
  | inr o ↦
      let s = k o.1.0 o.1.1 in
      let banks : loads c'.banks ≡ loads o.1.0.banks = ap loads o.1.2 in
      let pending : flag c'.refresh_pending ≡ flag o.1.0.refresh_pending = ap flag o.1.3 in
      let before : loads i.noted.banks ≡ loads i.banks = ap loads i.noted_banks in
      let noted : flag i.noted.refresh_pending ≡ flag c.refresh_pending = ap flag i.same_pending in
      (omega (arith, s.0, banks, pending, before, noted, l), o.1.4 ∙ s.1 ∙ i.same_config)
]

OfBank-Lighter :
    (c c' : HbmController) (m : MaintenanceCandidate)
    → IsPlanned c.config.standard
    → OfBank c m
    → Issued c m c'
    → Lighter c c'
OfBank-Lighter c c' m v o i =
    let d = o.follows.d in
    let k =
      request-BankDecision c.config.standard m.requested o.bank (any_bank_open c.banks) v
        o.requests in
    let at = m.local_bank in
    let closes : ForBank m.command → OneClosed at c.banks i.banks o.bank = λ w.
      let one = ForBank-OneBank at c.banks i.banks c.config.standard m.command v w i.applied in
      change_bank-OneClosed one.0 at c.banks i.banks o.bank one.1 o.queued one.2 in
    elim (k.1 d o.follows.decided) [
      | inr (later, command, is_open) ↦
          let w = closes (inl (o.follows.command ∙ command)) in
          unsettled-Lighter c c' m i (ground (arith, w.lighter, is_open))
            (o.follows.final_command ∙ later)
      | inl (final, command) ↦
          let same : m.command ≡ m.requested = o.follows.command ∙ command in
          let w =
            closes
              (inr (subst (λ x. (x ≡ refresh_per_bank) ⊎ (x ≡ rfm_per_bank)) (sym same) k.0)) in
          settled-Lighter c c' m i (omega (arith, w.lighter)) (o.follows.final_command ∙ final)
            (λ s h.
              settle-bank i.noted s m.requested at w.closed
                (request_of-Closed o.bank w.closed w.is_closed ∙ o.requests)
                (subst (λ x. get_elem? x at ≡ some w.closed) (sym i.noted_banks) w.at) h)
    ]

OfChannel-Lighter :
    (c c' : HbmController) (m : MaintenanceCandidate)
    → IsPlanned c.config.standard
    → OfChannel c m
    → Issued c m c'
    → Lighter c c'
OfChannel-Lighter c c' m v o i =
    let any = any_bank_open c.banks in
    let at = m.local_bank in
    let decided =
      subst (λ r. next_decision c.config.standard r 0 o.bank any ≡ ok o.follows.d) o.requested
        o.follows.decided in
    let closes : ForChannel m.command → loads i.banks + flag any ≤ loads c.banks = λ w.
      let all = ForChannel-AllBanks at c.banks i.banks c.config.standard m.command v w i.applied in
      change_all-loads all.0 c.banks i.banks all.1 all.2 in
    elim (all-ChannelDecision c.config.standard o.bank any v o.follows.d decided) [
      | inr (later, command, is_open) ↦
          let w = closes (inl (o.follows.command ∙ command)) in
          let one : flag any ≡ 1 = ap flag is_open in
          unsettled-Lighter c c' m i (omega (arith, w, one)) (o.follows.final_command ∙ later)
      | inl (final, command) ↦
          let w = closes (inr (o.follows.command ∙ command)) in
          settled-Lighter c c' m i (omega (arith, w)) (o.follows.final_command ∙ final) (λ s h.
            settle-channel i.noted s at (i.same_pending ∙ o.pending)
              (subst (λ r. settle i.noted r at ≡ ok s) o.requested h))
    ]

idle_round-Lighter :
    (c c' : HbmController) (cursor later : ℕ)
    → IsPlanned c.config.standard
    → idle_round c cursor ≡ ok (c', later)
    → Lighter c c'
unfolding idle_round
idle_round-Lighter c c' cursor later v h = elim (Result-cases (choose_maintenance c cursor)) [
  | inl (e, thrown) ↦ absurd (ground arith)
  | inr (none, hc) ↦ absurd (ground arith)
  | inr (some m, hc) ↦ elim (Result-cases (issue_maintenance c m (max cursor m.ready_at))) [
    | inl (e, thrown) ↦ absurd (ground arith)
    | inr (issued, hi) ↦
        let i = issue_maintenance-Issued c issued m (max cursor m.ready_at) hi in
        let same : issued ≡ c' = ground arith in
        let l : Lighter c issued = elim (choose_maintenance-Follows c cursor m hc) [
          | inl o ↦ OfBank-Lighter c issued m v o i
          | inr o ↦ OfChannel-Lighter c issued m v o i
        ] in
        subst (Lighter c) same l
  ]
]

-- A loop that ends: with an exception, or with no refresh pending.
abbrev pub Ends : Option (Result HbmController) → Type 0
Ends r =
    ((e : Error) × (r ≡ some (err e)))
    ⊎ ((c : HbmController) × (r ≡ some (ok c)) × (is_refresh_pending c ≡ false))

idle_rounds-Ends :
    (fuel : ℕ) (c : HbmController) (cursor : ℕ)
    → IsPlanned c.config.standard
    → pending_load c < fuel
    → Ends (idle_rounds fuel c cursor)
unfolding idle_rounds
idle_rounds-Ends zero c cursor v l = absurd (omega arith)
idle_rounds-Ends (suc fuel) c cursor v l = elim (Bool-cases (is_refresh_pending c)) [
  | inr quiet ↦ inr (c, ground arith, quiet)
  | inl pending ↦ elim (Result-cases (idle_round c cursor)) [
    | inl (e, thrown) ↦ inl (e, ground arith)
    | inr ((next, later), hr) ↦
        let k = idle_round-Lighter c next cursor later v hr in
        let v' = subst (λ x. IsPlanned x.standard) (sym k.1) v in
        let step : idle_rounds (suc fuel) c cursor ≡ idle_rounds fuel next later = ground arith in
        rw step (idle_rounds-Ends fuel next later v' (omega (arith, k.0)))
  ]
]

change_bank-length :
    (change : HbmBankState → HbmBankState) (i : ℕ) (banks next : List HbmBankState)
    → change_bank (λ b. ok (change b)) i banks ≡ ok next
    → length next ≡ length banks
change_bank-length change i [] next h = absurd (cc)
change_bank-length change zero (b ∷ banks) next h =
    let e : next ≡ change b ∷ banks = ground arith in rw e refl
change_bank-length change (suc i) (b ∷ banks) next h =
    elim (Result-cases (change_bank (λ x. ok (change x)) i banks)) [
      | inl (e, thrown) ↦ absurd (ground arith)
      | inr (rest, hr) ↦
          let e : next ≡ b ∷ rest = ground arith in
          rw e (ap suc (change_bank-length change i banks rest hr))
    ]

request_refresh-frame :
    (c c' : HbmController)
    → request_refresh c ≡ ok c'
    → (length c'.banks ≡ length c.banks) × (c'.config ≡ c.config)
unfolding request_refresh
request_refresh-frame c c' h = elim (Bool-cases (uses_all_bank_refresh c.config.refresh_policy)) [
  | inl all ↦ let e : c' ≡ record c { refresh_pending = true } = ground arith in rw e (refl, refl)
  | inr one ↦
      let mark : HbmBankState → HbmBankState = λ b. record b { refresh_pending = true } in
      elim (Result-cases (change_bank (λ b. ok (mark b)) c.next_per_bank_refresh c.banks)) [
        | inl (e, thrown) ↦ absurd (ground arith)
        | inr (banks, hb) ↦
            let same : (c'.banks ≡ banks) × (c'.config ≡ c.config) = ground arith in
            (
              ap length same.0 ∙ change_bank-length mark c.next_per_bank_refresh c.banks banks hb,
              same.1,
            )
      ]
]

-- With no standard or one of the three, and more fuel than five for each bank and two for the channel, a refresh
-- of an idle channel ends, whatever requests and open rows its banks have: with an exception, or in a
-- state in which no refresh is pending.
pub apply_idle_refresh-Ends :
    (fuel : ℕ) (c : HbmController) (when : ℕ)
    → IsPlanned c.config.standard
    → 5 * length c.banks + 2 < fuel
    → Ends (apply_idle_refresh fuel c when)
unfolding apply_idle_refresh
apply_idle_refresh-Ends fuel c when v l = elim (Result-cases (request_refresh c)) [
  | inl (e, thrown) ↦ inl (e, ground arith)
  | inr (requested, hr) ↦
      let f = request_refresh-frame c requested hr in
      let v' = subst (λ x. IsPlanned x.standard) (sym f.1) v in
      let one : flag requested.refresh_pending ≤ 1 = ground arith in
      let step : apply_idle_refresh fuel c when
          ≡ idle_rounds fuel requested (max when requested.refresh_busy_until) =
        ground arith in
      rw step (
        idle_rounds-Ends fuel requested (max when requested.refresh_busy_until) v'
          (omega (arith, loads-bound requested.banks, f.0, one, l)))
]
