-- ===== src/System/Admission/Submission.antt =====
-- What a submission does, by its answer.
use hbmsim.Prelude.{
  ℕ, suc, ◌≡◌, ◌≢◌, ◌≤◌, ◌⊎◌, inl, inr, sym, ap, ◌∙◌, arith, Bool, true, false, none, some, List,
  [], ◌∷◌, Result, ok, Bool-cases, Result-cases, Ran-cases, Option-cases, get_at, subst, add64, set,
  replicate, length, max,
}
use hbmsim.Statistics.{HbmStats, ChannelStats, change_channel}
use hbmsim.Controller.State.{HbmController}
use hbmsim.Controller.Wakeups.{mark_wakeup, claim_refresh_event}
use hbmsim.System.Admission.{
  schedule_event, schedule_controller_wake, schedule_refresh_due, next_part, pump, wake_touched,
  pump_admissions, refusal, reject, enter, is_full, try_submit_now,
}
use hbmsim.System.Admission.Frame.{
  keys, length-keys, Keeps, Keeps-trans, pump-Keeps, schedule_event-Keeps,
}
use hbmsim.System.State.{HbmSystem, controller_wake, refresh_due, find_parent}
use hbmsim.System.Transaction.{HbmTransaction, SubmitStatus, accepted, backpressure}

-- An event that is scheduled on a system that differs in its controllers.
schedule_event-Keeps-set :
    (s s' : HbmSystem) (cs : List HbmController) (when : ℕ) (event : _)
    → schedule_event (record s { controllers = cs }) when event ≡ ok s'
    → Keeps s s'
schedule_event-Keeps-set s s' cs when event h =
    let e = schedule_event-Keeps (record s { controllers = cs }) s' when event h in
    record { same_keys = ap keys e.0; same_config = e.1 }

refl-Keeps : (s s' : HbmSystem) → s' ≡ s → Keeps s s'
refl-Keeps s s' same = record {
  same_keys = ap (λ (x : HbmSystem). keys x.parents) same;
  same_config = ap (λ (x : HbmSystem). x.config) same;
}

schedule_controller_wake-Keeps :
    (s s' : HbmSystem) (channel when : ℕ)
    → schedule_controller_wake s channel when ≡ ok s'
    → Keeps s s'
unfolding schedule_controller_wake
schedule_controller_wake-Keeps s s' channel when h =
    elim (Result-cases (get_at s.controllers channel)) [
      | inl (e, thrown) ↦ absurd (ground arith)
      | inr (c, hc) ↦
          let time = max when s.scheduler.now in
          elim (Bool-cases (mark_wakeup c.wakeups time).0) [
            | inr covered ↦ refl-Keeps s s' (ground arith)
            | inl marked ↦
                schedule_event-Keeps-set s s'
                  (set s.controllers channel
                    (record c { wakeups = (mark_wakeup c.wakeups time).1 }))
                  time (controller_wake channel time) (ground arith)
          ]
    ]

schedule_refresh_due-Keeps :
    (s s' : HbmSystem) (channel : ℕ) → schedule_refresh_due s channel ≡ ok s' → Keeps s s'
unfolding schedule_refresh_due
schedule_refresh_due-Keeps s s' channel h = elim (Result-cases (get_at s.controllers channel)) [
  | inl (e, thrown) ↦ absurd (ground arith)
  | inr (c, hc) ↦ elim (Option-cases (claim_refresh_event c.wakeups).0) [
    | inl none_due ↦ refl-Keeps s s' (ground arith)
    | inr (due, hd) ↦
        schedule_event-Keeps-set s s'
          (set s.controllers channel (record c { wakeups = (claim_refresh_event c.wakeups).1 })) due
          (refresh_due channel due) (ground arith)
  ]
]

wake_touched-Keeps :
    (channel : ℕ) (touched : List Bool) (s s' : HbmSystem)
    → wake_touched channel touched s ≡ ok s'
    → Keeps s s'
unfolding wake_touched
wake_touched-Keeps channel [] s s' h = refl-Keeps s s' (ground arith)
wake_touched-Keeps channel (false ∷ touched) s s' h =
    wake_touched-Keeps (suc channel) touched s s' h
wake_touched-Keeps channel (true ∷ touched) s s' h =
    elim (Result-cases (schedule_refresh_due s channel)) [
      | inl (e, thrown) ↦ absurd (ground arith)
      | inr (refreshed, hr) ↦
          elim (Result-cases (schedule_controller_wake refreshed channel refreshed.scheduler.now)) [
            | inl (e, thrown) ↦ absurd (ground arith)
            | inr (woken, hw) ↦
                Keeps-trans s refreshed s' (schedule_refresh_due-Keeps s refreshed channel hr) (
                  Keeps-trans refreshed woken s'
                    (schedule_controller_wake-Keeps refreshed woken channel refreshed.scheduler.now
                      hw)
                    (wake_touched-Keeps (suc channel) touched woken s' (ground arith)))
          ]
    ]

pump_admissions-Keeps :
    (fuel : ℕ) (s s' : HbmSystem) → pump_admissions fuel s ≡ some (ok s') → Keeps s s'
unfolding pump_admissions
pump_admissions-Keeps fuel s s' h =
    let quiet = replicate (length s.controllers) false in
    elim (Ran-cases (pump fuel s quiet s.pending_admissions)) [
      | inl out ↦ absurd (ground arith)
      | inr (inl (e, thrown)) ↦ absurd (ground arith)
      | inr (inr ((next, ids, touched), hp)) ↦
          let k = pump-Keeps fuel s next quiet touched s.pending_admissions ids hp in
          let w =
            wake_touched-Keeps 0 touched (record next { pending_admissions = ids }) s'
              (ground arith) in
          record {
            same_keys = w.same_keys ∙ k.same_keys;
            same_config = w.same_config ∙ k.same_config;
          }
    ]

-- A change of the counters alone.
frame :
    (s s' : HbmSystem) (stats : HbmStats)
    → s' ≡ record s { stats = stats }
    → s' ≡ record s { stats = s'.stats }
frame s s' stats e =
    e ∙ ap (λ st. record s { stats = st }) (sym (ap (λ (x : HbmSystem). x.stats) e))

reject-frame :
    (s s' : HbmSystem) (channel : ℕ) → reject s channel ≡ ok s' → s' ≡ record s { stats = s'.stats }
unfolding reject
reject-frame s s' channel h =
    let rejected : ChannelStats → Result ChannelStats = λ k. ok (record k {
      queue = record k.queue { rejected_transactions = add64 k.queue.rejected_transactions 1 };
    }) in
    let counted : HbmStats = record s.stats {
      rejected_transactions = add64 s.stats.rejected_transactions 1;
    } in
    elim (Result-cases (change_channel rejected channel counted)) [
      | inl (e, thrown) ↦ absurd (ground arith)
      | inr (stats, hs) ↦ frame s s' stats (ground arith)
    ]

refusal-some :
    (s : HbmSystem) (t : HbmTransaction) (status : SubmitStatus)
    → refusal s t ≡ some status
    → status ≢ accepted
unfolding refusal
refusal-some s t status h = ground arith

refusal-none :
    (s : HbmSystem) (t : HbmTransaction) → refusal s t ≡ none → find_parent t.id s.parents ≡ none
unfolding refusal
refusal-none s t h = ground arith

-- An answer other than `accepted` changes at most the counters of the system. An accepted transaction was
-- not active before; it is active afterwards beside exactly those that were, and no more are active than
-- the configuration allows.
pub try_submit_now-Outcome :
    (fuel : ℕ) (s s' : HbmSystem) (t : HbmTransaction) (status : SubmitStatus)
    → try_submit_now fuel s t ≡ some (ok (status, s'))
    → ((status ≢ accepted) × (s' ≡ record s { stats = s'.stats }))
      ⊎ ((status ≡ accepted)
          × (find_parent t.id s.parents ≡ none)
          × (keys s'.parents ≡ t.id ∷ keys s.parents)
          × (length s'.parents ≤ s'.config.controller.max_active_transactions))
unfolding try_submit_now
try_submit_now-Outcome fuel s s' t status h = elim (Option-cases (refusal s t)) [
  | inr (refused, hr) ↦
      let same : s' ≡ s = ground arith in
      let answer : refused ≡ status = ground arith in
      inl (subst (λ x. x ≢ accepted) answer (refusal-some s t refused hr), frame s s' s.stats same)
  | inl passed ↦ elim (Ran-cases (next_part s t 0)) [
    | inl out ↦ absurd (ground arith)
    | inr (inl (e, thrown)) ↦ absurd (ground arith)
    | inr (inr (first, hf)) ↦
        elim (Result-cases (get_at s.controllers first.address.flat_channel)) [
          | inl (e, thrown) ↦ absurd (ground arith)
          | inr (c, hc) ↦ elim (Bool-cases (is_full s c t)) [
            | inl full ↦ elim (Result-cases (reject s first.address.flat_channel)) [
              | inl (e, thrown) ↦ absurd (ground arith)
              | inr (rejected, hj) ↦
                  let answer : (status ≡ backpressure) × (s' ≡ rejected) = ground arith in
                  inl (
                    ground arith,
                    rw answer.1 (reject-frame s rejected first.address.flat_channel hj),
                  )
            ]
            | inr room ↦ elim (Ran-cases (pump_admissions fuel (enter s t))) [
              | inl out ↦ absurd (ground arith)
              | inr (inl (e, thrown)) ↦ absurd (ground arith)
              | inr (inr (next, hn)) ↦
                  let k = pump_admissions-Keeps fuel (enter s t) next hn in
                  let answer : (status ≡ accepted) × (s' ≡ next) = ground arith in
                  let below : suc (length s.parents) ≤ s.config.controller.max_active_transactions =
                    ground arith in
                  let count : length next.parents ≡ suc (length s.parents) =
                    sym (length-keys next.parents)
                    ∙ ap length k.same_keys
                    ∙ ap suc (length-keys s.parents) in
                  inr (
                    answer.0,
                    refusal-none s t passed,
                    ap (λ (x : HbmSystem). keys x.parents) answer.1 ∙ k.same_keys,
                    rw (answer.1, count, k.same_config) below,
                  )
            ]
          ]
        ]
  ]
]
