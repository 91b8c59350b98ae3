-- ===== src/Timing/Engine/History.antt =====
-- Four times for each resource and command are enough: what the engine reads back is what an unbounded
-- log of all commands says.
use hbmsim.Prelude.{
  ℕ, zero, suc, ◌-◌, ◌≤◌, ◌<◌, ◌≡◌, ◌∙◌, inl, inr, refl, Bool, true, false, ◌&&◌, none, List, [],
  ◌∷◌, arith, if◌then◌else◌, ◌==◌, length, get_elem?, All, All-imp, Bool-cases,
}
use hbmsim.Dram.Command.{HbmCommand, command_eqb}
use hbmsim.Mapping.{HbmAddress}
use hbmsim.Timing.Spec.{TimingConstraint, TimingScope, HbmTimingSpec, constraints}
use hbmsim.Timing.Engine.{
  HbmTimingEngine, timing_command, preceding_time, resource_index, resource_key, back, push_time,
  entry, record_command, make_engine,
}
use hbmsim.Timing.Engine.Records.{HasWords, length-push_time, back-push_time, entry-record_command}

-- A command that was issued.
pub record Issued : Type 0 where
  pub command : HbmCommand
  pub address : HbmAddress
  pub when : ℕ

-- The engine after a log, its newest command first.
unfoldable pub engine_after : HbmTimingEngine → List Issued → HbmTimingEngine
engine_after t [] = t
engine_after t (i ∷ log) = record_command (engine_after t log) i.command i.address i.when

abbrev on_resource : TimingScope → HbmAddress → HbmCommand → Issued → Bool
on_resource scope address command i =
    resource_index scope i.address == resource_index scope address
    && command_eqb command (timing_command i.command)

-- All times of a command on a resource, the newest first.
unfoldable pub past : TimingScope → HbmAddress → HbmCommand → List Issued → List ℕ
past scope address command [] = []
past scope address command (i ∷ log) =
    let rest = past scope address command log in
    if on_resource scope address command i then i.when ∷ rest else rest

-- The stored times are the newest of all times.
abbrev Mirrors : List ℕ → List ℕ → Type 0
Mirrors times all = (length times ≤ 4) × ((d : ℕ) → d < 4 → back (suc d) times ≡ get_elem? all d)

Mirrors-push_time :
    (times all : List ℕ) (w : ℕ) → Mirrors times all → Mirrors (push_time times w) (w ∷ all)
Mirrors-push_time times all w m = (length-push_time times w m.0, λ d l. go d l)
  where
    go : (d : ℕ) → d < 4 → back (suc d) (push_time times w) ≡ get_elem? (w ∷ all) d
    go zero l = back-push_time times w zero m.0 l
    go (suc d) l = back-push_time times w (suc d) m.0 l ∙ ground (arith, m.1 d)

Mirrors-if :
    (hit : Bool) (times all : List ℕ) (w : ℕ)
    → Mirrors times all
    → Mirrors (if hit then push_time times w else times) (if hit then w ∷ all else all)
Mirrors-if true times all w m = Mirrors-push_time times all w m
Mirrors-if false times all w m = m

engine_after-Mirrors :
    (spec : HbmTimingSpec) (log : List Issued) (s : TimingScope) (a : HbmAddress) (c : HbmCommand)
    → HasWords a
    → All (λ (i : Issued). HasWords i.address) log
    → Mirrors
        (entry ((engine_after (make_engine spec) log).history (resource_key s a)) c)
        (past s a c log)
unfolding engine_after past make_engine
engine_after-Mirrors spec [] s a c v w = (omega arith, λ d l. ground arith)
engine_after-Mirrors spec (i ∷ log) s a c v w =
    let t = engine_after (make_engine spec) log in
    rw (entry-record_command t s a i.address i.command c i.when v w.0) (
      Mirrors-if (on_resource s a c i) (entry (t.history (resource_key s a)) c) (past s a c log)
        i.when (engine_after-Mirrors spec log s a c v w.1))

-- Every row of either table counts from one of the last four commands.
abbrev IsNear : TimingConstraint → Type 0
IsNear c = (0 < c.distance) × (c.distance ≤ 4)

constraints-IsNear : (spec : HbmTimingSpec) → All IsNear (constraints spec)
unfolding constraints
constraints-IsNear spec = elim (Bool-cases spec.use_extended_hbm_timing) [
  | inl e ↦ rw (e, constraints) (omega arith)
  | inr e ↦ rw (e, constraints) (omega arith)
]

entry-preceding_time :
    (t : HbmTimingEngine) (command : HbmCommand) (a : HbmAddress) (c : TimingConstraint)
    → 0 < c.distance
    → preceding_time t command a c ≡ (
        if command_eqb c.following command
        then back c.distance (entry (t.history (resource_key c.scope a)) c.preceding)
        else none)
unfolding preceding_time
entry-preceding_time t command a c h = ground arith

-- In any history of the engine that a timing specification makes, each row of its table reads exactly
-- the time that the row's distance picks from all times ever recorded of the preceding command on
-- the row's resource, the newest first, if the row is about the command and there were that many.
-- So dropping all but four times, and the shared hash table of the five scopes, lose nothing.
pub preceding_time-past :
    (spec : HbmTimingSpec) (log : List Issued) (command : HbmCommand) (a : HbmAddress)
    → HasWords a
    → All (λ (i : Issued). HasWords i.address) log
    → All
        (λ (c : TimingConstraint).
          preceding_time (engine_after (make_engine spec) log) command a c ≡ (
            if command_eqb c.following command
            then get_elem? (past c.scope a c.preceding log) (c.distance - 1)
            else none))
        (constraints spec)
preceding_time-past spec log command a v w =
    All-imp IsNear _
      (λ c n.
        let e : c.distance ≡ suc (c.distance - 1) = omega (arith, n.0) in
        let b =
          (engine_after-Mirrors spec log c.scope a c.preceding v w).1 (c.distance - 1)
            (omega (arith, n.0, n.1)) in
        let b' : back c.distance (
              entry ((engine_after (make_engine spec) log).history (resource_key c.scope a))
                c.preceding)
            ≡ get_elem? (past c.scope a c.preceding log) (c.distance - 1) =
          rw (← e) at b in
        entry-preceding_time (engine_after (make_engine spec) log) command a c n.0 ∙ rw b' refl)
      (constraints spec) (constraints-IsNear spec)
