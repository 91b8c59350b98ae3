-- ===== src/Dram/Progress.antt =====
-- The rule tables of the three standards lead every request to its command.
use hbmsim.Prelude.{
  ℕ, zero, suc, ◌≡◌, subst, sym, ok-injective, ◌⊎◌, refl, Bool, true, false, Option, none, some,
  List, [], ◌∷◌, Result, ok, err, logic_error, arith, if◌then◌else◌, is_some, ◌==◌,
}
use hbmsim.Dram.Command.{HbmCommand, act, pre_bank, read_auto, write_auto, is_data_command}
use hbmsim.Dram.Standard.{
  HbmBankState, HbmStandard, CommandScope, CommandDecision, resolve_prerequisite, apply_transition,
}
use hbmsim.Dram.Profiles.{
  hbm2_prerequisites, hbm3_prerequisites, hbm2_transitions, hbm3_transitions, common_support,
  rfm_support, hbm2_standard, hbm3_standard, hbm4_standard,
}

-- The tables of a standard are those of HBM2, or those that HBM3 and HBM4 share.
pub data IsProfile (s : HbmStandard) : Type 0 where
  without_rfm :
      s.prerequisites ≡ hbm2_prerequisites
      → s.transitions ≡ hbm2_transitions
      → s.supports ≡ common_support
      → IsProfile s
  with_rfm :
      s.prerequisites ≡ hbm3_prerequisites
      → s.transitions ≡ hbm3_transitions
      → s.supports ≡ rfm_support
      → IsProfile s

pub hbm2-IsProfile : (s : HbmStandard) → hbm2_standard ≡ ok s → IsProfile s
unfolding hbm2_standard
hbm2-IsProfile s e = subst IsProfile (ok-injective e) (without_rfm refl refl refl)

pub hbm3-IsProfile : (s : HbmStandard) → hbm3_standard ≡ ok s → IsProfile s
unfolding hbm3_standard
hbm3-IsProfile s e = subst IsProfile (ok-injective e) (with_rfm refl refl refl)

pub hbm4-IsProfile : IsProfile hbm4_standard
unfolding hbm4_standard
hbm4-IsProfile = with_rfm refl refl refl

abbrev pub old_tables : HbmStandard → HbmStandard
old_tables s = record s {
  prerequisites = hbm2_prerequisites;
  transitions = hbm2_transitions;
  supports = common_support;
}

abbrev pub new_tables : HbmStandard → HbmStandard
new_tables s = record s {
  prerequisites = hbm3_prerequisites;
  transitions = hbm3_transitions;
  supports = rfm_support;
}

-- A property of the two kinds of tables holds of every profile.
pub by_tables :
    (P : HbmStandard → Type 0) (s : HbmStandard)
    → IsProfile s
    → P (old_tables s)
    → P (new_tables s)
    → P s
by_tables P s (without_rfm p t u) old new =
    let e : s ≡ old_tables s =
      λ i. record s { prerequisites = p i; transitions = t i; supports = u i } in
    subst P (sym e) old
by_tables P s (with_rfm p t u) old new =
    let e : s ≡ new_tables s =
      λ i. record s { prerequisites = p i; transitions = t i; supports = u i } in
    subst P (sym e) new

abbrev data_decision : HbmCommand → ℕ → Option ℕ → CommandDecision
data_decision c row none = record {
  command = act;
  scope = CommandScope.bank;
  final_command = false;
}
data_decision c row (some r) =
    if r == row
    then record { command = c; scope = CommandScope.bank; final_command = true }
    else record { command = pre_bank; scope = CommandScope.bank; final_command = false }

pub resolve_prerequisite-data :
    (s : HbmStandard) (c : HbmCommand) (row : ℕ) (b : HbmBankState) (any : Bool)
    → IsProfile s
    → is_data_command c ≡ true
    → resolve_prerequisite s c row b any ≡ ok (data_decision c row b.open_row)
unfolding resolve_prerequisite is_data_command rfm_support
resolve_prerequisite-data s c row b any k h =
    by_tables (λ x. resolve_prerequisite x c row b any ≡ ok (data_decision c row b.open_row)) s k
      (ground arith) (ground arith)

abbrev pub Resolves : HbmStandard → HbmCommand → Result CommandDecision → Type 0
Resolves s c (err e) = ⊥
Resolves s c (ok d) =
    (s.supports d.command ≡ true)
    × (((d.final_command ≡ true) × (d.command ≡ c))
        ⊎ ((d.final_command ≡ false) × (is_data_command d.command ≡ false)))

abbrev pub Total : HbmCommand → ℕ → HbmBankState → Bool → HbmStandard → Type 0
Total c row b any s =
    ((s.supports c ≡ true) × Resolves s c (resolve_prerequisite s c row b any))
    ⊎ ((s.supports c ≡ false) × (resolve_prerequisite s c row b any ≡ err logic_error))

old_tables-Total :
    (c : HbmCommand) (row : ℕ) (b : HbmBankState) (any : Bool) (s : HbmStandard)
    → Total c row b any (old_tables s)
unfolding resolve_prerequisite is_data_command common_support
old_tables-Total act row b any s = ground arith
old_tables-Total _ row b any s = ground arith

new_tables-Total :
    (c : HbmCommand) (row : ℕ) (b : HbmBankState) (any : Bool) (s : HbmStandard)
    → Total c row b any (new_tables s)
unfolding resolve_prerequisite is_data_command rfm_support
new_tables-Total act row b any s = ground arith
new_tables-Total _ row b any s = ground arith

-- Resolving a command that a standard supports never throws and never leads outside what the standard
-- supports; resolving any other throws `logic_error`. A final decision is the request itself, and an
-- intermediate one is never a data command.
pub resolve_prerequisite-Total :
    (s : HbmStandard) (c : HbmCommand) (row : ℕ) (b : HbmBankState) (any : Bool)
    → IsProfile s
    → Total c row b any s
resolve_prerequisite-Total s c row b any k =
    by_tables (Total c row b any) s k (old_tables-Total c row b any s)
      (new_tables-Total c row b any s)

abbrev pub prepend :
    HbmCommand
    → Option (Result (List HbmCommand × HbmBankState))
    → Option (Result (List HbmCommand × HbmBankState))
prepend c (some (ok (cs, b))) = some (ok (c ∷ cs, b))
prepend c r = r

-- A request on its own: resolve, issue, and again until the request itself was issued.
unfoldable pub run_request :
    ℕ
    → HbmStandard
    → HbmCommand
    → ℕ
    → HbmBankState
    → Option (Result (List HbmCommand × HbmBankState))
run_request zero s c row b = none
run_request (suc fuel) s c row b = elim (resolve_prerequisite s c row b (is_some b.open_row)) [
  | err e ↦ some (err e)
  | ok d ↦ elim (apply_transition s d.command row b) [
    | err e ↦ some (err e)
    | ok b' ↦ elim d.final_command [
      | true ↦ some (ok (d.command ∷ [], b'))
      | false ↦ prepend d.command (run_request fuel s c row b')
    ]
  ]
]

abbrev pub path_to : HbmCommand → ℕ → Option ℕ → List HbmCommand
path_to c row none = act ∷ c ∷ []
path_to c row (some r) = if r == row then c ∷ [] else pre_bank ∷ act ∷ c ∷ []

-- What a data command leaves: its row, or a closed bank after an auto-precharge.
abbrev pub row_after : HbmCommand → ℕ → Option ℕ
row_after read_auto row = none
row_after write_auto row = none
row_after c row = some row

abbrev pub Ends :
    HbmCommand → ℕ → HbmBankState → Option (Result (List HbmCommand × HbmBankState)) → Type 0
Ends c row b none = ⊥
Ends c row b (some (err e)) = ⊥
Ends c row b (some (ok (cs, final))) =
    (cs ≡ path_to c row b.open_row) × (final.open_row ≡ row_after c row)

old_tables-Ends :
    (c : HbmCommand) (row : ℕ) (b : HbmBankState) (s : HbmStandard)
    → is_data_command c ≡ true
    → Ends c row b (run_request 3 (old_tables s) c row b)
unfolding run_request resolve_prerequisite apply_transition is_data_command common_support
old_tables-Ends act row b s h = ground arith
old_tables-Ends _ row b s h = ground arith

new_tables-Ends :
    (c : HbmCommand) (row : ℕ) (b : HbmBankState) (s : HbmStandard)
    → is_data_command c ≡ true
    → Ends c row b (run_request 3 (new_tables s) c row b)
unfolding run_request resolve_prerequisite apply_transition is_data_command rfm_support
new_tables-Ends act row b s h = ground arith
new_tables-Ends _ row b s h = ground arith

-- A data request on a bank of a standard takes at most three commands: the request alone if its row is
-- open, an activation first if the bank is closed, and a precharge before that if another row is open.
-- It leaves its row open, or the bank closed if it precharges by itself.
pub run_request-data :
    (s : HbmStandard) (c : HbmCommand) (row : ℕ) (b : HbmBankState)
    → IsProfile s
    → is_data_command c ≡ true
    → Ends c row b (run_request 3 s c row b)
run_request-data s c row b k h =
    by_tables (λ x. Ends c row b (run_request 3 x c row b)) s k (old_tables-Ends c row b s h)
      (new_tables-Ends c row b s h)
