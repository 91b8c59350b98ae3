-- ===== src/Dram/Standard.antt =====
-- What the standards share (include/hbmsim/dram/hbm_standard.h, src/dram/hbm_standard.cpp): the tables of
-- prerequisites and transitions, and how they are read. A standard is a record of what its class
-- overrides; `prerequisites()` and `transitions()` are lists.
use hbmsim.Prelude.{
  ℕ, Bool, true, false, not, ◌&&◌, ◌||◌, Option, none, some, List, [], ◌∷◌, Result, ok, err,
  logic_error, invalid_argument, ◌>>=◌, ◌>>◌, throw_if, if◌then◌else◌, ◌==◌, is_some, add64, mul64,
}
use hbmsim.Dram.Command.{
  HbmCommand, read, write, read_auto, write_auto, command_eqb, DramCommand, from_generic,
}
use hbmsim.Bandwidth.{BandwidthRate}
use hbmsim.Mapping.{AddressMapping}
use hbmsim.Timing.Spec.{HbmTimingSpec, default_timing}
use hbmsim.Topology.{HbmTopology}

-- include/hbmsim/media/bank_state.h
pub record HbmBankState : Type 0 where
  pub open_row : Option ℕ
  pub precharge_pending : Bool
  pub refresh_pending : Bool
  pub rfm_pending : Bool
  pub activation_count : ℕ

abbrev pub idle_bank : HbmBankState
idle_bank = record {
  open_row = none;
  precharge_pending = false;
  refresh_pending = false;
  rfm_pending = false;
  activation_count = 0;
}

pub record HbmOrganization : Type 0 where
  pub topology : HbmTopology
  pub columns_per_row : ℕ
  pub rows_per_bank : ℕ
  pub physical_burst_bytes : ℕ
  pub address_interleave_bytes : ℕ
  pub address_mapping : AddressMapping
  pub pseudo_channel_rate : BandwidthRate

pub record HbmSpeedBin : Type 0 where
  pub tck_ps : ℕ
  pub n_bl : ℕ
  pub n_cl : ℕ
  pub n_rcd_rd : ℕ
  pub n_rcd_wr : ℕ
  pub n_rp : ℕ
  pub n_ras : ℕ
  pub n_wr : ℕ
  pub n_rtp : ℕ
  pub n_cwl : ℕ
  pub n_ccd_s : ℕ
  pub n_ccd_l : ℕ
  pub n_rrd_s : ℕ
  pub n_rrd_l : ℕ
  pub n_wtr_s : ℕ
  pub n_wtr_l : ℕ
  pub n_rtw : ℕ
  pub n_faw : ℕ
  pub n_ppd : ℕ
  pub t_rfc_ps : ℕ
  pub t_rfcpb_ps : ℕ
  pub n_ccd_r : ℕ
  pub n_rrefd : ℕ
  pub t_refi_ps : ℕ

unfoldable pub cycles : ℕ → ℕ → ℕ
cycles n tck = mul64 n tck

unfoldable pub resolve : HbmSpeedBin → Result HbmTimingSpec
unfolding cycles
resolve b = do
  throw_if (b.tck_ps == 0) invalid_argument
  let c = λ (n : ℕ). cycles n b.tck_ps
  ok (record default_timing {
    use_extended_hbm_timing = true;
    t_cl = c b.n_cl;
    t_rcd = c b.n_rcd_rd;
    t_rcd_rd = c b.n_rcd_rd;
    t_rcd_wr = c b.n_rcd_wr;
    t_rp = c b.n_rp;
    t_ras = c b.n_ras;
    t_rc = add64 (c b.n_ras) (c b.n_rp);
    t_wr = c b.n_wr;
    t_rtp = c b.n_rtp;
    t_cwl = c b.n_cwl;
    t_bl = c b.n_bl;
    t_ccd_s = c b.n_ccd_s;
    t_ccd_l = c b.n_ccd_l;
    t_ccd_r = c b.n_ccd_r;
    t_ccd = c b.n_ccd_s;
    t_rrd_s = c b.n_rrd_s;
    t_rrd_l = c b.n_rrd_l;
    t_rrd = c b.n_rrd_s;
    t_faw = c b.n_faw;
    t_wtr_s = c b.n_wtr_s;
    t_wtr_l = c b.n_wtr_l;
    t_wtr = add64 (add64 (c b.n_cwl) (c b.n_bl)) (c b.n_wtr_s);
    t_rtw = c b.n_rtw;
    t_ppd = c b.n_ppd;
    t_rrefd = c b.n_rrefd;
    t_refi = b.t_refi_ps;
    t_rfc = b.t_rfc_ps;
    t_rfcpb = b.t_rfcpb_ps;
    t_rfmab = b.t_rfc_ps;
    t_rfmpb = b.t_rfcpb_ps;
  })

pub data CommandCondition : Type 0 where
  target_closed different_row target_open any_open : CommandCondition

pub data CommandScope : Type 0 where
  bank channel : CommandScope

pub data CommandBus : Type 0 where
  unified row column : CommandBus

-- `unchanged` is `None` in the source.
pub data BankTransition : Type 0 where
  unchanged open_target close : BankTransition

pub record CommandPrerequisite : Type 0 where
  pub requested : HbmCommand
  pub condition : CommandCondition
  pub prerequisite : HbmCommand

pub record CommandTransition : Type 0 where
  pub command : HbmCommand
  pub scope : CommandScope
  pub transition : BankTransition

pub record CommandDecision : Type 0 where
  pub command : HbmCommand
  pub scope : CommandScope
  pub final_command : Bool

abbrev pub decision : HbmCommand → CommandScope → Bool → CommandDecision
decision command scope final_command = record {
  command = command;
  scope = scope;
  final_command = final_command;
}

-- What a class derived from `HbmStandard` provides.
pub record HbmStandard : Type 0 where
  pub organization : HbmOrganization
  pub speed_bin : HbmSpeedBin
  pub timing : HbmTimingSpec
  pub prerequisites : List CommandPrerequisite
  pub transitions : List CommandTransition
  pub supports : HbmCommand → Bool
  pub command_duration : HbmCommand → ℕ

-- The overload for the generic commands, the same in every class.
unfoldable pub supports_generic : HbmStandard → DramCommand → Bool
supports_generic s command = s.supports (from_generic command)

unfoldable pub command_bus : HbmCommand → CommandBus
command_bus command =
    if command_eqb command read
      || command_eqb command write
      || command_eqb command read_auto
      || command_eqb command write_auto
    then CommandBus.column
    else CommandBus.row

unfoldable pub find_transition : HbmCommand → List CommandTransition → Result CommandTransition
find_transition command [] = err logic_error
find_transition command (t ∷ ts) =
    let rest = find_transition command ts in if command_eqb t.command command then ok t else rest

unfoldable pub transition_for : HbmStandard → HbmCommand → Result CommandTransition
unfolding find_transition
transition_for s command = find_transition command s.transitions

-- `*bank.open_row != row`, where a row is open.
abbrev pub differs : Option ℕ → ℕ → Bool
differs none target = false
differs (some r) target = not (r == target)

unfoldable pub condition_holds : CommandCondition → ℕ → HbmBankState → Bool → Bool
condition_holds target_closed target_row b any_bank_open = not (is_some b.open_row)
condition_holds different_row target_row b any_bank_open = differs b.open_row target_row
condition_holds target_open target_row b any_bank_open = is_some b.open_row
condition_holds any_open target_row b any_bank_open = any_bank_open

-- The loop over the prerequisites: the first rule for the command whose condition holds.
unfoldable pub find_prerequisite :
    HbmCommand → ℕ → HbmBankState → Bool → List CommandPrerequisite → Option HbmCommand
unfolding condition_holds
find_prerequisite requested target_row b any_bank_open [] = none
find_prerequisite requested target_row b any_bank_open (rule ∷ rules) =
    let rest = find_prerequisite requested target_row b any_bank_open rules in
    if command_eqb rule.requested requested
      && condition_holds rule.condition target_row b any_bank_open
    then some rule.prerequisite
    else rest

unfoldable pub resolve_prerequisite :
    HbmStandard → HbmCommand → ℕ → HbmBankState → Bool → Result CommandDecision
unfolding find_prerequisite transition_for
resolve_prerequisite s requested target_row target_bank any_bank_open = do
  throw_if (not (s.supports requested)) logic_error
  elim (find_prerequisite requested target_row target_bank any_bank_open s.prerequisites) [
    | some prerequisite ↦
        transition_for s prerequisite >>= λ t. ok (decision prerequisite t.scope false)
    | none ↦ transition_for s requested >>= λ t. ok (decision requested t.scope true)
  ]

abbrev pub apply_rule : BankTransition → ℕ → HbmBankState → HbmBankState
apply_rule unchanged target_row b = b
apply_rule open_target target_row b = record b {
  open_row = some target_row;
  precharge_pending = false;
}
apply_rule close target_row b = record b { open_row = none; precharge_pending = false }

unfoldable pub apply_transition : HbmStandard → HbmCommand → ℕ → HbmBankState → Result HbmBankState
unfolding transition_for
apply_transition s command target_row b = do
  rule ← transition_for s command
  ok (apply_rule rule.transition target_row b)
