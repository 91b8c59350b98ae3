-- ===== src/Timing/Spec.antt =====
-- include/hbmsim/timing/timing_spec.h and src/timing/timing_spec.cpp: the timing parameters, in
-- picoseconds, and the table of constraints that they stand for.
use hbmsim.Prelude.{ℕ, ◌+◌, ◌*◌, Bool, false, List, [], ◌∷◌, add64, if◌then◌else◌}
use hbmsim.Dram.Command.{
  HbmCommand, act, pre_bank, read, write, refresh_all_bank, refresh_per_bank, rfm_all_bank,
  rfm_per_bank,
}

pub data TimingScope : Type 0 where
  bank bank_group sid pseudo_channel channel : TimingScope

pub record TimingConstraint : Type 0 where
  pub preceding : HbmCommand
  pub following : HbmCommand
  pub scope : TimingScope
  pub distance : ℕ
  pub delay : ℕ

pub record HbmTimingSpec : Type 0 where
  pub t_command : ℕ
  pub t_rcd : ℕ
  pub t_rp : ℕ
  pub t_cl : ℕ
  pub t_ras : ℕ
  pub t_rc : ℕ
  pub t_ccd : ℕ
  pub t_rrd : ℕ
  pub t_faw : ℕ
  pub t_wtr : ℕ
  pub t_rtw : ℕ
  pub t_rfc : ℕ
  pub t_rfcpb : ℕ
  pub t_rfmab : ℕ
  pub t_rfmpb : ℕ
  pub use_extended_hbm_timing : Bool
  pub t_rcd_rd : ℕ
  pub t_rcd_wr : ℕ
  pub t_ccd_s : ℕ
  pub t_ccd_l : ℕ
  pub t_ccd_r : ℕ
  pub t_rrd_s : ℕ
  pub t_rrd_l : ℕ
  pub t_wtr_s : ℕ
  pub t_wtr_l : ℕ
  pub t_wr : ℕ
  pub t_rtp : ℕ
  pub t_cwl : ℕ
  pub t_bl : ℕ
  pub t_ppd : ℕ
  pub t_rrefd : ℕ
  pub t_refi : ℕ

-- The member initialisers.
abbrev pub default_timing : HbmTimingSpec
default_timing = record {
  t_command = 0;
  t_rcd = 14_000;
  t_rp = 14_000;
  t_cl = 14_000;
  t_ras = 33_000;
  t_rc = 47_000;
  t_ccd = 4_000;
  t_rrd = 4_000;
  t_faw = 16_000;
  t_wtr = 7_500;
  t_rtw = 7_500;
  t_rfc = 260_000;
  t_rfcpb = 160_000;
  t_rfmab = 260_000;
  t_rfmpb = 160_000;
  use_extended_hbm_timing = false;
  t_rcd_rd = 0;
  t_rcd_wr = 0;
  t_ccd_s = 0;
  t_ccd_l = 0;
  t_ccd_r = 0;
  t_rrd_s = 0;
  t_rrd_l = 0;
  t_wtr_s = 0;
  t_wtr_l = 0;
  t_wr = 0;
  t_rtp = 0;
  t_cwl = 0;
  t_bl = 0;
  t_ppd = 0;
  t_rrefd = 0;
  t_refi = 0;
}

abbrev row : HbmCommand → HbmCommand → TimingScope → ℕ → ℕ → TimingConstraint
row preceding following scope distance delay = record {
  preceding = preceding;
  following = following;
  scope = scope;
  distance = distance;
  delay = delay;
}

-- The table of the canonical HBM timing vocabulary.
extended_constraints : HbmTimingSpec → List TimingConstraint
extended_constraints t =
    row act read bank 1 t.t_rcd_rd
    ∷ row act write bank 1 t.t_rcd_wr
    ∷ row pre_bank act bank 1 t.t_rp
    ∷ row act pre_bank bank 1 t.t_ras
    ∷ row act act bank 1 t.t_rc
    ∷ row read pre_bank bank 1 t.t_rtp
    ∷ row write pre_bank bank 1 (add64 (add64 t.t_cwl t.t_bl) t.t_wr)
    ∷ row read read pseudo_channel 1 t.t_ccd_s
    ∷ row write write pseudo_channel 1 t.t_ccd_s
    ∷ row read write pseudo_channel 1 t.t_rtw
    ∷ row write read pseudo_channel 1 (add64 (add64 t.t_cwl t.t_bl) t.t_wtr_s)
    ∷ row read read bank_group 1 t.t_ccd_l
    ∷ row write write bank_group 1 t.t_ccd_l
    ∷ row write read bank_group 1 (add64 (add64 t.t_cwl t.t_bl) t.t_wtr_l)
    ∷ row read read sid 1 t.t_ccd_s
    ∷ row write write sid 1 t.t_ccd_s
    ∷ row act act bank_group 1 t.t_rrd_l
    ∷ row act act pseudo_channel 1 t.t_rrd_s
    ∷ row act act pseudo_channel 4 t.t_faw
    ∷ row pre_bank pre_bank pseudo_channel 1 t.t_ppd
    ∷ row refresh_all_bank act channel 1 t.t_rfc
    ∷ row refresh_per_bank act bank 1 t.t_rfcpb
    ∷ row refresh_per_bank act pseudo_channel 1 t.t_rrefd
    ∷ row refresh_per_bank refresh_per_bank pseudo_channel 1 t.t_rrefd
    ∷ row rfm_all_bank act channel 1 t.t_rfmab
    ∷ row rfm_per_bank act bank 1 t.t_rfmpb
    ∷ row act refresh_per_bank bank 1 t.t_rc
    ∷ row pre_bank refresh_per_bank bank 1 t.t_rp
    ∷ row act refresh_all_bank pseudo_channel 1 t.t_rc
    ∷ row pre_bank refresh_all_bank pseudo_channel 1 t.t_rp
    ∷ row refresh_per_bank refresh_all_bank pseudo_channel 1 t.t_rfcpb
    ∷ row act rfm_per_bank bank 1 t.t_rc
    ∷ []

-- The table of the compact legacy profile.
legacy_constraints : HbmTimingSpec → List TimingConstraint
legacy_constraints t =
    row act read bank 1 t.t_rcd
    ∷ row act write bank 1 t.t_rcd
    ∷ row pre_bank act bank 1 t.t_rp
    ∷ row act pre_bank bank 1 t.t_ras
    ∷ row act act bank 1 t.t_rc
    ∷ row read read pseudo_channel 1 t.t_ccd
    ∷ row write write pseudo_channel 1 t.t_ccd
    ∷ row read write pseudo_channel 1 t.t_rtw
    ∷ row write read pseudo_channel 1 t.t_wtr
    ∷ row act act bank_group 1 t.t_rrd
    ∷ row act act pseudo_channel 1 t.t_rrd
    ∷ row act act pseudo_channel 4 t.t_faw
    ∷ row refresh_all_bank act channel 1 t.t_rfc
    ∷ row refresh_per_bank act bank 1 t.t_rfcpb
    ∷ row rfm_all_bank act channel 1 t.t_rfmab
    ∷ row rfm_per_bank act bank 1 t.t_rfmpb
    ∷ row act refresh_per_bank bank 1 t.t_rc
    ∷ row act rfm_per_bank bank 1 t.t_rc
    ∷ []

unfoldable pub constraints : HbmTimingSpec → List TimingConstraint
unfolding extended_constraints legacy_constraints
constraints t = if t.use_extended_hbm_timing then extended_constraints t else legacy_constraints t

unfoldable pub hbm4_8000 : HbmTimingSpec
hbm4_8000 =
    let t_ras : ℕ = 57 * 500 in
    let t_rp : ℕ = 33 * 500 in
    record default_timing {
      t_command = 500;
      t_rcd = 39 * 500;
      t_rp = t_rp;
      t_cl = 20 * 500;
      t_ras = t_ras;
      t_rc = t_ras + t_rp;
      t_ccd = 2 * 500;
      t_rrd = 5 * 500;
      t_faw = 30 * 500;
      t_wtr = (10 + 2 + 9) * 500;
      t_rtw = 15 * 500;
      t_rfc = 450_000;
      t_rfcpb = 280_000;
      t_rfmab = 450_000;
      t_rfmpb = 280_000;
    }
