-- ===== src/Dram/Profiles.antt =====
-- The three standards of src/dram/hbm_standard.cpp.
use hbmsim.Prelude.{ℕ, ◌+◌, ◌*◌, ◌/◌, Bool, ◌||◌, List, [], ◌∷◌, Result, ok, if◌then◌else◌, ◌>>=◌}
use hbmsim.Dram.Command.{
  HbmCommand, act, pre_bank, pre_all, read, write, read_auto, write_auto, refresh_all_bank,
  refresh_per_bank, rfm_all_bank, rfm_per_bank, command_eqb,
}
use hbmsim.Dram.Standard.{
  CommandCondition, target_closed, different_row, target_open, any_open, CommandScope,
  BankTransition, unchanged, open_target, close, CommandPrerequisite, CommandTransition,
  HbmOrganization, HbmSpeedBin, HbmStandard, resolve,
}
use hbmsim.Mapping.{linear, hbm2_pseudo_channel_brc}
use hbmsim.Timing.Spec.{hbm4_8000}

-- `kHbmLevels`: the levels of an address, outermost first, the same for every standard.
pub data AddressLevel : Type 0 where
  stack channel pseudo_channel sid rank bank_group bank row column : AddressLevel

unfoldable pub levels : List AddressLevel
levels =
    AddressLevel.channel ∷ AddressLevel.pseudo_channel ∷ AddressLevel.sid ∷ AddressLevel.bank_group
    ∷ AddressLevel.bank ∷ AddressLevel.row ∷ AddressLevel.column ∷ []

abbrev rule : HbmCommand → CommandCondition → HbmCommand → CommandPrerequisite
rule requested condition prerequisite = record {
  requested = requested;
  condition = condition;
  prerequisite = prerequisite;
}

abbrev transition : HbmCommand → CommandScope → BankTransition → CommandTransition
transition command scope t = record { command = command; scope = scope; transition = t }

abbrev pub hbm2_prerequisites : List CommandPrerequisite
hbm2_prerequisites =
    rule read different_row pre_bank
    ∷ rule read target_closed act
    ∷ rule write different_row pre_bank
    ∷ rule write target_closed act
    ∷ rule read_auto different_row pre_bank
    ∷ rule read_auto target_closed act
    ∷ rule write_auto different_row pre_bank
    ∷ rule write_auto target_closed act
    ∷ rule refresh_per_bank target_open pre_bank
    ∷ rule refresh_all_bank any_open pre_all
    ∷ []

abbrev pub hbm3_prerequisites : List CommandPrerequisite
hbm3_prerequisites =
    rule read different_row pre_bank
    ∷ rule read target_closed act
    ∷ rule write different_row pre_bank
    ∷ rule write target_closed act
    ∷ rule read_auto different_row pre_bank
    ∷ rule read_auto target_closed act
    ∷ rule write_auto different_row pre_bank
    ∷ rule write_auto target_closed act
    ∷ rule refresh_per_bank target_open pre_bank
    ∷ rule refresh_all_bank any_open pre_all
    ∷ rule rfm_per_bank target_open pre_bank
    ∷ rule rfm_all_bank any_open pre_all
    ∷ []

abbrev pub hbm2_transitions : List CommandTransition
hbm2_transitions =
    transition act CommandScope.bank open_target
    ∷ transition pre_bank CommandScope.bank close
    ∷ transition pre_all CommandScope.channel close
    ∷ transition read CommandScope.bank unchanged
    ∷ transition write CommandScope.bank unchanged
    ∷ transition read_auto CommandScope.bank close
    ∷ transition write_auto CommandScope.bank close
    ∷ transition refresh_all_bank CommandScope.channel close
    ∷ transition refresh_per_bank CommandScope.bank close
    ∷ []

abbrev pub hbm3_transitions : List CommandTransition
hbm3_transitions =
    transition act CommandScope.bank open_target
    ∷ transition pre_bank CommandScope.bank close
    ∷ transition pre_all CommandScope.channel close
    ∷ transition read CommandScope.bank unchanged
    ∷ transition write CommandScope.bank unchanged
    ∷ transition read_auto CommandScope.bank close
    ∷ transition write_auto CommandScope.bank close
    ∷ transition refresh_all_bank CommandScope.channel close
    ∷ transition refresh_per_bank CommandScope.bank close
    ∷ transition rfm_all_bank CommandScope.channel close
    ∷ transition rfm_per_bank CommandScope.bank close
    ∷ []

unfoldable pub common_support : HbmCommand → Bool
common_support command =
    command_eqb command act
    || command_eqb command pre_bank
    || command_eqb command pre_all
    || command_eqb command read
    || command_eqb command write
    || command_eqb command read_auto
    || command_eqb command write_auto
    || command_eqb command refresh_all_bank
    || command_eqb command refresh_per_bank

unfoldable pub rfm_support : HbmCommand → Bool
unfolding common_support
rfm_support command =
    common_support command || command_eqb command rfm_all_bank || command_eqb command rfm_per_bank

abbrev pub hbm2_organization : HbmOrganization
hbm2_organization = record {
  topology = record {
    stacks = 1;
    channels_per_stack = 1;
    pseudo_channels_per_channel = 2;
    bank_groups_per_pseudo_channel = 4;
    banks_per_bank_group = 4;
  };
  columns_per_row = 32;
  rows_per_bank = 16_384;
  physical_burst_bytes = 32;
  address_interleave_bytes = 32;
  address_mapping = hbm2_pseudo_channel_brc;
  pseudo_channel_rate = record { bytes = 32; interval = 2_000 };
}

abbrev pub hbm3_organization : HbmOrganization
hbm3_organization = record hbm2_organization {
  address_mapping = linear;
  pseudo_channel_rate = record { bytes = 32; interval = 1_250 };
}

abbrev pub hbm4_organization : HbmOrganization
hbm4_organization = record {
  topology = record {
    stacks = 1;
    channels_per_stack = 1;
    pseudo_channels_per_channel = 2;
    bank_groups_per_pseudo_channel = 2;
    banks_per_bank_group = 8;
  };
  columns_per_row = 256;
  rows_per_bank = 16_384;
  physical_burst_bytes = 32;
  address_interleave_bytes = 32;
  address_mapping = linear;
  pseudo_channel_rate = record { bytes = 64; interval = 1_000 };
}

abbrev zero_bin : HbmSpeedBin
zero_bin = record {
  tck_ps = 0;
  n_bl = 0;
  n_cl = 0;
  n_rcd_rd = 0;
  n_rcd_wr = 0;
  n_rp = 0;
  n_ras = 0;
  n_wr = 0;
  n_rtp = 0;
  n_cwl = 0;
  n_ccd_s = 0;
  n_ccd_l = 0;
  n_rrd_s = 0;
  n_rrd_l = 0;
  n_wtr_s = 0;
  n_wtr_l = 0;
  n_rtw = 0;
  n_faw = 0;
  n_ppd = 0;
  t_rfc_ps = 0;
  t_rfcpb_ps = 0;
  n_ccd_r = 0;
  n_rrefd = 0;
  t_refi_ps = 0;
}

abbrev pub hbm2_bin : HbmSpeedBin
hbm2_bin = record {
  tck_ps = 1_000;
  n_bl = 2;
  n_cl = 14;
  n_rcd_rd = 14;
  n_rcd_wr = 12;
  n_rp = 14;
  n_ras = 34;
  n_wr = 16;
  n_rtp = 5;
  n_cwl = 5;
  n_ccd_s = 2;
  n_ccd_l = 4;
  n_rrd_s = 4;
  n_rrd_l = 4;
  n_wtr_s = 6;
  n_wtr_l = 8;
  n_rtw = 15;
  n_faw = 15;
  n_ppd = 0;
  t_rfc_ps = 260_000;
  t_rfcpb_ps = 160_000;
  n_ccd_r = 2;
  n_rrefd = 8;
  t_refi_ps = 3_900_000;
}

abbrev pub hbm3_bin : HbmSpeedBin
hbm3_bin = record {
  tck_ps = 625;
  n_bl = 2;
  n_cl = 20;
  n_rcd_rd = 31;
  n_rcd_wr = 15;
  n_rp = 26;
  n_ras = 45;
  n_wr = 33;
  n_rtp = 9;
  n_cwl = 10;
  n_ccd_s = 2;
  n_ccd_l = 4;
  n_rrd_s = 4;
  n_rrd_l = 5;
  n_wtr_s = 7;
  n_wtr_l = 10;
  n_rtw = 17;
  n_faw = 24;
  n_ppd = 2;
  t_rfc_ps = 260_000;
  t_rfcpb_ps = 200_000;
  n_ccd_r = 2;
  n_rrefd = 13;
  t_refi_ps = 3_900_000;
}

unfoldable pub hbm2_duration : HbmCommand → ℕ
hbm2_duration command = if command_eqb command act then 2 * hbm2_bin.tck_ps else hbm2_bin.tck_ps

unfoldable pub hbm3_duration : HbmCommand → ℕ
hbm3_duration command =
    if command_eqb command act
    then (3 * hbm3_bin.tck_ps + 1) / 2
    else if command_eqb command pre_bank
        || command_eqb command pre_all
        || command_eqb command refresh_all_bank
        || command_eqb command refresh_per_bank
        || command_eqb command rfm_all_bank
        || command_eqb command rfm_per_bank
    then (hbm3_bin.tck_ps + 1) / 2
    else hbm3_bin.tck_ps

-- The constructors. `resolve` may throw, though not on these speed bins.
unfoldable pub hbm2_standard : Result HbmStandard
unfolding resolve rfm_support hbm2_duration
hbm2_standard = resolve hbm2_bin >>= λ timing. ok (record {
  organization = hbm2_organization;
  speed_bin = hbm2_bin;
  timing = timing;
  prerequisites = hbm2_prerequisites;
  transitions = hbm2_transitions;
  supports = common_support;
  command_duration = hbm2_duration;
})

unfoldable pub hbm3_standard : Result HbmStandard
unfolding resolve rfm_support hbm3_duration
hbm3_standard = resolve hbm3_bin >>= λ timing. ok (record {
  organization = hbm3_organization;
  speed_bin = hbm3_bin;
  timing = timing;
  prerequisites = hbm3_prerequisites;
  transitions = hbm3_transitions;
  supports = rfm_support;
  command_duration = hbm3_duration;
})

unfoldable pub hbm4_standard : HbmStandard
unfolding rfm_support hbm4_8000
hbm4_standard = record {
  organization = hbm4_organization;
  speed_bin = zero_bin;
  timing = hbm4_8000;
  prerequisites = hbm3_prerequisites;
  transitions = hbm3_transitions;
  supports = rfm_support;
  command_duration = λ command. hbm4_8000.t_command;
}
