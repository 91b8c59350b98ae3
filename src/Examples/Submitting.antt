-- ===== src/Examples/Submitting.antt =====
-- A system of two channels: a read is submitted, and the last access of another completes.
use hbmsim.Prelude.{
  ℕ, ◌≡◌, ◌≢◌, ◌≤◌, ◌+◌, ◌⊎◌, refl, ok, err, logic_error, ◌>>=◌, arith, false, none, some, [], ◌∷◌,
  Result, Ran, add64, length,
}
use hbmsim.Bandwidth
use hbmsim.Bandwidth.{default_rate}
use hbmsim.Topology
use hbmsim.Topology.{channel_count}
use hbmsim.Mapping
use hbmsim.Mapping.{linear, make_mapper, bank_count, flatten, linear_fields, next_mapping_boundary}
use hbmsim.EventQueue.{new_queue}
use hbmsim.Statistics.{no_latency}
use hbmsim.Dram.Profiles.{hbm4_organization, hbm4_standard}
use hbmsim.Timing.Spec.{default_timing}
use hbmsim.Controller.Access.{LogicalCompletion, row_hit}
use hbmsim.Controller.Policies.{open_page, all_bank, refresh_duration}
use hbmsim.Controller.Scheduler.{fr_fcfs}
use hbmsim.Controller.State.{make_controller}
use hbmsim.System.Presets.{
  hbm2_2000, hbm3_6400, hbm4_8000, as_custom, edit_organization, edit_timing, as_custom-editable,
}
use hbmsim.Dram.Standard.{HbmOrganization}
use hbmsim.Timing.Spec
use hbmsim.System.Admission.{try_submit_now}
use hbmsim.System.Admission.Frame.{keys}
use hbmsim.System.Admission.Submission.{try_submit_now-Outcome}
use hbmsim.System.Config.{HbmConfig, DeviceSpec, organization, timing, no_merging, validate}
use hbmsim.System.Events.{finish_access}
use hbmsim.System.Events.Completion.{finish_access-Outcome}
use hbmsim.System.State.{
  HbmSystem, ParentRequest, new_parent, make_system, controller_config, channel_stats, find_parent,
  new_stats,
}
use hbmsim.System.Transaction.{SubmitStatus, accepted, invalid}
use hbmsim.Examples.Devices.{two_channels}
use hbmsim.Examples.Queues.{first_read}
use hbmsim.Examples.Splitting.{long_read}

abbrev config : HbmConfig
config = record {
  device = record {
    custom_organization = record hbm4_organization {
      topology = two_channels.topology;
      columns_per_row = 32;
      rows_per_bank = 64;
      physical_burst_bytes = 32;
      address_interleave_bytes = 64;
      address_mapping = linear;
      pseudo_channel_rate = default_rate;
    };
    custom_timing = default_timing;
    standard = none;
  };
  controller = record {
    max_active_transactions = 2;
    row_policy = open_page;
    scheduler = fr_fcfs;
    refresh_policy = all_bank;
    write_drain_high_watermark = 16;
    write_drain_low_watermark = 4;
    read_queue_capacity = 8;
    write_queue_capacity = 8;
    request_merge_policy = no_merging;
    starvation_threshold = 0;
    refresh_interval = 0;
    enable_rfm = false;
    rfm_activation_threshold = 0;
  };
  simulation = record {
    simulation_access_granularity_bytes = 64;
    retain_completions = false;
    detailed_stats = false;
  };
}

-- A system that was not made.
abbrev nothing : HbmSystem
nothing = record {
  config = config;
  scheduler = new_queue;
  address_mapper = two_channels;
  stats = new_stats [];
  controllers = [];
  parents = [];
  pending_admissions = [];
  completions = [];
  pending_events = [];
  next_access_sequence = 0;
}

made : Result HbmSystem → HbmSystem
made (ok s) = s
made _ = nothing

abbrev idle : HbmSystem
idle = made (make_system config new_queue)

status_of : Ran (SubmitStatus × HbmSystem) → SubmitStatus
status_of (some (ok (status, s))) = status
status_of _ = invalid

after : Ran (SubmitStatus × HbmSystem) → HbmSystem
after (some (ok (status, s))) = s
after _ = nothing

submitted :
    try_submit_now 1 idle long_read
    ≡ some
        (ok (status_of (try_submit_now 1 idle long_read), after (try_submit_now 1 idle long_read)))
unfolding made status_of after make_system try_submit_now Bandwidth.validate Mapping.map
    linear_fields flatten
submitted = refl

accepted_test : status_of (try_submit_now 1 idle long_read) ≡ accepted
unfolding made status_of make_system try_submit_now Bandwidth.validate Mapping.map linear_fields
    flatten
accepted_test = refl

parts_test : (after (try_submit_now 1 idle long_read)).next_access_sequence ≡ 3
unfolding made after make_system try_submit_now Bandwidth.validate Mapping.map linear_fields flatten
parts_test = refl

try_submit_now-Outcome_example :
    ((status_of (try_submit_now 1 idle long_read) ≢ accepted)
      × (after (try_submit_now 1 idle long_read)
          ≡ record idle { stats = (after (try_submit_now 1 idle long_read)).stats }))
    ⊎ ((status_of (try_submit_now 1 idle long_read) ≡ accepted)
        × (find_parent 7 idle.parents ≡ none)
        × (keys (after (try_submit_now 1 idle long_read)).parents ≡ 7 ∷ keys idle.parents)
        × (length (after (try_submit_now 1 idle long_read)).parents
            ≤ (after (try_submit_now 1 idle long_read)).config.controller.max_active_transactions))
try_submit_now-Outcome_example =
    try_submit_now-Outcome 1 idle (after (try_submit_now 1 idle long_read)) long_read
      (status_of (try_submit_now 1 idle long_read)) submitted

-- Of the first parent one access is outstanding, of the second two.
abbrev waiting : HbmSystem
waiting = record nothing {
  stats = new_stats (channel_stats false 2 32 ∷ []);
  controllers =
      record (make_controller (controller_config config 32 0) two_channels (new_stats [])) {
        outstanding_accesses = 3;
      }
      ∷ [];
  parents =
      (7, record (new_parent long_read) { remaining_accesses = 1; admitted_bytes = 170 })
      ∷ (
        8,
        record (new_parent (record long_read { id = 8 })) {
          remaining_accesses = 2;
          admitted_bytes = 170;
        },
      )
      ∷ [];
}

abbrev last_access : LogicalCompletion
last_access = record {
  logical = record first_read { parent_id = 7 };
  access_class = row_hit;
  latency_breakdown = no_latency;
}

system_of : Ran (ℕ × HbmSystem) → HbmSystem
system_of (some (ok (w, s))) = s
system_of _ = nothing

abbrev outcome : Ran (ℕ × HbmSystem)
outcome = finish_access {W = ℕ} none none (0, waiting) last_access 0 90

abbrev parent : ParentRequest
parent = record (new_parent long_read) { remaining_accesses = 1; admitted_bytes = 170 }

finished : outcome ≡ some (ok (0, system_of outcome))
unfolding system_of finish_access make_controller controller_config
finished = refl

retired_test : find_parent 7 (system_of outcome).parents ≡ none
unfolding system_of finish_access make_controller controller_config
retired_test = refl

finish_access-Outcome_example :
    (find_parent 8 (system_of outcome).parents ≡ find_parent 8 waiting.parents)
    × ((((parent.remaining_accesses ≡ 1) × (parent.admitted_bytes ≡ parent.transaction.size_bytes))
          × (find_parent 7 (system_of outcome).parents ≡ none)
          × ((system_of outcome).stats.completed_transactions
              ≡ add64 waiting.stats.completed_transactions 1))
        ⊎ (((parent.remaining_accesses ≢ 1)
              ⊎ (parent.admitted_bytes ≢ parent.transaction.size_bytes))
            × ((later : ParentRequest) × (find_parent 7 (system_of outcome).parents ≡ some later)
                × (later.remaining_accesses + 1 ≡ parent.remaining_accesses))
            × ((system_of outcome).stats.completed_transactions
                ≡ waiting.stats.completed_transactions)))
finish_access-Outcome_example =
    finish_access-Outcome {W = ℕ} 0 0 waiting (system_of outcome) last_access 0 90 8 parent
      ((λ e. absurd (omega (arith, e)), tt), (tt, tt)) refl (omega arith) (omega arith) finished

-- What `validate` says of a configuration that could be made.
checked : Result HbmConfig → Result (Unit {0})
checked c = c >>= λ config. validate config

presets_test :
    (checked hbm2_2000 ≡ ok tt) × (checked hbm3_6400 ≡ ok tt) × (checked (ok hbm4_8000) ≡ ok tt)
unfolding checked validate hbm2_2000 hbm3_6400 hbm4_8000 hbm4_standard refresh_duration
    Topology.validate Bandwidth.validate Spec.hbm4_8000
presets_test = (refl, refl, refl)

abbrev wider : HbmOrganization → HbmOrganization
wider o = record o { columns_per_row = 64 }

as_custom-editable_example :
    (organization (as_custom hbm4_8000.device) ≡ organization hbm4_8000.device)
    × (timing (as_custom hbm4_8000.device) ≡ timing hbm4_8000.device)
    × ((e : DeviceSpec) × (edit_organization wider (as_custom hbm4_8000.device) ≡ ok e)
        × (organization e ≡ wider (organization hbm4_8000.device))
        × (timing e ≡ timing hbm4_8000.device))
    × ((e : DeviceSpec) × (edit_timing (λ t. t) (as_custom hbm4_8000.device) ≡ ok e)
        × (organization e ≡ organization hbm4_8000.device)
        × (timing e ≡ timing hbm4_8000.device))
    × ((hbm4_8000.device.standard ≡ none)
        ⊎ ((edit_organization wider hbm4_8000.device ≡ err logic_error)
            × (edit_timing (λ t. t) hbm4_8000.device ≡ err logic_error)))
as_custom-editable_example = as_custom-editable hbm4_8000.device wider (λ t. t)
