-- ===== src/Controller/Access.antt =====
-- include/hbmsim/transaction.h, include/hbmsim/stats.h and include/hbmsim/controller/hbm_controller.h: what
-- a requester asks for, how far the controller has come with it, and the request coalescers.
use hbmsim.Prelude.{ℕ, Bool, true, false, ◌&&◌, ◌==◌}
use hbmsim.Types.{HbmOp, is_read}
use hbmsim.Mapping.{HbmAddress}
use hbmsim.Statistics.{HbmLatencyBreakdown, no_latency}

pub data TrafficClass : Type 0 where
  demand prefetch fill writeback background : TrafficClass

pub record RequestMetadata : Type 0 where
  pub traffic_class : TrafficClass
  pub priority : ℕ
  pub opaque_tag : ℕ
  pub ordering_domain : ℕ

pub data HbmAccessClass : Type 0 where
  row_hit row_closed row_conflict : HbmAccessClass

pub record LogicalAccess : Type 0 where
  pub parent_id : ℕ
  pub op : HbmOp
  pub address : HbmAddress
  pub size_bytes : ℕ
  pub arrival_time : ℕ
  pub client : ℕ
  pub sequence : ℕ
  pub metadata : RequestMetadata
  pub byte_address : ℕ

-- How far the controller has come with an access.
pub record HbmAccess : Type 0 where
  pub logical : LogicalAccess
  pub open logical use *
  pub access_class : HbmAccessClass
  pub activated : Bool
  pub first_command_issued : Bool
  pub starvation_reported : Bool
  pub enqueued_at : ℕ
  pub first_command_at : ℕ
  pub command_eligible : Bool
  pub command_eligible_since : ℕ
  pub latency_breakdown : HbmLatencyBreakdown

-- The member initialisers around a requester's part.
abbrev pub new_access : LogicalAccess → HbmAccess
new_access logical = record {
  logical = logical;
  access_class = row_closed;
  activated = false;
  first_command_issued = false;
  starvation_reported = false;
  enqueued_at = 0;
  first_command_at = 0;
  command_eligible = false;
  command_eligible_since = 0;
  latency_breakdown = no_latency;
}

pub record LogicalCompletion : Type 0 where
  pub logical : LogicalAccess
  pub open logical use *
  pub access_class : HbmAccessClass
  pub latency_breakdown : HbmLatencyBreakdown

-- `make_request_coalescer(same_address_reads)->can_merge(physical, logical)`
unfoldable pub can_merge : Bool → LogicalAccess → LogicalAccess → Bool
can_merge false physical logical = false
can_merge true physical logical =
    is_read physical.op
    && is_read logical.op
    && physical.byte_address == logical.byte_address
    && physical.address.flat_bank == logical.address.flat_bank
    && physical.address.row == logical.address.row
    && physical.address.column == logical.address.column
    && physical.size_bytes == logical.size_bytes
    && physical.metadata.ordering_domain == logical.metadata.ordering_domain
