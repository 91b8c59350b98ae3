-- ===== src/System/Transaction.antt =====
-- include/hbmsim/transaction.h: what a client submits and what it is told.
use hbmsim.Prelude.{ℕ}
use hbmsim.Types.{HbmOp}
use hbmsim.Statistics.{HbmLatencyBreakdown}
use hbmsim.Controller.Access.{RequestMetadata, HbmAccessClass}

pub record HbmTransaction : Type 0 where
  pub id : ℕ
  pub op : HbmOp
  pub address : ℕ
  pub size_bytes : ℕ
  pub arrival_time : ℕ
  pub client : ℕ
  pub metadata : RequestMetadata

pub data SubmitStatus : Type 0 where
  accepted backpressure invalid duplicate_id arrival_in_future : SubmitStatus

pub record HbmCompletion : Type 0 where
  pub id : ℕ
  pub op : HbmOp
  pub address : ℕ
  pub size_bytes : ℕ
  pub client : ℕ
  pub channel : ℕ
  pub access_class : HbmAccessClass
  pub arrival_time : ℕ
  pub completion_time : ℕ
  pub latency : ℕ
  pub latency_breakdown : HbmLatencyBreakdown
  pub metadata : RequestMetadata
