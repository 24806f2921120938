-- ===== src/Ledger/Rows.antt =====
-- packages/core-v2/src/ledger/store.ts: the statuses, the rows of the tables and the ledger that
-- holds them. The three ends are one type, and `ended s` is the end `s` as a status of an edge or a
-- task. The columns of times and of providers, which no decision reads, are left out.
use pi_task.Common.{ℕ, String, Bool, Option, List, Result}

pub data ChildTerminalStatus : Type 0 where
  completed failed escalated : ChildTerminalStatus

pub data ChildEdgeStatus : Type 0 where
  preparing ready claimed resumable blocked delivery_pending : ChildEdgeStatus
  ended : ChildTerminalStatus → ChildEdgeStatus

pub data TaskStatus : Type 0 where
  queued planning executing awaiting_child preparing awaiting_execution resumable : TaskStatus
  delivery_pending verifying reviewing : TaskStatus
  ended : ChildTerminalStatus → TaskStatus

pub data PlanMode : Type 0 where
  prewalk bundle fork cold : PlanMode

pub record TaskRow : Type 0 where
  pub status : TaskStatus
  pub goal : String
  pub parent_branch : Option String
  pub plan_mode : Option PlanMode
  pub retry_count : ℕ
  pub max_retries : ℕ

pub record TaskEdgeRow : Type 0 where
  pub parent_task_id : String
  pub child_task_id : Option String
  pub ordinal : ℕ
  pub status : ChildEdgeStatus
  pub handoff_artifact_id : String
  pub checkpoint_artifact_id : Option String
  pub workspace_continuation_id : Option String

-- A reference with its identity and its JSON text.
pub record ArtifactReference : Type 0 where
  pub id : String
  pub media_type : String
  pub json : String

pub record TaskArtifact : Type 0 where
  pub task_id : String
  pub role : String
  pub artifact_id : String
  pub media_type : String
  pub source_revision : Option String
  pub reference : Option ArtifactReference

pub data SettlementState : Type 0 where
  pending linked : SettlementState

pub data ChildDeliveryFailureCode : Type 0 where
  receipt_write_failed trace_write_failed final_receipt_rewrite_failed : ChildDeliveryFailureCode
  process_lost_between_delivery_steps : ChildDeliveryFailureCode

pub record ChildDeliveryState : Type 0 where
  pub receipt_delivered : Bool
  pub trace_delivered : Bool
  pub final_receipt_delivered : Bool
  pub failure_code : Option ChildDeliveryFailureCode
  pub failure_detail : Option String

-- The six references; their documents are the JSON texts.
pub record ChildTerminalSettlement : Type 0 where
  pub child_status : ChildTerminalStatus
  pub verification_reference : ArtifactReference
  pub result_reference : ArtifactReference
  pub receipt_reference : ArtifactReference
  pub trace_reference : ArtifactReference
  pub parent_receipt_reference : ArtifactReference
  pub parent_trace_reference : ArtifactReference
  pub documents : List String
  pub state : SettlementState
  pub delivery : ChildDeliveryState

pub data ChildPreparationOwnershipStatus : Type 0 where
  parent_pending parent_accepted artifacts_pending : ChildPreparationOwnershipStatus
  provider_preparing ready blocked : ChildPreparationOwnershipStatus

pub record ChildPreparationOwnershipRow : Type 0 where
  pub edge_id : String
  pub parent_task_id : String
  pub planned_child_task_id : String
  pub status : ChildPreparationOwnershipStatus
  pub parent_execution_started : Bool

pub record Ledger : Type 0 where
  pub tasks : List (String × TaskRow)
  pub task_status_overrides : List (String × TaskStatus)
  pub task_edges : List (String × TaskEdgeRow)
  pub task_edge_status_overrides : List (String × ChildEdgeStatus)
  pub workspace_continuations : List (String × ChildEdgeStatus)
  pub continuation_status_overrides : List (String × ChildEdgeStatus)
  pub task_artifacts : List TaskArtifact
  pub child_terminal_settlements : List (String × ChildTerminalSettlement)
  pub child_preparation_ownership : List (String × ChildPreparationOwnershipRow)

-- What a call comes to, and the tables it leaves.
abbrev pub Outcome : Type 0 → Type 0
Outcome A = Result String A × Ledger
