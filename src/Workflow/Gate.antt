-- ===== src/Workflow/Gate.antt =====
-- packages/core-v2/src/workflow/gate.ts over the table `workflow_approvals` of
-- packages/core-v2/src/ledger/store.ts: a row for each id, with the time of the last write. The
-- database gives the time of a write, which is an argument here.
use Prim.Native.String.{◌++◌ as ◌<>◌}
use pi_task.Common.{
  String, Bool, false, Option, none, some, List, if◌then◌else◌, Result, returns, throws, lookup,
  put, remove,
}

pub record WorkflowApprovalRow : Type 0 where
  pub dag_id : String
  pub approved : Bool
  pub updated_at : String

abbrev pub Approvals : Type 0
Approvals = List (String × WorkflowApprovalRow)

abbrev pub get_workflow_approval : Approvals → String → Option WorkflowApprovalRow
get_workflow_approval store dag_id = lookup dag_id store

abbrev pub is_approved : Option WorkflowApprovalRow → Bool
is_approved none = false
is_approved (some row) = row.approved

unfoldable pub is_workflow_approved : Approvals → String → Bool
is_workflow_approved store dag_id = is_approved (get_workflow_approval store dag_id)

unfoldable pub set_workflow_approval : (now : String) → Approvals → String → Bool → Approvals
set_workflow_approval now store dag_id approved =
    put dag_id (record { dag_id = dag_id; approved = approved; updated_at = now }) store

unfoldable pub clear_workflow_approval : Approvals → String → Approvals
clear_workflow_approval store dag_id = remove dag_id store

pub record RecordPlanApprovalOptions : Type 0 where
  pub dag_id : String
  pub approved : Bool

unfoldable pub record_plan_approval :
    (now : String) → Approvals → RecordPlanApprovalOptions → Approvals
record_plan_approval now store options =
    set_workflow_approval now store options.dag_id options.approved

pub data GateError : Type 0 where
  gate_error : (message : String) → GateError

unfoldable pub refusal : String → Option WorkflowApprovalRow → Option String
refusal dag_id none = some (
    "workflow \""
    <> (dag_id
        <> "\" has no approval record — run plan first (dry run), then plan --approve to authorize execution"))
refusal dag_id (some row) =
    if row.approved
    then none
    else some (
        "workflow \""
        <> (dag_id
            <> ("\" was planned but NOT approved (last updated "
                <> (row.updated_at <> ") — re-run plan --approve to authorize execution"))))

abbrev pub refuse : Option String → Result GateError Unit
refuse none = returns tt
refuse (some message) = throws (gate_error message)

unfoldable pub require_plan_approved : Approvals → String → Result GateError Unit
require_plan_approved store dag_id = refuse (refusal dag_id (get_workflow_approval store dag_id))

pub data ApprovalStatus : Type 0 where
  approved pending : (updated_at : String) → ApprovalStatus
  unknown : ApprovalStatus

unfoldable pub plan_approval_status : Approvals → String → ApprovalStatus
plan_approval_status store dag_id = elim (get_workflow_approval store dag_id) [
  | none ↦ unknown
  | some row ↦ if row.approved then approved row.updated_at else pending row.updated_at
]
