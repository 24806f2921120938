-- ===== src/Ledger/Examples.antt =====
-- Concrete ledgers for the theorems on ledger/store.ts.
use pi_task.Common.{
  contains, String, Bool, true, false, none, some, List, [], ◌∷◌, ◌≡◌, refl, lookup, arith,
  if◌then◌else◌, str_eq,
}
use pi_task.Ledger.Rows.{
  completed, failed, ChildEdgeStatus, TaskStatus, TaskRow, TaskEdgeRow, ArtifactReference, linked,
  ChildTerminalSettlement, Ledger,
}
use pi_task.Ledger.Tables.{adjust}
use pi_task.Ledger.Tasks.{get_task, list_tasks, list_all_tasks, NewTask, is_extended, transaction}
use pi_task.Ledger.Children.{
  get_task_edge, claim_ready_child, claim_resumable_child, claim_if, is_ready, update_edge_status,
  mark_child_resumable,
}
use pi_task.Ledger.Outbox.{undelivered, same_end}
use pi_task.Ledger.Artifacts.{ChildSettlementArtifacts}
use pi_task.Ledger.Settlement.{settle_child, settle_edge, settle_by_status}
use pi_task.Ledger.Delivery.{receipt, trace, final_receipt, acknowledge_child_delivery}
use pi_task.Ledger.View.{status_of, view, view_of, moved}
use pi_task.Ledger.Machine.{Agrees}
use pi_task.Ledger.Runs.{
  Call, block, settle, acknowledge, claim_resumable, mark_blocked, run, ended_for_good,
}
use pi_task.Ledger.Delivered.{IsDelivering, ends_when_delivered}
use pi_task.Ledger.Acknowledged.{Returns, acknowledge_child_delivery_ends}
use pi_task.Ledger.Claims.{one_winner}
use pi_task.Ledger.Overlay.Store.{TaskCall, insert, set_status, retry, task_run, store_run}
use pi_task.Ledger.Overlay.Refines.{tasks_refine_store}
use pi_task.Ledger.Refusals.{
  has_thrown, refused_call_changes_nothing, claimed_row_becomes_resumable,
}
use pi_task.Ledger.Runs.{step}
use pi_task.Ledger.Boot.{
  is_owned, reconcile_on_boot, reconcile_tasks, owns, is_active, reconcile_crashed_task,
  is_in_flight, requeue,
}
use pi_task.Ledger.Restart.Decisions.{IsSound}
use pi_task.Ledger.Restart.Owners.{IsOwned, IsRestart, reconcile_on_boot-IsRestart}
use pi_task.Ledger.Restart.Boots.{
  IsWithinRetries, reconcile_on_boot-IsWithinRetries, reconcile_on_boot_twice,
}

abbrev task : TaskStatus → TaskRow
task s = record {
  status = s;
  goal = "g";
  parent_branch = none;
  plan_mode = none;
  retry_count = 0;
  max_retries = 2;
}

abbrev edge : ChildEdgeStatus → TaskEdgeRow
edge s = record {
  parent_task_id = "p";
  child_task_id = some "c";
  ordinal = 1;
  status = s;
  handoff_artifact_id = "h";
  checkpoint_artifact_id = none;
  workspace_continuation_id = some "w";
}

abbrev reference : ArtifactReference
reference = record { id = "sha256:0"; media_type = "application/json"; json = "{}" }

abbrev settlement : ChildTerminalSettlement
settlement = record {
  child_status = completed;
  verification_reference = reference;
  result_reference = reference;
  receipt_reference = reference;
  trace_reference = reference;
  parent_receipt_reference = reference;
  parent_trace_reference = reference;
  documents = [];
  state = linked;
  delivery = undelivered;
}

abbrev artifacts : ChildSettlementArtifacts
artifacts = record {
  verification_artifact_id = none;
  result_artifact_id = "r";
  receipt_artifact_id = "q";
  trace_artifact_id = "t";
  parent_receipt_artifact_id = none;
  parent_trace_artifact_id = none;
  failure_artifact_id = none;
  verification_reference = none;
  result_reference = none;
  receipt_reference = none;
  trace_reference = none;
  parent_receipt_reference = none;
  parent_trace_reference = none;
}

-- A parent, its child and their edge.
abbrev ledger :
    ChildEdgeStatus
    → List (String × ChildEdgeStatus)
    → List (String × ChildTerminalSettlement)
    → Ledger
ledger s overrides settlements = record {
  tasks = ("p", task TaskStatus.executing) ∷ ("c", task TaskStatus.executing) ∷ [];
  task_status_overrides = ("p", TaskStatus.awaiting_child) ∷ [];
  task_edges = ("e", edge s) ∷ [];
  task_edge_status_overrides = overrides;
  workspace_continuations = ("w", s) ∷ [];
  continuation_status_overrides = [];
  task_artifacts = [];
  child_terminal_settlements = settlements;
  child_preparation_ownership = [];
}

abbrev ended_ledger : Ledger
ended_ledger = ledger (ChildEdgeStatus.ended completed) [] (("e", settlement) ∷ [])

abbrev deferred_ledger : Ledger
deferred_ledger =
    ledger ChildEdgeStatus.claimed (("e", ChildEdgeStatus.delivery_pending) ∷ [])
      (("e", settlement) ∷ [])

abbrev ready_ledger : Ledger
ready_ledger = ledger ChildEdgeStatus.ready [] []

abbrev accept : {A : Type 0} → A → Bool
accept a = true

abbrev whole : String → String
whole s = s

abbrev late_calls : List Call
late_calls =
    settle false "e" failed artifacts
    ∷ mark_blocked "e"
    ∷ block "e"
    ∷ claim_resumable false "e"
    ∷ acknowledge "e" trace
    ∷ []

ended_for_good_example :
    ((view "e" (run accept accept whole late_calls ended_ledger)).0
      ≡ some (ChildEdgeStatus.ended completed))
    × Agrees (view "e" (run accept accept whole late_calls ended_ledger))
unfolding view_of lookup
ended_for_good_example =
    ended_for_good accept accept whole "e" late_calls ended_ledger completed
      (tt, (tt, (tt, (tt, (tt, tt))))) (λ _. refl) refl

abbrev deliveries : List Call
deliveries = acknowledge "e" receipt ∷ acknowledge "e" trace ∷ acknowledge "e" final_receipt ∷ []

ends_when_delivered_example :
    IsDelivering completed (view "e" (run accept accept whole deliveries deferred_ledger))
unfolding view_of lookup
ends_when_delivered_example =
    ends_when_delivered accept accept whole "e" deliveries deferred_ledger completed
      (tt, (tt, (tt, tt))) (refl, refl, tt)

one_winner_example :
    let after = (claim_ready_child false "e" ready_ledger).1 in
    (false ≡ false)
    × (status_of (get_task_edge "e" ready_ledger) ≡ some ChildEdgeStatus.ready)
    × ((j : String)
        → status_of (get_task_edge j after)
          ≡ moved (str_eq "e" j) ChildEdgeStatus.claimed (status_of (get_task_edge j ready_ledger)))
    × (claim_ready_child true "e" after ≡ (none, after))
    × (claim_resumable_child true "e" after ≡ (none, after))
unfolding claim_ready_child claim_if get_task_edge lookup update_edge_status adjust is_ready
one_winner_example = one_winner false true "e" ready_ledger (edge ChildEdgeStatus.claimed) refl

abbrev new_task : NewTask
new_task = record {
  id = "n";
  goal = "g";
  parent_branch = none;
  plan_mode = none;
  retry_count = none;
  max_retries = none;
}

abbrev task_calls : List TaskCall
task_calls =
    insert new_task
    ∷ set_status "n" TaskStatus.awaiting_child
    ∷ set_status "n" TaskStatus.executing
    ∷ retry "n"
    ∷ []

abbrev empty_ledger : Ledger
empty_ledger = record ready_ledger { tasks = []; task_status_overrides = [] }

tasks_refine_store_example :
    get_task "n" (task_run task_calls empty_ledger)
    ≡ store_run task_calls (λ i. get_task i empty_ledger) "n"
unfolding lookup
tasks_refine_store_example = tasks_refine_store task_calls empty_ledger "n" (λ j h. refl)

refused_call_changes_nothing_example :
    step accept accept whole (settle false "e" failed artifacts) ended_ledger ≡ ended_ledger
unfolding settle_child transaction settle_edge settle_by_status same_end get_task_edge lookup
refused_call_changes_nothing_example =
    refused_call_changes_nothing accept accept whole (settle false "e" failed artifacts)
      ended_ledger refl

claimed_row_becomes_resumable_example :
    (has_thrown (mark_child_resumable "e" deferred_ledger).0 ≡ false)
    × (status_of (get_task_edge "e" (mark_child_resumable "e" deferred_ledger).1)
        ≡ some ChildEdgeStatus.resumable)
unfolding lookup
claimed_row_becomes_resumable_example =
    claimed_row_becomes_resumable "e" deferred_ledger (edge ChildEdgeStatus.claimed) refl refl

-- The edge is blocked, so the child is not owned.
abbrev crashed_ledger : Ledger
crashed_ledger = ledger ChildEdgeStatus.blocked [] []

crashed_ledger-IsSound : IsSound crashed_ledger
unfolding is_extended lookup contains
crashed_ledger-IsSound = record {
  extended = λ j s h. only_awaiting (str_eq "p" j) s h;
  distinct = (refl, (refl, tt));
}
  where
    only_awaiting :
        (b : Bool) (s : TaskStatus)
        → (if b then some TaskStatus.awaiting_child else none) ≡ some s
        → is_extended s ≡ true
    only_awaiting true s h = ground arith
    only_awaiting false s h = cc

reconcile_on_boot-IsRestart_example :
    IsRestart
      (IsOwned "c" crashed_ledger)
      (get_task "c" crashed_ledger)
      (get_task "c" (reconcile_on_boot crashed_ledger).1)
reconcile_on_boot-IsRestart_example =
    reconcile_on_boot-IsRestart crashed_ledger "c" crashed_ledger-IsSound

reconcile_on_boot-IsWithinRetries_example :
    IsWithinRetries (get_task "c" (reconcile_on_boot crashed_ledger).1)
unfolding get_task lookup
reconcile_on_boot-IsWithinRetries_example =
    reconcile_on_boot-IsWithinRetries crashed_ledger "c" crashed_ledger-IsSound (omega arith)

reconcile_on_boot_twice_example :
    get_task "c" (reconcile_on_boot (reconcile_on_boot crashed_ledger).1).1
    ≡ get_task "c" (reconcile_on_boot crashed_ledger).1
reconcile_on_boot_twice_example = reconcile_on_boot_twice crashed_ledger "c" crashed_ledger-IsSound

-- The child of that ledger is queued once more.
child_is_queued :
    get_task "c" (reconcile_on_boot crashed_ledger).1
    ≡ some (record (task TaskStatus.queued) { retry_count = 1 })
unfolding get_task lookup reconcile_on_boot list_tasks list_all_tasks reconcile_tasks is_owned owns
    is_active reconcile_crashed_task is_in_flight requeue adjust
child_is_queued = refl

acknowledge_child_delivery_ends_example :
    Returns
      (λ answer m. status_of (get_task_edge "e" m) ≡ some (ChildEdgeStatus.ended completed))
      (acknowledge_child_delivery "e" deferred_ledger)
unfolding get_task_edge lookup
acknowledge_child_delivery_ends_example =
    acknowledge_child_delivery_ends "e" "c" completed undelivered deferred_ledger (record {
      edge = edge ChildEdgeStatus.delivery_pending;
      settlement = settlement;
      row = refl;
      of_child = refl;
      stored = refl;
      is_linked = refl;
      end_status = refl;
      delivery = refl;
    })
