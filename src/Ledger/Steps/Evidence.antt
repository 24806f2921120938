-- ===== src/Ledger/Steps/Evidence.antt =====
-- What the tests and the artifacts of a settlement, and its last statements, are to the tables of
-- child edges.
use pi_task.Common.{
  String, not, Bool, true, false, Option, none, some, List, if◌then◌else◌, put, remove, keys,
  contains, [], ◌∷◌, str_eq, returns, throws, ◌≡◌, refl, ap, ◌∙◌, arith, inl, inr, Bool-cases,
}
use pi_task.Ledger.Tables.{on_row, lookup-adjust, adjust}
use pi_task.Ledger.Tasks.{◌then◌}
use pi_task.Ledger.Rows.{
  ChildTerminalStatus, completed, failed, escalated, TaskArtifact, ArtifactReference,
  ChildEdgeStatus, Ledger, ChildTerminalSettlement,
}
use pi_task.Ledger.Children.{with_edge_status}
use pi_task.Ledger.Artifacts.{
  ChildSettlementArtifacts, insert_artifacts, insert_task_artifact, passes, names_artifact,
  upsert_artifact,
}
use pi_task.Ledger.Outbox.{same_end, linked_state, matches_outbox}
use pi_task.Ledger.View.{Edges, edges_of, View, view_of, moved, update_drop-view, override-view}
use pi_task.Ledger.Machine.{IsOutboxOf}
use pi_task.Ledger.Steps.Moving.{Leaves, Leaves-then}

abbrev pub deferred_edges : String → Edges → Edges
deferred_edges k (edges, overrides, t) =
    (edges, put k ChildEdgeStatus.delivery_pending overrides, adjust k linked_state t)

abbrev pub ended_edges : String → ChildTerminalStatus → Edges → Edges
ended_edges k s (edges, overrides, t) = (
  adjust k (with_edge_status (ChildEdgeStatus.ended s)) edges,
  remove k overrides,
  adjust k linked_state t,
)

-- The status with the settlement, which is linked.
abbrev pub at_link : ChildEdgeStatus → Bool → View → View
at_link s b (now, o) = (moved b s now, on_row b linked_state o)

pub view-deferred_edges :
    (k e : String) (a : Edges)
    → view_of e (deferred_edges k a)
      ≡ at_link ChildEdgeStatus.delivery_pending (str_eq k e) (view_of e a)
unfolding view_of
view-deferred_edges k e (edges, overrides, t) =
    override-view e k ChildEdgeStatus.delivery_pending edges overrides (adjust k linked_state t)
    ∙ ap
        (λ o. (
          moved (str_eq k e) ChildEdgeStatus.delivery_pending (view_of e (edges, overrides, t)).0,
          o,
        ))
        (lookup-adjust k e linked_state t)

pub view-ended_edges :
    (k e : String) (s : ChildTerminalStatus) (a : Edges)
    → view_of e (ended_edges k s a) ≡ at_link (ChildEdgeStatus.ended s) (str_eq k e) (view_of e a)
unfolding view_of
view-ended_edges k e s (edges, overrides, t) =
    update_drop-view e k (ChildEdgeStatus.ended s) edges overrides (adjust k linked_state t)
    ∙ ap
        (λ o. (moved (str_eq k e) (ChildEdgeStatus.ended s) (view_of e (edges, overrides, t)).0, o))
        (lookup-adjust k e linked_state t)

pub same_end→≡ : (s t : ChildTerminalStatus) → same_end s t ≡ true → s ≡ t
unfolding same_end
same_end→≡ completed completed h = refl
same_end→≡ failed failed h = refl
same_end→≡ escalated escalated h = refl
same_end→≡ completed failed h = cc
same_end→≡ completed escalated h = cc
same_end→≡ failed completed h = cc
same_end→≡ failed escalated h = cc
same_end→≡ escalated completed h = cc
same_end→≡ escalated failed h = cc

pub matches_outbox-IsOutboxOf :
    (status : ChildTerminalStatus) (a : ChildSettlementArtifacts)
    (o : Option ChildTerminalSettlement)
    → matches_outbox status a o ≡ true
    → IsOutboxOf status o
unfolding matches_outbox
matches_outbox-IsOutboxOf status a none h = tt
matches_outbox-IsOutboxOf status a (some t) h =
    λ e. ground (arith, same_end→≡ t.child_status status)

insert_task_artifact-Leaves :
    (P : Edges → Type 0) (parses : ArtifactReference → Bool) (a : TaskArtifact) (l : Ledger)
    → P (edges_of l)
    → Leaves P (insert_task_artifact parses a l)
unfolding insert_task_artifact
insert_task_artifact-Leaves P parses a l h =
    go (passes parses a.reference) (names_artifact a.artifact_id a.reference)
      (contains a.task_id (keys l.tasks))
  where
    go :
        (parsed named known : Bool)
        → Leaves {A = Unit} P (
            if not parsed
            then (throws "ZodError", l)
            else if not named
            then (throws "artifact id does not match its complete reference", l)
            else if known
            then (returns tt, record l { task_artifacts = upsert_artifact a l.task_artifacts })
            else (throws "FOREIGN KEY constraint failed", l))
    go true true true = h
    go true true false = tt
    go true false known = tt
    go false named known = tt

pub insert_artifacts-Leaves :
    (P : Edges → Type 0) (parses : ArtifactReference → Bool) (arts : List TaskArtifact) (l : Ledger)
    → P (edges_of l)
    → Leaves P (insert_artifacts parses arts l)
unfolding insert_artifacts
insert_artifacts-Leaves P parses [] l h = h
insert_artifacts-Leaves P parses (a ∷ more) l h =
    elim (Bool-cases (names_artifact a.artifact_id a.reference)) [
      | inl named ↦ rw named (
          Leaves-then P P (insert_task_artifact parses a l) (λ _ m. insert_artifacts parses more m)
            (insert_task_artifact-Leaves P parses a l h)
            (λ _ m g. insert_artifacts-Leaves P parses more m g))
      | inr other ↦ rw other tt
    ]
