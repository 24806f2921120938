-- ===== src/Ledger/Restart/Owners.antt =====
-- What a boot of ledger/store.ts makes of a task, by what stands in the tables before it.
use mathlib.Core.Path.{subst}
use mathlib.Core.Option.{some-injective}
use pi_task.Common.{
  ◌+◌, ◌≤◌, ◌<◌, ltb, String, ◌&&◌, ◌||◌, Bool, true, false, Option, none, some, List, [], ◌∷◌,
  lookup, any, ◌≡◌, refl, sym, ap, ◌⊎◌, inl, inr, Bool-cases, arith, eq_iff,
}
use pi_task.Ledger.Rows.{
  failed, ChildEdgeStatus, TaskStatus, TaskRow, TaskEdgeRow, Ledger,
  ChildPreparationOwnershipStatus, ChildPreparationOwnershipRow,
}
use pi_task.Ledger.Tasks.{get_task}
use pi_task.Ledger.Children.{row_to_task_edge}
use pi_task.Ledger.Boot.{
  is_in_flight, is_active, is_child, owns, is_open, reserves, is_owned, reconcile_on_boot,
}
use pi_task.Ledger.Restart.Decisions.{IsSound, restarted}
use pi_task.Ledger.Restart.Boots.{reconcile_on_boot-restarted}

abbrev pub IsInFlight : TaskStatus → Type 0
IsInFlight s =
    (s ≡ TaskStatus.planning)
    ⊎ (s ≡ TaskStatus.executing)
    ⊎ (s ≡ TaskStatus.verifying)
    ⊎ (s ≡ TaskStatus.reviewing)

abbrev pub IsActive : ChildEdgeStatus → Type 0
IsActive s =
    (s ≡ ChildEdgeStatus.preparing)
    ⊎ (s ≡ ChildEdgeStatus.ready)
    ⊎ (s ≡ ChildEdgeStatus.claimed)
    ⊎ (s ≡ ChildEdgeStatus.resumable)
    ⊎ (s ≡ ChildEdgeStatus.delivery_pending)

abbrev pub IsOpen : ChildPreparationOwnershipStatus → Type 0
IsOpen s =
    (s ≡ ChildPreparationOwnershipStatus.parent_pending)
    ⊎ (s ≡ ChildPreparationOwnershipStatus.parent_accepted)
    ⊎ (s ≡ ChildPreparationOwnershipStatus.artifacts_pending)
    ⊎ (s ≡ ChildPreparationOwnershipStatus.provider_preparing)

abbrev pub AnyOf : {A : Type 0} → (A → Type 0) → List A → Type 0
AnyOf P [] = ⊥
AnyOf P (x ∷ xs) = P x ⊎ AnyOf P xs

-- The status of an edge, which an override stands before.
abbrev pub status_read : Option ChildEdgeStatus → ChildEdgeStatus → ChildEdgeStatus
status_read none s = s
status_read (some o) s = o

-- The task is the parent or the child of an edge that is active.
abbrev pub IsEdgeOf : List (String × ChildEdgeStatus) → String → String × TaskEdgeRow → Type 0
IsEdgeOf overrides j (e, row) =
    ((row.parent_task_id ≡ j) ⊎ (row.child_task_id ≡ some j))
    × IsActive (status_read (lookup e overrides) row.status)

-- The task is the parent or the planned child of an open preparation.
abbrev pub IsPreparationOf : String → String × ChildPreparationOwnershipRow → Type 0
IsPreparationOf j (e, row) =
    ((row.parent_task_id ≡ j) ⊎ (row.planned_child_task_id ≡ j)) × IsOpen row.status

abbrev pub IsOwned : String → Ledger → Type 0
IsOwned j l =
    AnyOf (IsEdgeOf l.task_edge_status_overrides j) l.task_edges
    ⊎ AnyOf (IsPreparationOf j) l.child_preparation_ownership

-- What a task is after a boot.
abbrev pub IsRestart : Type 0 → Option TaskRow → Option TaskRow → Type 0
IsRestart Owned none after = after ≡ none
IsRestart Owned (some row) after =
    ((Owned ⊎ ¬ (IsInFlight row.status)) × (after ≡ some row))
    ⊎ (¬ Owned
        × IsInFlight row.status
        × (row.retry_count < row.max_retries)
        × (after
            ≡ some (record row { status = TaskStatus.queued; retry_count = row.retry_count + 1 })))
    ⊎ (¬ Owned
        × IsInFlight row.status
        × (row.max_retries ≤ row.retry_count)
        × (after ≡ some (record row { status = TaskStatus.ended failed })))

-- A test is the predicate.
abbrev Tests : Bool → Type 0 → Type 0
Tests b P = (b ≡ true → P) × (P → b ≡ true)

Tests-or : {P Q : Type 0} (a b : Bool) → Tests a P → Tests b Q → Tests (a || b) (P ⊎ Q)
Tests-or true b p q = (λ h. inl (p.0 refl), λ h. refl)
Tests-or false b p q = (λ h. inr (q.0 h), λ h. elim h [ inl x ↦ cc (p.1 x) | inr y ↦ q.1 y ])

Tests-and : {P Q : Type 0} (a b : Bool) → Tests a P → Tests b Q → Tests (a && b) (P × Q)
Tests-and true b p q = (λ h. (p.0 refl, q.0 h), λ h. q.1 h.1)
Tests-and false b p q = (λ h. cc, λ h. p.1 h.0)

Tests-any :
    {A : Type 0} (p : A → Bool) (P : A → Type 0)
    → ((x : A) → Tests (p x) (P x))
    → (xs : List A) → Tests (any p xs) (AnyOf P xs)
Tests-any p P h [] = (λ k. cc, λ k. elim k [ ])
Tests-any p P h (x ∷ xs) = Tests-or (p x) (any p xs) (h x) (Tests-any p P h xs)

is_in_flight-IsInFlight : (s : TaskStatus) → Tests (is_in_flight s) (IsInFlight s)
unfolding is_in_flight
is_in_flight-IsInFlight TaskStatus.planning = (λ h. inl refl, λ h. refl)
is_in_flight-IsInFlight TaskStatus.executing = (λ h. inr (inl refl), λ h. refl)
is_in_flight-IsInFlight TaskStatus.verifying = (λ h. inr (inr (inl refl)), λ h. refl)
is_in_flight-IsInFlight TaskStatus.reviewing = (λ h. inr (inr (inr refl)), λ h. refl)
is_in_flight-IsInFlight TaskStatus.queued = (λ h. cc, λ h. ground arith)
is_in_flight-IsInFlight TaskStatus.awaiting_child = (λ h. cc, λ h. ground arith)
is_in_flight-IsInFlight TaskStatus.preparing = (λ h. cc, λ h. ground arith)
is_in_flight-IsInFlight TaskStatus.awaiting_execution = (λ h. cc, λ h. ground arith)
is_in_flight-IsInFlight TaskStatus.resumable = (λ h. cc, λ h. ground arith)
is_in_flight-IsInFlight TaskStatus.delivery_pending = (λ h. cc, λ h. ground arith)
is_in_flight-IsInFlight (TaskStatus.ended c) = (λ h. cc, λ h. ground arith)

is_active-IsActive : (s : ChildEdgeStatus) → Tests (is_active s) (IsActive s)
unfolding is_active
is_active-IsActive ChildEdgeStatus.preparing = (λ h. inl refl, λ h. refl)
is_active-IsActive ChildEdgeStatus.ready = (λ h. inr (inl refl), λ h. refl)
is_active-IsActive ChildEdgeStatus.claimed = (λ h. inr (inr (inl refl)), λ h. refl)
is_active-IsActive ChildEdgeStatus.resumable = (λ h. inr (inr (inr (inl refl))), λ h. refl)
is_active-IsActive ChildEdgeStatus.delivery_pending = (λ h. inr (inr (inr (inr refl))), λ h. refl)
is_active-IsActive ChildEdgeStatus.blocked = (λ h. cc, λ h. ground arith)
is_active-IsActive (ChildEdgeStatus.ended c) = (λ h. cc, λ h. ground arith)

is_open-IsOpen : (s : ChildPreparationOwnershipStatus) → Tests (is_open s) (IsOpen s)
is_open-IsOpen ChildPreparationOwnershipStatus.parent_pending = (λ h. inl refl, λ h. refl)
is_open-IsOpen ChildPreparationOwnershipStatus.parent_accepted = (λ h. inr (inl refl), λ h. refl)
is_open-IsOpen ChildPreparationOwnershipStatus.artifacts_pending =
    (λ h. inr (inr (inl refl)), λ h. refl)
is_open-IsOpen ChildPreparationOwnershipStatus.provider_preparing =
    (λ h. inr (inr (inr refl)), λ h. refl)
is_open-IsOpen ChildPreparationOwnershipStatus.ready = (λ h. cc, λ h. ground arith)
is_open-IsOpen ChildPreparationOwnershipStatus.blocked = (λ h. cc, λ h. ground arith)

is_child-Tests : (j : String) (child : Option String) → Tests (is_child j child) (child ≡ some j)
is_child-Tests j none = (λ h. cc, λ h. cc)
is_child-Tests j (some c) =
    (λ h. ap (λ x. some x) ((eq_iff c j).0 h), λ h. (eq_iff c j).1 (some-injective c j h))

read-Tests :
    (o : Option ChildEdgeStatus) (row : TaskEdgeRow)
    → Tests (is_active (row_to_task_edge o row).status) (IsActive (status_read o row.status))
read-Tests none row = is_active-IsActive row.status
read-Tests (some s) row = is_active-IsActive s

is_owned-IsOwned : (j : String) (l : Ledger) → Tests (is_owned j l) (IsOwned j l)
unfolding is_owned owns reserves
is_owned-IsOwned j l =
    Tests-or _ _
      (Tests-any _ (IsEdgeOf l.task_edge_status_overrides j)
        (λ (e, row).
          Tests-and _ _
            (Tests-or _ _ (eq_iff row.parent_task_id j) (is_child-Tests j row.child_task_id))
            (read-Tests (lookup e l.task_edge_status_overrides) row))
        l.task_edges)
      (Tests-any _ (IsPreparationOf j)
        (λ (e, row).
          Tests-and _ _
            (Tests-or _ _ (eq_iff row.parent_task_id j) (eq_iff row.planned_child_task_id j))
            (is_open-IsOpen row.status))
        l.child_preparation_ownership)

fails_test : {P : Type 0} (b : Bool) → Tests b P → b ≡ false → ¬ P
fails_test b t h p = cc (t.1 p, h)

restarted-IsRestart :
    {Owned : Type 0} (owned : Bool) (o : Option TaskRow)
    → Tests owned Owned
    → IsRestart Owned o (restarted owned o)
restarted-IsRestart owned none t = refl
restarted-IsRestart true (some row) t = inl (inl (t.0 refl), refl)
restarted-IsRestart false (some row) t = elim (Bool-cases (is_in_flight row.status)) [
  | inr e ↦ rw e (inl (inr (fails_test _ (is_in_flight-IsInFlight row.status) e), refl))
  | inl e ↦
      let there = (is_in_flight-IsInFlight row.status).0 e in
      elim (Bool-cases (ltb row.retry_count row.max_retries)) [
        | inl left ↦ rw (e, left) (inr (inl (fails_test false t refl, there, ground arith, refl)))
        | inr spent ↦ rw (e, spent) (inr (inr (fails_test false t refl, there, ground arith, refl)))
      ]
]

-- After a boot, a task that was in flight (planning, executing, verifying or reviewing), and is
-- neither the parent nor the child of an edge that is read as active (preparing, ready, claimed,
-- resumable or with a pending delivery) nor of an open preparation, is queued with one more retry if
-- it had fewer than its maximum, and has failed if not; any other is as before. The ledger has one
-- row for a task, and overrides only of the statuses that are kept there.
pub reconcile_on_boot-IsRestart :
    (l : Ledger) (j : String)
    → IsSound l
    → IsRestart (IsOwned j l) (get_task j l) (get_task j (reconcile_on_boot l).1)
reconcile_on_boot-IsRestart l j sound =
    subst (IsRestart (IsOwned j l) (get_task j l)) (sym (reconcile_on_boot-restarted l j sound))
      (restarted-IsRestart (is_owned j l) (get_task j l) (is_owned-IsOwned j l))
