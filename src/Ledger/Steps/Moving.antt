-- ===== src/Ledger/Steps/Moving.antt =====
-- What it takes for the tables of child edges to make a move of the state machine.
use pi_task.Common.{
  contains, keys, String, Bool, true, false, if◌then◌else◌, lookup, str_eq, returns, throws, ◌≡◌,
  refl, sym, eq_iff, inl, inr, Bool-cases,
}
use pi_task.Ledger.Rows.{TaskStatus, ChildEdgeStatus, Ledger, Outcome}
use pi_task.Ledger.Tasks.{
  set_task_status, is_extended, override_task_status, update_task_status, drop_task_override,
  transaction, commit_or_rollback, ◌then◌,
}
use pi_task.Ledger.Children.{read_edge, get_task_edge}
use pi_task.Ledger.View.{status_of, Edges, edges_of, View, view_of, view, moved}
use pi_task.Ledger.Machine.{Moves, stays}

-- Every edge makes a move, or none.
abbrev pub EdgesMove : Edges → Edges → Type 0
EdgesMove a b = (e : String) → Moves (view_of e a) (view_of e b)

pub EdgesMove-refl : (a : Edges) → EdgesMove a a
EdgesMove-refl a e = stays (view_of e a)

module _ (k : String) (a b : Edges) (change : Bool → View → View) where
  -- One edge is changed, and the change is a move.
  pub one_edge-EdgesMove :
      ((v : View) → change false v ≡ v)
      → ((e : String) → view_of e b ≡ change (str_eq k e) (view_of e a))
      → Moves (view_of k a) (change true (view_of k a))
      → EdgesMove a b
  one_edge-EdgesMove same changed move e = elim (Bool-cases (str_eq k e)) [
    | inl here ↦ rw (changed e, here, sym ((eq_iff k e).0 here)) move
    | inr other ↦ rw (changed e, other, same (view_of e a)) (stays (view_of e a))
  ]

pub view-get_task_edge :
    (k : String) (l : Ledger)
    → view k l ≡ (status_of (get_task_edge k l), lookup k l.child_terminal_settlements)
unfolding view_of get_task_edge
view-get_task_edge k l = refl

-- The status of the changed edge alone.
abbrev pub at_status : ChildEdgeStatus → Bool → View → View
at_status s b (now, o) = (moved b s now, o)

-- What holds of the tables that a call leaves, if it returns.
abbrev pub Leaves : {A : Type 0} → (Edges → Type 0) → Outcome A → Type 0
Leaves P (returns a, l) = P (edges_of l)
Leaves P (throws e, l) = Unit

pub Leaves-transaction :
    {A : Type 0}
    → (P : Edges → Type 0) (work : Ledger → Outcome A) (l : Ledger) → P (edges_of l)
    → Leaves P (work l)
    → P (edges_of (transaction work l).1)
unfolding transaction
Leaves-transaction P work l before after = go (work l) after
  where
    go : {A : Type 0} → (o : Outcome A) → Leaves P o → P (edges_of (commit_or_rollback l o).1)
    go (returns a, m) h = h
    go (throws e, m) h = before

pub Leaves-then :
    {A B : Type 0}
    → (Q P : Edges → Type 0) (o : Outcome A) (rest : A → Ledger → Outcome B) → Leaves Q o
    → ((a : A) (l : Ledger) → Q (edges_of l) → Leaves P (rest a l))
    → Leaves P (o then rest)
Leaves-then Q P (returns a, l) rest h next = next a l h
Leaves-then Q P (throws e, l) rest h next = tt

pub Leaves-of_edges :
    {A : Type 0} → (P : Edges → Type 0) (o : Outcome A) → P (edges_of o.1) → Leaves P o
Leaves-of_edges P (returns a, l) h = h
Leaves-of_edges P (throws e, l) h = tt

-- Reading the row at the end changes no table.
pub read_last :
    {A : Type 0}
    → (P : Edges → Type 0) (k : String) (o : Outcome A) → P (edges_of o.1)
    → P (edges_of (o then λ _ m. read_edge k m).1)
read_last P k (returns a, l) h = h
read_last P k (throws e, l) h = h

-- A task's status is no part of the tables of edges.
pub set_task_status-Leaves :
    (P : Edges → Type 0) (id : String) (s : TaskStatus) (l : Ledger)
    → P (edges_of l)
    → Leaves P (set_task_status id s l)
unfolding set_task_status override_task_status update_task_status drop_task_override
set_task_status-Leaves P id s l h = go (is_extended s) (contains id (keys l.tasks))
  where
    go :
        (extended known : Bool)
        → Leaves P (
            if extended
            then (if known
                then (returns tt, override_task_status id s l)
                else (throws "FOREIGN KEY constraint failed", l))
            else (returns tt, update_task_status id s (drop_task_override id l)))
    go true true = h
    go true false = tt
    go false known = h
