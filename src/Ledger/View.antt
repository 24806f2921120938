-- ===== src/Ledger/View.antt =====
-- What the statements of ledger/store.ts do to one child edge: its status and its settlement.
use pi_task.Common.{
  String, Bool, true, false, Option, none, some, List, if◌then◌else◌, lookup, put, remove, str_eq,
  ◌≡◌, refl, ap, lookup-put, lookup-remove,
}
use pi_task.Ledger.Tables.{adjust, on_row, lookup-adjust}
use pi_task.Ledger.Rows.{ChildEdgeStatus, TaskEdgeRow, Ledger, ChildTerminalSettlement}
use pi_task.Ledger.Tasks.{◌then◌}
use pi_task.Ledger.Children.{joined_edge, with_edge_status}

abbrev pub status_of : Option TaskEdgeRow → Option ChildEdgeStatus
status_of none = none
status_of (some edge) = some edge.status

-- The tables of child edges.
abbrev pub Edges : Type 0
Edges =
    List (String × TaskEdgeRow)
    × List (String × ChildEdgeStatus)
    × List (String × ChildTerminalSettlement)

abbrev pub edges_of : Ledger → Edges
edges_of l = (l.task_edges, l.task_edge_status_overrides, l.child_terminal_settlements)

-- The status of an edge, the override before the row, and its settlement.
abbrev pub View : Type 0
View = Option ChildEdgeStatus × Option ChildTerminalSettlement

unfoldable pub view_of : String → Edges → View
view_of e (edges, overrides, settlements) =
    (status_of (joined_edge (lookup e overrides) (lookup e edges)), lookup e settlements)

abbrev pub view : String → Ledger → View
view e l = view_of e (edges_of l)

-- An edge that is there gets the status.
abbrev pub moved : Bool → ChildEdgeStatus → Option ChildEdgeStatus → Option ChildEdgeStatus
moved true s (some _) = some s
moved true s none = none
moved false s o = o

cleared :
    (b : Bool) (s : ChildEdgeStatus) (o : Option ChildEdgeStatus) (row : Option TaskEdgeRow)
    → status_of (joined_edge (if b then none else o) (on_row b (with_edge_status s) row))
      ≡ moved b s (status_of (joined_edge o row))
cleared true s o none = refl
cleared true s o (some row) = refl
cleared false s o row = refl

overridden :
    (b : Bool) (s : ChildEdgeStatus) (o : Option ChildEdgeStatus) (row : Option TaskEdgeRow)
    → status_of (joined_edge (if b then some s else o) row)
      ≡ moved b s (status_of (joined_edge o row))
overridden true s o none = refl
overridden true s o (some row) = refl
overridden false s o row = refl

both_overridden :
    (b : Bool) (s : ChildEdgeStatus) (o : Option ChildEdgeStatus) (row : Option TaskEdgeRow)
    → status_of (joined_edge (if b then some s else o) (on_row b (with_edge_status s) row))
      ≡ moved b s (status_of (joined_edge o row))
both_overridden true s o none = refl
both_overridden true s o (some row) = refl
both_overridden false s o row = refl

module _ (e k : String) (s : ChildEdgeStatus) (edges : List (String × TaskEdgeRow)) where
  module _ (overrides : List (String × ChildEdgeStatus))
      (t : List (String × ChildTerminalSettlement)) where
    abbrev pub before : Option ChildEdgeStatus
    before = status_of (joined_edge (lookup e overrides) (lookup e edges))

    pub update_drop-view :
        view_of e (adjust k (with_edge_status s) edges, remove k overrides, t)
        ≡ (moved (str_eq k e) s before, lookup e t)
    unfolding view_of
    update_drop-view =
        rw (lookup-adjust k e (with_edge_status s) edges, lookup-remove k e overrides)
          (ap (λ x. (x, lookup e t)) (cleared (str_eq k e) s (lookup e overrides) (lookup e edges)))

    pub override-view :
        view_of e (edges, put k s overrides, t) ≡ (moved (str_eq k e) s before, lookup e t)
    unfolding view_of
    override-view = rw (lookup-put k e s overrides) (
        ap (λ x. (x, lookup e t)) (overridden (str_eq k e) s (lookup e overrides) (lookup e edges)))

    pub update_override-view :
        view_of e (adjust k (with_edge_status s) edges, put k s overrides, t)
        ≡ (moved (str_eq k e) s before, lookup e t)
    unfolding view_of
    update_override-view =
        rw (lookup-adjust k e (with_edge_status s) edges, lookup-put k e s overrides)
          (ap (λ x. (x, lookup e t))
            (both_overridden (str_eq k e) s (lookup e overrides) (lookup e edges)))
