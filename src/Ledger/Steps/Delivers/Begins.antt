-- ===== src/Ledger/Steps/Delivers/Begins.antt =====
-- The start of a settlement makes only moves of the state machine.
use pi_task.Common.{
  String, Bool, Option, none, some, List, if◌then◌else◌, lookup, lookup-put, put, every, str_eq,
  throws, ◌≡◌, refl, ap, inl, inr, Bool-cases,
}
use pi_task.Ledger.Tables.{on_row, lookup-adjust, adjust}
use pi_task.Ledger.Tasks.{◌then◌}
use pi_task.Ledger.Rows.{
  ArtifactReference, ChildEdgeStatus, TaskEdgeRow, Ledger, ChildTerminalSettlement,
}
use pi_task.Ledger.Children.{get_task_edge}
use pi_task.Ledger.Outbox.{
  same_settlement, begin_settlement, begin_child_terminal_settlement, references_of,
  get_child_terminal_settlement, can_settle, fresh,
}
use pi_task.Ledger.View.{Edges, edges_of, View, view_of}
use pi_task.Ledger.Machine.{begins}
use pi_task.Ledger.Steps.Moving.{
  EdgesMove, EdgesMove-refl, one_edge-EdgesMove, view-get_task_edge, Leaves, Leaves-transaction,
}

-- The settlement alone is changed.
abbrev pub at_settlement : (ChildTerminalSettlement → ChildTerminalSettlement) → Bool → View → View
at_settlement f b (now, o) = (now, on_row b f o)

pub view-at_settlement :
    (k e : String) (f : ChildTerminalSettlement → ChildTerminalSettlement)
    (edges : List (String × TaskEdgeRow)) (overrides : List (String × ChildEdgeStatus))
    (t : List (String × ChildTerminalSettlement))
    → view_of e (edges, overrides, adjust k f t)
      ≡ at_settlement f (str_eq k e) (view_of e (edges, overrides, t))
unfolding view_of
view-at_settlement k e f edges overrides t =
    ap (λ o. ((view_of e (edges, overrides, t)).0, o)) (lookup-adjust k e f t)

-- A settlement that is inserted.
abbrev at_new : ChildTerminalSettlement → Bool → View → View
at_new t b (now, o) = (now, if b then some t else o)

abbrev begun_edges : String → ChildTerminalSettlement → Edges → Edges
begun_edges k s (edges, overrides, t) = (edges, overrides, put k s t)

view-begun_edges :
    (k e : String) (s : ChildTerminalSettlement) (a : Edges)
    → view_of e (begun_edges k s a) ≡ at_new s (str_eq k e) (view_of e a)
unfolding view_of
view-begun_edges k e s (edges, overrides, t) =
    ap (λ o. ((view_of e (edges, overrides, t)).0, o)) (lookup-put k e s t)

begin_settlement-Leaves :
    (k : String) (s : ChildTerminalSettlement) (o : Option TaskEdgeRow)
    (existing : Option ChildTerminalSettlement) (l : Ledger)
    → get_task_edge k l ≡ o
    → lookup k l.child_terminal_settlements ≡ existing
    → Leaves (EdgesMove (edges_of l)) (begin_settlement k s o existing l)
unfolding begin_settlement
begin_settlement-Leaves k s none existing l q t = tt
begin_settlement-Leaves k s (some edge) (some existing) l q t =
    elim (Bool-cases (same_settlement existing s)) [
      | inl same ↦ rw same (EdgesMove-refl (edges_of l))
      | inr other ↦ rw other tt
    ]
begin_settlement-Leaves k s (some edge) none l q t = elim (Bool-cases (can_settle edge.status)) [
  | inl can ↦ rw can (
      one_edge-EdgesMove k (edges_of l) (begun_edges k (fresh s) (edges_of l)) (at_new (fresh s))
        (λ v. refl) (λ e. view-begun_edges k e (fresh s) (edges_of l))
        (rw (view-get_task_edge k l, q, t) (begins edge.status s can)))
  | inr other ↦ rw other tt
]

pub begin_child_terminal_settlement-EdgesMove :
    (parses : ArtifactReference → Bool) (k : String) (s : ChildTerminalSettlement) (l : Ledger)
    → EdgesMove (edges_of l) (edges_of (begin_child_terminal_settlement parses k s l).1)
unfolding begin_child_terminal_settlement get_child_terminal_settlement
begin_child_terminal_settlement-EdgesMove parses k s l =
    Leaves-transaction (EdgesMove (edges_of l))
      (λ m.
        if every parses (references_of s)
        then begin_settlement k s (get_task_edge k m) (get_child_terminal_settlement k m) m
        else (throws "ZodError", m))
      l (EdgesMove-refl (edges_of l))
      (elim (Bool-cases (every parses (references_of s))) [
        | inl parsed ↦ rw parsed (
            begin_settlement-Leaves k s (get_task_edge k l) (get_child_terminal_settlement k l) l
              refl refl)
        | inr other ↦ rw other tt
      ])
