-- ===== src/Checklist/Sessions.antt =====
-- Whole sessions of extensions/task/tools/checklist.ts: what the calls leave of a checklist.
use mathlib.Core.Path.{subst}
use pi_task.Common.{
  ℕ, String, ◌≡◌, refl, sym, ◌∙◌, ap, ◌==◌, ◌⊎◌, inl, inr, Bool-cases, Bool, true, false, ◌||◌,
  Option, none, some, List, [], ◌∷◌, ◌++◌, map, take, arith,
}
use pi_task.Checklist.{
  ChecklistItem, ChecklistState, Index, missing, below, at, item_at?, unchecked,
  max_checklist_items, create_checklist_state, MarkResult, marked, refused, mark_checklist_done,
  Entry, checklist_entry, other_entry, Session, init, mark, read_state, append_entry, execute_init,
  execute_mark, execute_on, execute, Event, called, step, run,
}
use pi_task.Checklist.Marks.{
  unchecked_same, item_outside, check, map_item, is_index, IsMarkOf, mark_checklist_done-IsMarkOf,
}

read_state-append :
    (es : List Entry) (state : ChecklistState)
    → read_state (es ++ checklist_entry state ∷ []) ≡ some state
unfolding read_state
read_state-append [] state = refl
read_state-append (other_entry ∷ es) state = read_state-append es state
read_state-append (checklist_entry s ∷ es) state = rw (read_state-append es state) refl

abbrev pub marks : List Index → List Event
marks [] = []
marks (i ∷ is) = called (mark i) ∷ marks is

abbrev pub is_marked : ℕ → List Index → Bool
is_marked k [] = false
is_marked k (i ∷ is) = is_index k i || is_marked k is

-- The state that the session has, and its items by those of a list.
abbrev pub HasItems : (ℕ → Option ChecklistItem) → Session → Type 0
HasItems items s =
    (state : ChecklistState) × (read_state s.entries ≡ some state)
    × ((k : ℕ) → item_at? k state.items ≡ items k)

map_item_twice :
    (a b : Bool) (o : Option ChecklistItem)
    → map_item (check b) (map_item (check a) o) ≡ map_item (check (a || b)) o
map_item_twice a b none = refl
map_item_twice a b (some item) = ground arith

same_number : (k n : ℕ) → (k == n) ≡ true → k ≡ n
same_number k n h = ground arith

-- An item that is marked already, or that is not there, is as it is.
same_items :
    (i : Index) (state : ChecklistState) (error : String) (already : Bool)
    → IsMarkOf state i (refused error already)
    → (k : ℕ) → item_at? k state.items ≡ map_item (check (is_index k i)) (item_at? k state.items)
same_items missing state error false h k = unchecked_same false (item_at? k state.items) refl
same_items (below n) state error false h k = unchecked_same false (item_at? k state.items) refl
same_items (at n) state error false h k = elim (Bool-cases (k == n)) [
  | inl e ↦ rw (item_outside k state.items (ground arith)) refl
  | inr e ↦ rw e (unchecked_same false (item_at? k state.items) refl)
]
same_items i state error true (n, e, (item, found, d)) k =
    subst (λ j. item_at? k state.items ≡ map_item (check (is_index k j)) (item_at? k state.items))
      (sym e) (by_place (Bool-cases (k == n)))
  where
    by_place :
        ((k == n) ≡ true) ⊎ ((k == n) ≡ false)
        → item_at? k state.items ≡ map_item (check (k == n)) (item_at? k state.items)
    by_place (inl here) =
        subst (λ o. o ≡ map_item (check (k == n)) o)
          (sym (ap (λ m. item_at? m state.items) (same_number k n here) ∙ found)) (ground arith)
    by_place (inr other) = rw other (unchecked_same false (item_at? k state.items) refl)

module _ (i : Index) (s : Session) (items : ℕ → Option ChecklistItem) where
  abbrev Stepped : Session → Type 0
  Stepped t =
      HasItems (λ k. map_item (check (is_index k i)) (items k)) t
      × (t.first_edit_done ≡ s.first_edit_done)

  step-eq :
      (state : ChecklistState) (r : MarkResult)
      → read_state s.entries ≡ some state
      → mark_checklist_done state i ≡ r
      → (execute_mark i r s).0 ≡ step s (called (mark i))
  unfolding step execute execute_on
  step-eq state r e q =
      sym (ap (λ o. (execute_on (mark i) o s).0) e ∙ ap (λ t. (execute_mark i t s).0) q)

  result-Stepped :
      (state : ChecklistState) (r : MarkResult)
      → read_state s.entries ≡ some state
      → ((k : ℕ) → item_at? k state.items ≡ items k)
      → IsMarkOf state i r
      → Stepped (execute_mark i r s).0
  unfolding execute_mark append_entry
  result-Stepped state (marked state' remaining) e h (_, each, _, _) = (
    (
      state',
      read_state-append s.entries state',
      λ k. each k ∙ ap (map_item (check (is_index k i))) (h k),
    ),
    refl,
  )
  result-Stepped state (refused error true) e h same = (
    (
      state,
      e,
      λ k. same_items i state error true same k ∙ ap (map_item (check (is_index k i))) (h k),
    ),
    refl,
  )
  result-Stepped state (refused error false) e h same = (
    (
      state,
      e,
      λ k. same_items i state error false same k ∙ ap (map_item (check (is_index k i))) (h k),
    ),
    refl,
  )

  mark_step : HasItems items s → Stepped (step s (called (mark i)))
  mark_step (state, e, h) = subst Stepped (step-eq state (mark_checklist_done state i) e refl) (
      result-Stepped state (mark_checklist_done state i) e h (mark_checklist_done-IsMarkOf state i))

pub marks-run :
    (is : List Index) (s : Session) (items : ℕ → Option ChecklistItem)
    → HasItems items s
    → HasItems (λ k. map_item (check (is_marked k is)) (items k)) (run s (marks is))
      × ((run s (marks is)).first_edit_done ≡ s.first_edit_done)
unfolding run
marks-run [] s items (state, e, h) =
    ((state, e, λ k. h k ∙ unchecked_same false (items k) refl), refl)
marks-run (i ∷ is) s items has =
    let (next, same) = mark_step i s items has in
    let ((state, e, h), edited) =
      marks-run is (step s (called (mark i))) (λ k. map_item (check (is_index k i)) (items k))
        next in
    ((state, e, λ k. h k ∙ map_item_twice (is_index k i) (is_marked k is) (items k)), edited ∙ same)

-- The items of a new checklist.
abbrev pub new_items : List String → List ChecklistItem
new_items texts = map unchecked (take max_checklist_items texts)

pub after_init :
    (s : Session) (texts : List String)
    → HasItems (λ k. item_at? k (new_items texts)) (step s (called (init (some texts))))
      × ((step s (called (init (some texts)))).first_edit_done ≡ s.first_edit_done)
unfolding step execute execute_on execute_init append_entry create_checklist_state
after_init s texts = ((_, read_state-append s.entries _, λ k. refl), refl)

-- In any session, after a checklist is made of some texts and items are marked, in any order, more
-- than once or with indices that are not there, the checklist holds the first twelve texts, and those
-- are done whose position was marked.
pub checked_off :
    (s : Session) (texts : List String) (indices : List Index)
    → HasItems
        (λ k. map_item (check (is_marked k indices)) (item_at? k (new_items texts)))
        (run s (called (init (some texts)) ∷ marks indices))
unfolding run
checked_off s texts indices =
    (marks-run indices _ (λ k. item_at? k (new_items texts)) (after_init s texts).0).0
