-- ===== src/Checklist/Reminders.antt =====
-- extensions/task/tools/checklist.ts: when a context has a reminder.
use pi_task.Common.{
  ℕ, zero, suc, ◌<◌, String, ◌≡◌, refl, sym, ◌∙◌, Bool, true, false, not, ◌&&◌, ◌||◌, Option, none,
  some, List, [], ◌∷◌, map, ltb, str_eq, inl, inr, ◌↔◌, length, take, keep, any, arith, Bool-cases,
}
use pi_task.Checklist.{
  ChecklistItem, ChecklistState, Index, item_at?, unchecked, max_checklist_items,
  checklist_remaining, MarkResult, marked, refused, mark_checklist_done,
  should_inject_checklist_reminder, Session, Params, init, mark, status, read_state,
  on_tool_execution_end, append_entry, execute_init, execute_mark, execute_on, execute, on_context,
  Event, tool_ended, called, appended_other, step, run,
}
use pi_task.Checklist.Marks.{check, map_item}
use pi_task.Checklist.Sessions.{marks, is_marked, new_items, marks-run, after_init}

abbrev IsOpen : List ChecklistItem → Type 0
IsOpen items =
    (k : ℕ) × (item : ChecklistItem) × (item_at? k items ≡ some item) × (item.done ≡ false)

IsOpen-of_remaining :
    (items : List ChecklistItem) → 0 < length (keep (λ i. not i.done) items) → IsOpen items
unfolding item_at?
IsOpen-of_remaining [] h = absurd (omega arith)
IsOpen-of_remaining (x ∷ xs) h = elim (Bool-cases x.done) [
  | inl d ↦ let (k, item, e, f) = IsOpen-of_remaining xs (rw d at h) in (suc k, item, e, f)
  | inr d ↦ (0, x, refl, d)
]

remaining_of_open :
    (items : List ChecklistItem) (k : ℕ) (item : ChecklistItem)
    → item_at? k items ≡ some item
    → item.done ≡ false
    → 0 < length (keep (λ i. not i.done) items)
unfolding item_at?
remaining_of_open [] k item e d = cc
remaining_of_open (x ∷ xs) zero item e d = ground arith
remaining_of_open (x ∷ xs) (suc k) item e d = ground (arith, remaining_of_open xs k item e d)

abbrev pub fresh : Session
fresh = record { first_edit_done = false; entries = [] }

abbrev pub is_edit : Event → Bool
is_edit (tool_ended name is_error) = (str_eq name "edit" || str_eq name "write") && not is_error
is_edit (called _) = false
is_edit appended_other = false

execute_mark-edit :
    (i : Index) (r : MarkResult) (s : Session)
    → (execute_mark i r s).0.first_edit_done ≡ s.first_edit_done
unfolding execute_mark append_entry
execute_mark-edit i (marked state remaining) s = refl
execute_mark-edit i (refused error true) s = refl
execute_mark-edit i (refused error false) s = refl

execute_on-edit :
    (params : Params) (o : Option ChecklistState) (s : Session)
    → (execute_on params o s).0.first_edit_done ≡ s.first_edit_done
unfolding execute_on execute_init append_entry
execute_on-edit (init none) o s = refl
execute_on-edit (init (some raw)) o s = refl
execute_on-edit (mark i) none s = refl
execute_on-edit (mark i) (some state) s = execute_mark-edit i (mark_checklist_done state i) s
execute_on-edit status none s = refl
execute_on-edit status (some state) s = refl

step-edit :
    (e : Event) (s : Session) → (step s e).first_edit_done ≡ (s.first_edit_done || is_edit e)
unfolding step on_tool_execution_end execute
step-edit (tool_ended name is_error) s = ground arith
step-edit (called params) s = execute_on-edit params (read_state s.entries) s ∙ ground arith
step-edit appended_other s = ground arith

first_edit :
    (es : List Event) (s : Session)
    → (run s es).first_edit_done ≡ (s.first_edit_done || any is_edit es)
unfolding run
first_edit [] s = ground arith
first_edit (e ∷ es) s = ground (arith, first_edit es (step s e), step-edit e s)

abbrev has_message : Option String → Bool
has_message none = false
has_message (some _) = true

abbrev pub is_reminded : Session → Bool
is_reminded s = has_message (on_context s).1

is_reminded-eq :
    (s : Session) (state : ChecklistState)
    → read_state s.entries ≡ some state
    → is_reminded s ≡ (s.first_edit_done && ltb 0 (checklist_remaining state))
unfolding on_context should_inject_checklist_reminder
is_reminded-eq s state e = ground arith

open_of_checked :
    (b : Bool) (o : Option ChecklistItem) (item : ChecklistItem)
    → map_item (check b) o ≡ some item
    → item.done ≡ false
    → ((was : ChecklistItem) × (o ≡ some was)) × (b ≡ false)
open_of_checked b none item e d = cc
open_of_checked b (some was) item e d = ((was, refl), ground arith)

new_open :
    (texts : List String) (k : ℕ) (item : ChecklistItem)
    → item_at? k (map unchecked texts) ≡ some item
    → item.done ≡ false
unfolding item_at?
new_open [] k item e = cc
new_open (t ∷ ts) zero item e = cc
new_open (t ∷ ts) (suc k) item e = new_open ts k item e

abbrev AnyUnmarked : List String → List Index → Type 0
AnyUnmarked texts indices =
    (k : ℕ) × ((item : ChecklistItem) × (item_at? k (new_items texts) ≡ some item))
    × (is_marked k indices ≡ false)

module _ (texts : List String) (indices : List Index) (items : List ChecklistItem)
    (same : (k : ℕ)
      → item_at? k items
        ≡ map_item (check (is_marked k indices)) (item_at? k (new_items texts))) where
  unmarked_of_remaining : 0 < length (keep (λ i. not i.done) items) → AnyUnmarked texts indices
  unmarked_of_remaining h =
      let (k, item, there, is_open) = IsOpen-of_remaining items h in
      let (was, unmarked) =
        open_of_checked (is_marked k indices) _ item (sym (same k) ∙ there) is_open in
      (k, was, unmarked)

  remaining_of_unmarked : AnyUnmarked texts indices → 0 < length (keep (λ i. not i.done) items)
  remaining_of_unmarked (k, (item, there), unmarked) =
      let now : item_at? k items ≡ some (check false item) = same k ∙ rw (there, unmarked) refl in
      remaining_of_open items k (check false item) now
        (ground (arith, new_open (take max_checklist_items texts) k item there))

reminded_by :
    (s : Session) (state : ChecklistState) (edited : Bool) (texts : List String)
    (indices : List Index)
    → read_state s.entries ≡ some state
    → s.first_edit_done ≡ edited
    → ((k : ℕ)
        → item_at? k state.items
          ≡ map_item (check (is_marked k indices)) (item_at? k (new_items texts)))
    → (is_reminded s ≡ true) ↔ ((edited ≡ true) × AnyUnmarked texts indices)
unfolding checklist_remaining
reminded_by s state edited texts indices e f same = (
  λ h. (
    ground (arith, is_reminded-eq s state e),
    unmarked_of_remaining texts indices state.items same (ground (arith, is_reminded-eq s state e)),
  ),
  λ h.
      ground
        (arith, is_reminded-eq s state e, remaining_of_unmarked texts indices state.items same h.1),
)

-- In a session that made a checklist of some texts after any events and then marked items, the next
-- context has a reminder exactly if an edit or a write has ended without an error among those events
-- and one of the first twelve texts has a position that was not marked.
pub reminded_iff :
    (before : List Event) (texts : List String) (indices : List Index)
    → (is_reminded (run (run fresh before) (called (init (some texts)) ∷ marks indices)) ≡ true) ↔ (
        (any is_edit before ≡ true)
        × ((k : ℕ) × ((item : ChecklistItem) × (item_at? k (new_items texts) ≡ some item))
            × (is_marked k indices ≡ false)))
unfolding run
reminded_iff before texts indices =
    let s = run fresh before in
    let made = after_init s texts in
    let ((state, e, same), edited) =
      marks-run indices (step s (called (init (some texts)))) (λ k. item_at? k (new_items texts))
        made.0 in
    reminded_by _ state (any is_edit before) texts indices e
      (edited ∙ made.1 ∙ first_edit before fresh) same
