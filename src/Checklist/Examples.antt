-- ===== src/Checklist/Examples.antt =====
-- Sessions of extensions/task/tools/checklist.ts with a checklist of two items.
use pi_task.Common.{ℕ, String, ◌≡◌, refl, true, false, some, List, [], ◌∷◌, ◌↔◌, any, decimal}
use pi_task.Checklist.{
  ChecklistItem, missing, at, item_at?, set_done, create_checklist_state, checklist_remaining,
  mark_item, mark_checklist_done, invalid_index, index_text, checklist_status_text, unchecked_from,
  join_lines, checklist_reminder, should_inject_checklist_reminder, init, read_state,
  on_tool_execution_end, append_entry, execute_init, execute_mark, execute_on, execute, on_context,
  Event, tool_ended, called, step, run, list_open, plural,
}
use pi_task.Checklist.Marks.{map_item, check, IsMarkOf, mark_checklist_done-IsMarkOf}
use pi_task.Checklist.Sessions.{HasItems, marks, is_marked, new_items, checked_off}
use pi_task.Checklist.Reminders.{fresh, is_edit, is_reminded, reminded_iff}

-- All the code of the checklist, for tests by evaluation.
abbrev code : Unit {0}
unfolding item_at? set_done create_checklist_state checklist_remaining mark_item mark_checklist_done
    invalid_index index_text checklist_status_text unchecked_from join_lines checklist_reminder
    should_inject_checklist_reminder read_state on_tool_execution_end append_entry execute_init
    execute_mark execute_on execute on_context step run list_open plural decimal
code = tt

abbrev two : List String
two = "build" ∷ "test" ∷ []

abbrev edited : List Event
edited = tool_ended "edit" false ∷ []

one_left :
    on_context (
      run (run fresh edited) (called (init (some two)) ∷ marks (at 0 ∷ at 0 ∷ at 7 ∷ missing ∷ [])))
    ≡ ("remaining:1", some "Remaining checklist items (complete before calling yield):\n2. test")
unfolding code
one_left = refl

mark_checklist_done-IsMarkOf_example :
    IsMarkOf
      (create_checklist_state two 12)
      (at 1)
      (mark_checklist_done (create_checklist_state two 12) (at 1))
mark_checklist_done-IsMarkOf_example =
    mark_checklist_done-IsMarkOf (create_checklist_state two 12) (at 1)

checked_off_example :
    HasItems
      (λ k. map_item (check (is_marked k (at 1 ∷ missing ∷ []))) (item_at? k (new_items two)))
      (run fresh (called (init (some two)) ∷ marks (at 1 ∷ missing ∷ [])))
checked_off_example = checked_off fresh two (at 1 ∷ missing ∷ [])

reminded_iff_example :
    (is_reminded (run (run fresh edited) (called (init (some two)) ∷ marks (at 1 ∷ []))) ≡ true) ↔ (
      (any is_edit edited ≡ true)
      × ((k : ℕ) × ((item : ChecklistItem) × (item_at? k (new_items two) ≡ some item))
          × (is_marked k (at 1 ∷ []) ≡ false)))
reminded_iff_example = reminded_iff edited two (at 1 ∷ [])
