-- ===== src/Checklist.antt =====
-- extensions/task/tools/checklist.ts: the worker's checklist. The entries of the session are a list,
-- the newest last; the source marks an item in the state that an entry holds and appends that state
-- again, and nothing reads an older entry. The clock of an injected message is left out.
pub mod Marks
pub mod Sessions
pub mod Reminders
pub mod Examples
use Prim.Native.String.{◌++◌ as ◌<>◌}
use pi_task.Common.{
  ℕ, zero, suc, ◌-◌, String, Bool, true, false, not, ◌&&◌, ◌||◌, Option, none, some, List, [], ◌∷◌,
  ◌++◌, map, ltb, ◌==◌, str_eq, if◌then◌else◌, length, take, keep, decimal,
}

abbrev pub max_checklist_items : ℕ
max_checklist_items = 12

pub record ChecklistItem : Type 0 where
  pub text : String
  pub done : Bool

pub record ChecklistState : Type 0 where
  pub items : List ChecklistItem

abbrev pub unchecked : String → ChecklistItem
unchecked text = record { text = text; done = false }

pub create_checklist_state : List String → ℕ → ChecklistState
create_checklist_state items max_items = record { items = map unchecked (take max_items items) }

-- The index that a call gives: none, -(n + 1), or n.
pub data Index : Type 0 where
  missing : Index
  below at : (n : ℕ) → Index

index_text : Index → String
index_text missing = "undefined"
index_text (below n) = "-" <> decimal (suc n)
index_text (at n) = decimal n

-- `items[n]`
pub item_at? : ℕ → List ChecklistItem → Option ChecklistItem
item_at? n [] = none
item_at? zero (item ∷ items) = some item
item_at? (suc n) (item ∷ items) = item_at? n items

-- `items[n].done = true`
pub set_done : ℕ → List ChecklistItem → List ChecklistItem
set_done n [] = []
set_done zero (item ∷ items) = record item { done = true } ∷ items
set_done (suc n) (item ∷ items) = item ∷ set_done n items

pub checklist_remaining : ChecklistState → ℕ
checklist_remaining state = length (keep (λ item. not item.done) state.items)

pub data MarkResult : Type 0 where
  marked : (state : ChecklistState) (remaining : ℕ) → MarkResult
  refused : (error : String) (already_done : Bool) → MarkResult

invalid_index : ChecklistState → Index → MarkResult
invalid_index state index =
    let last = if length state.items == 0 then "-1" else decimal (length state.items - 1) in
    refused ("Index " <> (index_text index <> (" invalid (expected 0.." <> (last <> ").")))) false

mark_item : ChecklistState → ℕ → Option ChecklistItem → MarkResult
mark_item state n none = invalid_index state (at n)
mark_item state n (some item) =
    let state' = record state { items = set_done n state.items } in
    if item.done
    then refused ("Item " <> (decimal n <> (" (\"" <> (item.text <> "\") was already done.")))) true
    else marked state' (checklist_remaining state')

pub mark_checklist_done : ChecklistState → Index → MarkResult
mark_checklist_done state missing = invalid_index state missing
mark_checklist_done state (below n) = invalid_index state (below n)
mark_checklist_done state (at n) = mark_item state n (item_at? n state.items)

pub checklist_status_text : ChecklistState → String
checklist_status_text state = "remaining:" <> decimal (checklist_remaining state)

-- The items that are not done, with their positions.
pub unchecked_from : ℕ → List ChecklistItem → List (ℕ × String)
unchecked_from n [] = []
unchecked_from n (item ∷ items) =
    let rest = unchecked_from (suc n) items in if item.done then rest else (n, item.text) ∷ rest

join_lines : List String → String
join_lines [] = ""
join_lines (line ∷ []) = line
join_lines (line ∷ l ∷ ls) = line <> ("\n" <> join_lines (l ∷ ls))

pub checklist_reminder : ChecklistState → String
checklist_reminder state =
    "Remaining checklist items (complete before calling yield):\n"
    <> join_lines (map (λ p. decimal (suc p.0) <> (". " <> p.1)) (unchecked_from 0 state.items))

pub should_inject_checklist_reminder : Bool → Option ChecklistState → Bool
should_inject_checklist_reminder first_edit_done none = false
should_inject_checklist_reminder first_edit_done (some state) =
    first_edit_done && ltb 0 (checklist_remaining state)

pub data Entry : Type 0 where
  checklist_entry : ChecklistState → Entry
  other_entry : Entry

pub record Session : Type 0 where
  pub first_edit_done : Bool
  pub entries : List Entry

pub data Params : Type 0 where
  init : (items : Option (List String)) → Params
  mark : (index : Index) → Params
  status : Params

pub data Details : Type 0 where
  no_details complete : Details
  texts : List String → Details
  already_done : Index → Details
  marked_at : Index → (remaining : ℕ) → Details
  open_items : (remaining : ℕ) (items : List String) → Details

pub record Reply : Type 0 where
  pub text : String
  pub details : Details

-- `readState`
pub read_state : List Entry → Option ChecklistState
read_state [] = none
read_state (other_entry ∷ es) = read_state es
read_state (checklist_entry state ∷ es) = elim (read_state es) [
  | none ↦ some state
  | some s ↦ some s
]

-- `pi.on("tool_execution_end", ...)`
pub on_tool_execution_end : (tool_name : String) (is_error : Bool) → Session → Session
on_tool_execution_end tool_name is_error s =
    if not s.first_edit_done
      && (str_eq tool_name "edit" || str_eq tool_name "write")
      && not is_error
    then record s { first_edit_done = true }
    else s

append_entry : ChecklistState → Session → Session
append_entry state s = record s { entries = s.entries ++ checklist_entry state ∷ [] }

plural : ℕ → String
plural n = if n == 1 then "" else "s"

not_initialized : Reply
not_initialized = record {
  text = "Checklist not initialized. Call checklist({action:'init', items:[...]}) first.";
  details = no_details;
}

execute_init : List String → Session → Session × Reply
execute_init raw s =
    let state = create_checklist_state raw max_checklist_items in
    let n = length state.items in
    let note =
      if ltb max_checklist_items (length raw)
      then " (truncated from "
        <> (decimal (length raw) <> (" to " <> (decimal max_checklist_items <> ".)")))
      else "" in
    (
      append_entry state s,
      record {
        text =
            "Checklist initialized with "
            <> (decimal n <> (" item" <> (plural n <> ("." <> note))));
        details = texts (map (λ item. item.text) state.items);
      },
    )

execute_mark : Index → MarkResult → Session → Session × Reply
execute_mark index (marked state remaining) s = (
  append_entry state s,
  record {
    text =
        "Marked item "
        <> (index_text index
            <> (" done. "
                <> (decimal remaining <> (" item" <> (plural remaining <> " remaining.")))));
    details = marked_at index remaining;
  },
)
execute_mark index (refused error true) s =
    (s, record { text = error; details = already_done index })
execute_mark index (refused error false) s = (s, record { text = error; details = no_details })

list_open : List (ℕ × String) → Reply
list_open [] = record { text = "All checklist items are complete."; details = complete }
list_open (o ∷ os) = record {
  text = "Remaining:\n" <> join_lines (map (λ p. decimal p.0 <> (": " <> p.1)) (o ∷ os));
  details = open_items (length (o ∷ os)) (map (λ p. p.1) (o ∷ os));
}

-- A call for which a state is wanted, and the state that the session has.
execute_on : Params → Option ChecklistState → Session → Session × Reply
execute_on (init none) state s = execute_init [] s
execute_on (init (some raw)) state s = execute_init raw s
execute_on (mark index) none s = (s, not_initialized)
execute_on (mark index) (some state) s = execute_mark index (mark_checklist_done state index) s
execute_on status none s = (s, not_initialized)
execute_on status (some state) s = (s, list_open (unchecked_from 0 state.items))

pub execute : Params → Session → Session × Reply
execute params s = execute_on params (read_state s.entries) s

-- `pi.on("context", ...)`: the text of the status bar, and the message that is added.
pub on_context : Session → String × Option String
on_context s = elim (read_state s.entries) [
  | none ↦ (checklist_status_text (record { items = [] }), none)
  | some state ↦ (
    checklist_status_text state,
    if should_inject_checklist_reminder s.first_edit_done (some state)
        then some (checklist_reminder state)
        else none,
  )
]

pub data Event : Type 0 where
  tool_ended : (tool_name : String) (is_error : Bool) → Event
  called : Params → Event
  appended_other : Event

pub step : Session → Event → Session
step s (tool_ended tool_name is_error) = on_tool_execution_end tool_name is_error s
step s (called params) = (execute params s).0
step s appended_other = record s { entries = s.entries ++ other_entry ∷ [] }

pub run : Session → List Event → Session
run s [] = s
run s (e ∷ es) = run (step s e) es
