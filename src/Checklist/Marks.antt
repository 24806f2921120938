-- ===== src/Checklist/Marks.antt =====
-- What marking an item of extensions/task/tools/checklist.ts does to the list.
use pi_task.Common.{
  ℕ, zero, suc, ◌≡◌, refl, Bool, true, false, not, ◌||◌, Option, none, some, List, [], ◌∷◌, ◌≤◌,
  ◌==◌, inl, inr, length, keep, arith, Bool-cases,
}
use pi_task.Checklist.{
  ChecklistItem, ChecklistState, Index, missing, below, at, item_at?, set_done, checklist_remaining,
  MarkResult, marked, refused, invalid_index, mark_item, mark_checklist_done,
}

abbrev pub check : Bool → ChecklistItem → ChecklistItem
check b item = record item { done = item.done || b }

abbrev pub map_item : (ChecklistItem → ChecklistItem) → Option ChecklistItem → Option ChecklistItem
map_item f none = none
map_item f (some item) = some (f item)

pub unchecked_same : (b : Bool) (o : Option ChecklistItem) → b ≡ false → o ≡ map_item (check b) o
unchecked_same b none h = refl
unchecked_same b (some item) h = ground arith

pub item_at?-set_done :
    (n k : ℕ) (items : List ChecklistItem)
    → item_at? k (set_done n items) ≡ map_item (check (k == n)) (item_at? k items)
unfolding item_at? set_done
item_at?-set_done n k [] = refl
item_at?-set_done zero zero (item ∷ items) = ground arith
item_at?-set_done zero (suc k) (item ∷ items) =
    unchecked_same (suc k == 0) (item_at? k items) (ground arith)
item_at?-set_done (suc n) zero (item ∷ items) = ground arith
item_at?-set_done (suc n) (suc k) (item ∷ items) = ground (arith, item_at?-set_done n k items)

open_set_done :
    (n : ℕ) (items : List ChecklistItem) (item : ChecklistItem)
    → item_at? n items ≡ some item
    → item.done ≡ false
    → suc (length (keep (λ i. not i.done) (set_done n items)))
      ≡ length (keep (λ i. not i.done) items)
unfolding item_at? set_done
open_set_done n [] item e h = cc
open_set_done zero (x ∷ xs) item e h = ground arith
open_set_done (suc n) (x ∷ xs) item e h = ground (arith, open_set_done n xs item e h)

-- What `items[n]` is after a mark of `index`.
abbrev pub is_index : ℕ → Index → Bool
is_index k missing = false
is_index k (below n) = false
is_index k (at n) = k == n

-- The index names an item, with this mark.
abbrev pub IsItem : ChecklistState → Index → Bool → Type 0
IsItem state index done =
    (n : ℕ) × (index ≡ at n)
    × ((item : ChecklistItem) × (item_at? n state.items ≡ some item) × (item.done ≡ done))

-- No index, a negative one, or one past the last item.
abbrev pub IsOutside : ChecklistState → Index → Type 0
IsOutside state missing = Unit
IsOutside state (below n) = Unit
IsOutside state (at n) = length state.items ≤ n

-- What a mark comes to.
abbrev pub IsMarkOf : ChecklistState → Index → MarkResult → Type 0
IsMarkOf state index (marked state' remaining) =
    IsItem state index false
    × ((k : ℕ)
        → item_at? k state'.items ≡ map_item (check (is_index k index)) (item_at? k state.items))
    × (remaining ≡ checklist_remaining state')
    × (suc remaining ≡ checklist_remaining state)
IsMarkOf state index (refused error true) = IsItem state index true
IsMarkOf state index (refused error false) = IsOutside state index

past_items : (n : ℕ) (items : List ChecklistItem) → item_at? n items ≡ none → length items ≤ n
unfolding item_at?
past_items n [] e = omega arith
past_items zero (item ∷ items) e = cc
past_items (suc n) (item ∷ items) e = omega (arith, past_items n items e)

pub item_outside : (n : ℕ) (items : List ChecklistItem) → length items ≤ n → item_at? n items ≡ none
unfolding item_at?
item_outside n [] h = refl
item_outside zero (item ∷ items) h = ground arith
item_outside (suc n) (item ∷ items) h = item_outside n items (omega arith)

mark_item-IsMarkOf :
    (state : ChecklistState) (n : ℕ) (found : Option ChecklistItem)
    → item_at? n state.items ≡ found
    → IsMarkOf state (at n) (mark_item state n found)
unfolding mark_item invalid_index checklist_remaining
mark_item-IsMarkOf state n none e = past_items n state.items e
mark_item-IsMarkOf state n (some item) e = elim (Bool-cases item.done) [
  | inl d ↦ rw (d, mark_item) (n, refl, (item, e, d))
  | inr d ↦
      rw (d, mark_item)
        (
          (n, refl, (item, e, d)),
          λ k. item_at?-set_done n k state.items,
          refl,
          open_set_done n state.items item e d,
        )
]

-- A mark of an item that is there and open checks that item alone, and what is reported as remaining
-- is one less than before and what remains. Any other mark is refused: as done already if the item
-- is checked, and as an invalid index if no index is given, or it is negative or past the last item.
pub mark_checklist_done-IsMarkOf :
    (state : ChecklistState) (index : Index)
    → IsMarkOf state index (mark_checklist_done state index)
unfolding mark_checklist_done invalid_index
mark_checklist_done-IsMarkOf state missing = tt
mark_checklist_done-IsMarkOf state (below n) = tt
mark_checklist_done-IsMarkOf state (at n) = mark_item-IsMarkOf state n (item_at? n state.items) refl
