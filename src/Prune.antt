-- ===== src/Prune.antt =====
-- extensions/task/prune.ts: what a reviewer is shown of the worker's conversation. A message is its
-- role, its content and the name of its tool; whatever else it holds, and what a block holds besides
-- its type and name, is a text that stands for it.
pub mod Facts
pub mod Clean
pub mod Examples
use mathlib.Core.Option.{get_or}
use pi_task.Common.{
  ℕ, String, Bool, true, false, not, Option, none, some, List, [], ◌∷◌, ◌==◌, str_eq, if◌then◌else◌,
  length, keep, contains,
}

-- A content block by its `type`; a value that is no object is an other block.
pub data Block : Type 0 where
  text thinking : (payload : String) → Block
  tool_call : (name : Option String) (payload : String) → Block
  other_block : (payload : String) → Block

pub data Content : Type 0 where
  blocks : List Block → Content
  not_an_array : (payload : String) → Content

-- The roles that the source tells apart; `other_role` has any other text.
pub data Role : Type 0 where
  custom tool_result assistant : Role
  other_role : (name : String) → Role

pub record ReviewMessage : Type 0 where
  pub role : Role
  pub content : Content
  pub tool_name : Option String
  pub payload : String

abbrev pub default_drop_tools : List String
default_drop_tools = "edit" ∷ "write" ∷ "checklist" ∷ "yield" ∷ []

-- `Array.isArray(msg.content) ? msg.content : []`
abbrev pub raw_blocks : Content → List Block
raw_blocks (blocks bs) = bs
raw_blocks (not_an_array _) = []

abbrev pub is_dropped : List String → Option String → Bool
is_dropped drop_tools name = contains (get_or name "") drop_tools

pub keeps_block : List String → Block → Bool
keeps_block drop_tools (text _) = false
keeps_block drop_tools (thinking _) = false
keeps_block drop_tools (tool_call name _) = not (is_dropped drop_tools name)
keeps_block drop_tools (other_block _) = true

-- What is pushed for a message, if anything.
pub prune_as : List String → Role → ReviewMessage → Option ReviewMessage
prune_as drop_tools custom m = none
prune_as drop_tools tool_result m = if is_dropped drop_tools m.tool_name then none else some m
prune_as drop_tools assistant m =
    let kept = keep (keeps_block drop_tools) (raw_blocks m.content) in
    if length kept == 0 then none else some (record m { content = blocks kept })
prune_as drop_tools (other_role name) m = some m

abbrev pub prune_message : List String → ReviewMessage → Option ReviewMessage
prune_message drop_tools m = prune_as drop_tools m.role m

abbrev pub push {ℓ} : {A : Type ℓ} → Option A → List A → List A
push none rest = rest
push (some m) rest = m ∷ rest

pub prune : List String → List ReviewMessage → List ReviewMessage
prune drop_tools [] = []
prune drop_tools (m ∷ ms) = push (prune_message drop_tools m) (prune drop_tools ms)

pub prune_review_context : List ReviewMessage → Option (List String) → List ReviewMessage
prune_review_context messages drop_tools = prune (get_or drop_tools default_drop_tools) messages
