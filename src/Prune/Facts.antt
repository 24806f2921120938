-- ===== src/Prune/Facts.antt =====
-- The facts that extensions/task/prune.ts keeps: tool calls, tool results and messages of others.
use mathlib.Core.Option.{get_or}
use pi_task.Common.{
  String, ◌≡◌, refl, Bool, true, false, not, Option, List, [], ◌∷◌, ◌++◌, ◌==◌, arith,
  if◌then◌else◌, length, keep, contains,
}
use pi_task.Prune.{
  Block, text, thinking, tool_call, other_block, Role, custom, tool_result, assistant, other_role,
  prune_as, ReviewMessage, raw_blocks, keeps_block, push, prune,
}

-- A call, with the name of its tool and its arguments.
abbrev pub Call : Type 0
Call = Option String × String

-- The calls among blocks.
abbrev pub block_calls : List Block → List Call
block_calls [] = []
block_calls (text _ ∷ bs) = block_calls bs
block_calls (thinking _ ∷ bs) = block_calls bs
block_calls (tool_call name payload ∷ bs) = (name, payload) ∷ block_calls bs
block_calls (other_block _ ∷ bs) = block_calls bs

abbrev is_assistant : Role → Bool
is_assistant assistant = true
is_assistant _ = false

abbrev is_tool_result : Role → Bool
is_tool_result tool_result = true
is_tool_result _ = false

-- The calls that the assistant made, in order.
abbrev pub calls : List ReviewMessage → List Call
calls [] = []
calls (m ∷ ms) =
    if is_assistant m.role then block_calls (raw_blocks m.content) ++ calls ms else calls ms

-- The results of tools, in order.
abbrev pub results : List ReviewMessage → List ReviewMessage
results [] = []
results (m ∷ ms) = if is_tool_result m.role then m ∷ results ms else results ms

abbrev pub is_given : ReviewMessage → Bool
is_given m = elim m.role [ other_role _ ↦ true | _ ↦ false ]

-- Of a tool that is not dropped; one without a name has the empty name.
abbrev pub is_kept : List String → Option String → Bool
is_kept drop_tools name = not (contains (get_or name "") drop_tools)

abbrev pub kept_calls : List String → List Call → List Call
kept_calls drop_tools = keep (λ (c : Call). is_kept drop_tools c.0)

abbrev pub kept_results : List String → List ReviewMessage → List ReviewMessage
kept_results drop_tools = keep (λ (m : ReviewMessage). is_kept drop_tools m.tool_name)

keep-append {ℓ} :
    {A : Type ℓ} (p : A → Bool) (xs ys : List A) → keep p (xs ++ ys) ≡ keep p xs ++ keep p ys
keep-append p [] ys = refl
keep-append p (x ∷ xs) ys = ground (arith, keep-append p xs ys)

block_calls-keep :
    (drop_tools : List String) (bs : List Block)
    → block_calls (keep (keeps_block drop_tools) bs) ≡ kept_calls drop_tools (block_calls bs)
unfolding keeps_block
block_calls-keep drop_tools [] = refl
block_calls-keep drop_tools (text _ ∷ bs) = block_calls-keep drop_tools bs
block_calls-keep drop_tools (thinking _ ∷ bs) = block_calls-keep drop_tools bs
block_calls-keep drop_tools (tool_call name _ ∷ bs) = ground (arith, block_calls-keep drop_tools bs)
block_calls-keep drop_tools (other_block _ ∷ bs) = block_calls-keep drop_tools bs

no_calls : (bs : List Block) → (length bs == 0) ≡ true → block_calls bs ≡ []
no_calls [] h = refl
no_calls (b ∷ bs) h = ground arith

module _ (drop_tools : List String) where
  -- A message alone, before what follows it.
  message_calls :
      (r : Role) (m : ReviewMessage) (ms : List ReviewMessage)
      → m.role ≡ r
      → calls (push (prune_as drop_tools r m) ms) ≡ (
          if is_assistant r
          then kept_calls drop_tools (block_calls (raw_blocks m.content)) ++ calls ms
          else calls ms)
  unfolding prune_as
  message_calls custom m ms e = refl
  message_calls tool_result m ms e = ground arith
  message_calls assistant m ms e = ground (
    arith,
    block_calls-keep drop_tools (raw_blocks m.content),
    no_calls (keep (keeps_block drop_tools) (raw_blocks m.content)),
  )
  message_calls (other_role name) m ms e = ground arith

  message_results :
      (r : Role) (m : ReviewMessage) (ms : List ReviewMessage)
      → m.role ≡ r
      → results (push (prune_as drop_tools r m) ms)
        ≡ (if is_tool_result r then kept_results drop_tools (m ∷ []) ++ results ms else results ms)
  unfolding prune_as
  message_results custom m ms e = refl
  message_results tool_result m ms e = ground arith
  message_results assistant m ms e = ground arith
  message_results (other_role name) m ms e = ground arith

  message_given :
      (r : Role) (m : ReviewMessage) (ms : List ReviewMessage)
      → m.role ≡ r
      → keep is_given (push (prune_as drop_tools r m) ms) ≡ keep is_given (m ∷ ms)
  unfolding prune_as
  message_given custom m ms e = ground arith
  message_given tool_result m ms e = ground arith
  message_given assistant m ms e = ground arith
  message_given (other_role name) m ms e = ground arith

-- A reviewer is shown, in order, all calls with their arguments and all results, as they are, of the
-- tools that are not dropped and none of the others, and every message of another role than the
-- three, as it is.
pub facts_kept :
    (drop_tools : List String) (ms : List ReviewMessage)
    → (calls (prune drop_tools ms) ≡ kept_calls drop_tools (calls ms))
      × (results (prune drop_tools ms) ≡ kept_results drop_tools (results ms))
      × (keep is_given (prune drop_tools ms) ≡ keep is_given ms)
unfolding prune
facts_kept drop_tools [] = (refl, refl, refl)
facts_kept drop_tools (m ∷ ms) =
    let (c, r, g) = facts_kept drop_tools ms in
    let rest = prune drop_tools ms in
    (
      ground (
        arith,
        message_calls drop_tools m.role m rest refl,
        c,
        keep-append (λ (c : Call). is_kept drop_tools c.0) (block_calls (raw_blocks m.content))
            (calls ms),
      ),
      ground (arith, message_results drop_tools m.role m rest refl, r),
      ground (arith, message_given drop_tools m.role m rest refl, g),
    )
