-- ===== src/Prune/Examples.antt =====
-- A short conversation through extensions/task/prune.ts.
use pi_task.Common.{String, ◌≡◌, refl, Option, none, some, List, [], ◌∷◌, keep, contains}
use pi_task.Prune.{
  text, tool_call, Content, blocks, not_an_array, Role, custom, tool_result, assistant, other_role,
  ReviewMessage, default_drop_tools, keeps_block, prune_as, prune, prune_review_context,
}
use pi_task.Prune.Facts.{calls, results, is_given, kept_calls, kept_results, facts_kept}
use pi_task.Prune.Clean.{AllShown, prune_review_context-AllShown}

abbrev message : Role → Content → Option String → ReviewMessage
message role content tool_name = record {
  role = role;
  content = content;
  tool_name = tool_name;
  payload = "";
}

abbrev task : ReviewMessage
task = message (other_role "user") (not_an_array "fix it") none

abbrev reply : ReviewMessage
reply =
    message assistant
      (blocks (text "I will" ∷ tool_call (some "read") "f" ∷ tool_call (some "edit") "f" ∷ [])) none

abbrev result_of : String → ReviewMessage
result_of name = message tool_result (not_an_array "done") (some name)

abbrev conversation : List ReviewMessage
conversation =
    task ∷ reply ∷ result_of "read" ∷ result_of "edit" ∷ message custom (blocks []) none ∷ []

abbrev shown : List ReviewMessage
shown =
    task
    ∷ message assistant (blocks (tool_call (some "read") "f" ∷ [])) none
    ∷ result_of "read"
    ∷ []

pruned_conversation : prune_review_context conversation none ≡ shown
unfolding prune_review_context prune prune_as keeps_block contains
pruned_conversation = refl

facts_kept_example :
    (calls (prune default_drop_tools conversation)
      ≡ kept_calls default_drop_tools (calls conversation))
    × (results (prune default_drop_tools conversation)
        ≡ kept_results default_drop_tools (results conversation))
    × (keep is_given (prune default_drop_tools conversation) ≡ keep is_given conversation)
facts_kept_example = facts_kept default_drop_tools conversation

prune_review_context-AllShown_example :
    AllShown default_drop_tools (prune_review_context conversation none)
    × (prune_review_context (prune_review_context conversation none) none
        ≡ prune_review_context conversation none)
prune_review_context-AllShown_example = prune_review_context-AllShown conversation none
