-- ===== src/Prune/Clean.antt =====
-- What extensions/task/prune.ts leaves nothing of.
use mathlib.Core.Option.{get_or}
use pi_task.Common.{
  String, ◌≡◌, refl, ap, false, Option, some, List, [], ◌∷◌, ◌==◌, arith, Bool-cases, inl, inr,
  length, keep, contains,
}
use pi_task.Prune.{
  Block, text, thinking, tool_call, other_block, Content, blocks, not_an_array, Role, custom,
  tool_result, assistant, other_role, ReviewMessage, default_drop_tools, raw_blocks, keeps_block,
  prune_as, push, prune, prune_review_context,
}

-- A block that holds no reasoning and calls no dropped tool.
abbrev pub IsFactual : List String → Block → Type 0
IsFactual drop_tools (text _) = ⊥
IsFactual drop_tools (thinking _) = ⊥
IsFactual drop_tools (tool_call name _) = contains (get_or name "") drop_tools ≡ false
IsFactual drop_tools (other_block _) = Unit

abbrev pub AllFactual : List String → List Block → Type 0
AllFactual drop_tools [] = Unit
AllFactual drop_tools (b ∷ bs) = IsFactual drop_tools b × AllFactual drop_tools bs

-- A message that a reviewer may be shown.
abbrev pub IsShown : List String → Role → ReviewMessage → Type 0
IsShown drop_tools custom m = ⊥
IsShown drop_tools tool_result m = contains (get_or m.tool_name "") drop_tools ≡ false
IsShown drop_tools assistant m =
    ((length (raw_blocks m.content) == 0) ≡ false) × AllFactual drop_tools (raw_blocks m.content)
IsShown drop_tools (other_role name) m = Unit

abbrev pub AllShown : List String → List ReviewMessage → Type 0
AllShown drop_tools [] = Unit
AllShown drop_tools (m ∷ ms) = IsShown drop_tools m.role m × AllShown drop_tools ms

module _ (drop_tools : List String) where
  keep-AllFactual : (bs : List Block) → AllFactual drop_tools (keep (keeps_block drop_tools) bs)
  unfolding keeps_block
  keep-AllFactual [] = tt
  keep-AllFactual (text _ ∷ bs) = keep-AllFactual bs
  keep-AllFactual (thinking _ ∷ bs) = keep-AllFactual bs
  keep-AllFactual (tool_call name p ∷ bs) =
      elim (Bool-cases (contains (get_or name "") drop_tools)) [
        | inl e ↦ rw e (keep-AllFactual bs)
        | inr e ↦ rw e (e, keep-AllFactual bs)
      ]
  keep-AllFactual (other_block _ ∷ bs) = (tt, keep-AllFactual bs)

  keep-factual :
      (bs : List Block) → AllFactual drop_tools bs → keep (keeps_block drop_tools) bs ≡ bs
  unfolding keeps_block
  keep-factual [] h = refl
  keep-factual (text _ ∷ bs) h = absurd h.0
  keep-factual (thinking _ ∷ bs) h = absurd h.0
  keep-factual (tool_call name p ∷ bs) h =
      rw h.0 (ap (λ t. tool_call name p ∷ t) (keep-factual bs h.1))
  keep-factual (other_block p ∷ bs) h = ap (λ t. other_block p ∷ t) (keep-factual bs h.1)

  push-AllShown :
      (r : Role) (m : ReviewMessage) (ms : List ReviewMessage)
      → m.role ≡ r
      → AllShown drop_tools ms
      → AllShown drop_tools (push (prune_as drop_tools r m) ms)
  unfolding prune_as
  push-AllShown custom m ms e h = h
  push-AllShown tool_result m ms e h =
      elim (Bool-cases (contains (get_or m.tool_name "") drop_tools)) [
        | inl d ↦ rw d h
        | inr d ↦ rw d (rw e d, h)
      ]
  push-AllShown assistant m ms e h =
      elim (Bool-cases (length (keep (keeps_block drop_tools) (raw_blocks m.content)) == 0)) [
        | inl d ↦ rw d h
        | inr d ↦ rw d (rw e (d, keep-AllFactual (raw_blocks m.content)), h)
      ]
  push-AllShown (other_role name) m ms e h = (rw e tt, h)

  prune-AllShown : (ms : List ReviewMessage) → AllShown drop_tools (prune drop_tools ms)
  unfolding prune
  prune-AllShown [] = tt
  prune-AllShown (m ∷ ms) = push-AllShown m.role m (prune drop_tools ms) refl (prune-AllShown ms)

  same_blocks : (c : Content) → (length (raw_blocks c) == 0) ≡ false → blocks (raw_blocks c) ≡ c
  same_blocks (blocks bs) h = refl
  same_blocks (not_an_array p) h = ground arith

  prune_as-shown :
      (r : Role) (m : ReviewMessage) → IsShown drop_tools r m → prune_as drop_tools r m ≡ some m
  unfolding prune_as
  prune_as-shown custom m h = absurd h
  prune_as-shown tool_result m h = rw h refl
  prune_as-shown assistant m h =
      rw (keep-factual (raw_blocks m.content) h.1, h.0)
        (ap (λ c. some (record m { content = c })) (same_blocks m.content h.0))
  prune_as-shown (other_role name) m h = refl

  prune-shown : (ms : List ReviewMessage) → AllShown drop_tools ms → prune drop_tools ms ≡ ms
  unfolding prune
  prune-shown [] h = refl
  prune-shown (m ∷ ms) h = rw (prune_as-shown m.role m h.0) (ap (λ t. m ∷ t) (prune-shown ms h.1))

-- Nothing that a reviewer is shown is a custom entry, a result of a dropped tool, or a message of the
-- assistant that is empty, holds text or thinking, or calls a dropped tool; and pruning again
-- changes nothing.
pub prune_review_context-AllShown :
    (messages : List ReviewMessage) (drop_tools : Option (List String))
    → AllShown (get_or drop_tools default_drop_tools) (prune_review_context messages drop_tools)
      × (prune_review_context (prune_review_context messages drop_tools) drop_tools
          ≡ prune_review_context messages drop_tools)
unfolding prune_review_context
prune_review_context-AllShown messages drop_tools =
    let drop = get_or drop_tools default_drop_tools in
    let shown = prune-AllShown drop messages in
    (shown, prune-shown drop (prune drop messages) shown)
