-- ===== src/Workflow/Scheduler/Calls/Counts.antt =====
-- How often packages/core-v2/src/workflow/scheduler.ts has called a node that it settles.
use pi_task.Common.{
  ℕ, suc, ◌+◌, String, ◌≡◌, refl, sym, ap, ◌∙◌, true, false, Option, none, some, inl, inr, List, [],
  ◌∷◌, ◌++◌, arith, Bool-cases, contains, str_eq, eq_iff, if◌then◌else◌, contains-delete,
  IsDistinct, occurs,
}
use pi_task.Workflow.Scheduler.{NodeVerdict, skipped, Schedule}
use pi_task.Workflow.Scheduler.Progress.{Adds, verdict_of}
use pi_task.Workflow.Scheduler.Verdicts.{delete-IsDistinct}
use pi_task.Workflow.Scheduler.Flights.Chunks.{has_run}

-- How often a node is in the chunks.
abbrev pub times : String → List (List String) → ℕ
times x [] = 0
times x (c ∷ cs) = occurs x c + times x cs

pub times-snoc :
    (x : String) (cs : List (List String)) (c : List String)
    → times x (cs ++ c ∷ []) ≡ times x cs + occurs x c
times-snoc x [] c = omega arith
times-snoc x (d ∷ ds) c = omega (arith, times-snoc x ds c)

abbrev pub once_if_run : Option NodeVerdict → ℕ
once_if_run v = if has_run v then 1 else 0

-- Pending nodes have no verdict, and a node has been called once if it has the verdict of its own
-- run, or will have, being among `ids`.
pub record AreCalled (ids : List String) (s : Schedule) : Type 0 where
  pub distinct : IsDistinct s.pending
  pub waiting : (x : String) → contains x s.pending ≡ true → verdict_of s x ≡ none
  pub runs : (x : String) → times x s.calls ≡ once_if_run (verdict_of s x) + occurs x ids

module _ {v : NodeVerdict} {id : String} {s s' : Schedule} (a : Adds v id s s')
    (there : contains id s.pending ≡ true) where
  waiting-Adds :
      ((x : String) → contains x s.pending ≡ true → verdict_of s x ≡ none)
      → (x : String) → contains x s'.pending ≡ true
      → verdict_of s' x ≡ none
  waiting-Adds w x c =
      let c' = rw a.pending at c in
      elim (Bool-cases (str_eq id x)) [
        | inl e ↦ cc (contains-delete id x s.pending, c', e)
        | inr e ↦ a.verdicts x ∙ rw e (w x (ground (arith, contains-delete id x s.pending)))
      ]

  -- A node that is skipped is not called.
  pub skipped-AreCalled : v ≡ skipped → AreCalled [] s → AreCalled [] s'
  unfolding occurs
  skipped-AreCalled is_skip c = record {
    distinct = rw a.pending (delete-IsDistinct id s.pending c.distinct);
    waiting = waiting-Adds c.waiting;
    runs = λ x. ap (times x) a.calls ∙ elim (Bool-cases (str_eq id x)) [
      | inl e ↦
          c.runs x
          ∙ ap (λ w. once_if_run w + 0)
              (ap (verdict_of s) (sym ((eq_iff id x).0 e)) ∙ c.waiting id there)
          ∙ sym (rw (a.verdicts x, e, is_skip) refl)
      | inr e ↦ c.runs x ∙ sym (rw (a.verdicts x, e) refl)
    ];
  }

  -- A node that is settled has been called.
  pub settled-AreCalled :
      (ids : List String) → has_run (some v) ≡ true → AreCalled (id ∷ ids) s → AreCalled ids s'
  unfolding occurs
  settled-AreCalled ids ran c = record {
    distinct = rw a.pending (delete-IsDistinct id s.pending c.distinct);
    waiting = waiting-Adds c.waiting;
    runs = λ x. ap (times x) a.calls ∙ elim (Bool-cases (str_eq id x)) [
      | inl e ↦
          let fresh : verdict_of s x ≡ none =
            ap (verdict_of s) (sym ((eq_iff id x).0 e)) ∙ c.waiting id there in
          rw (a.verdicts x, e, ran)
            (omega (arith, c.runs x, ap once_if_run fresh, occurs_here x ids e))
      | inr e ↦ rw (a.verdicts x, e) (omega (arith, c.runs x, occurs_other x ids e))
    ];
  }
    where
      occurs_here :
          (x : String) (ids : List String)
          → str_eq id x ≡ true
          → occurs x (id ∷ ids) ≡ suc (occurs x ids)
      occurs_here x ids e = rw e refl

      occurs_other :
          (x : String) (ids : List String)
          → str_eq id x ≡ false
          → occurs x (id ∷ ids) ≡ occurs x ids
      occurs_other x ids e = rw e refl
