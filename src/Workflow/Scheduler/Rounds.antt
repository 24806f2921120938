-- ===== src/Workflow/Scheduler/Rounds.antt =====
-- The `while` loop of packages/core-v2/src/workflow/scheduler.ts: each round settles a node.
use mathlib.Core.Path.{subst}
use mathlib.Core.List.{append_assoc}
use pi_task.Common.{
  ℕ, zero, suc, ◌≤◌, ◌<◌, String, ◌≡◌, refl, sym, ◌∙◌, ap, Bool, true, false, not, ◌&&◌, ◌||◌,
  Option, none, some, inl, inr, List, [], ◌∷◌, ◌++◌, arith, Bool-cases, length, take, contains,
  str_eq, eq_iff, contains-append, IsDistinct,
}
use pi_task.Workflow.Dag.{DepMap, list_of}
use pi_task.Workflow.Dag.Kahn.{IsOrderedFrom}
use pi_task.Workflow.Scheduler.{
  NodeVerdict, completed, failed, skipped, ScheduleOptions, Schedule, Turn, again, finished,
  blocker, skip_pass, ready_set, effective_max_parallel, dispatch_ready, after_pass, turn, loop,
}
use pi_task.Workflow.Scheduler.Progress.{verdict_of, is_completed, is_failed, is_skipped}
use pi_task.Workflow.Scheduler.Verdicts.{
  is_known, AllDone, AreOpen, Inv, skip_pass-Inv, skip_pass-size, skip_pass_idle,
}
use pi_task.Workflow.Scheduler.Chunk.{
  run_chunk-Inv, ready-IsDistinct, ready-AreOpen, ready-AllDone, ready_of_AllDone, take-IsDistinct,
  contains-take,
}

-- In an order that puts dependencies first, the first node that waits has none that waits.
first_free :
    (dep : String → List String) (pending seen xs : List String) (x : String)
    → IsOrderedFrom dep seen xs
    → ((d : String) → contains d seen ≡ true → contains d pending ≡ false)
    → contains x xs ≡ true
    → contains x pending ≡ true
    → (y : String) × (contains y pending ≡ true)
      × ((d : String) → contains d (dep y) ≡ true → contains d pending ≡ false)
unfolding contains
first_free dep pending seen [] x o free c p = cc
first_free dep pending seen (y ∷ ys) x o free c p = elim (Bool-cases (contains y pending)) [
  | inl e ↦ (y, e, λ d k. free d (o.0 d k))
  | inr e ↦
      first_free dep pending (seen ++ y ∷ []) ys x o.1
        (λ d k. ground (arith, free d, contains-append d seen (y ∷ []), eq_iff y d))
        (ground (arith, eq_iff y x)) p
]

known_before :
    (dep : String → List String) (seen xs : List String) (x d : String)
    → IsOrderedFrom dep seen xs
    → contains x xs ≡ true
    → contains d (dep x) ≡ true
    → contains d (seen ++ xs) ≡ true
unfolding contains
known_before dep seen [] x d o c k = cc
known_before dep seen (y ∷ ys) x d o c k = elim (Bool-cases (str_eq y x)) [
  | inl e ↦
      let there = o.0 d (subst (λ z. contains d (dep z) ≡ true) (sym ((eq_iff y x).0 e)) k) in
      ground (arith, contains-append d seen (y ∷ ys))
  | inr e ↦ rw append_assoc at (known_before dep (seen ++ y ∷ []) ys x d o.1 (rw e at c) k)
]

not_blocked :
    (s : Schedule) (ds : List String) (d : String)
    → blocker s ds ≡ none
    → contains d ds ≡ true
    → (contains d s.failed_ids || contains d s.skipped_ids) ≡ false
unfolding blocker contains
not_blocked s [] d h c = cc
not_blocked s (x ∷ xs) d h c = ground (arith, not_blocked s xs d, eq_iff x d)

take_some : (n : ℕ) (x : String) (xs : List String) → 1 ≤ n → 1 ≤ length (take n (x ∷ xs))
take_some zero x xs h = omega arith
take_some (suc n) x xs h = omega arith

module _ (options : ScheduleOptions) (deps : DepMap)
    (wide : 1 ≤ effective_max_parallel options.max_parallel)
    (sorted : IsOrderedFrom (λ x. list_of x deps) [] options.dag.order) where
  abbrev pub Kept : Schedule → Type 0
  Kept = Inv options.dag.order deps options.run_node

  -- What a round comes to: fewer nodes wait, or none.
  abbrev pub IsGood : Schedule → Turn → Type 0
  IsGood s (again s') = Kept s' × (length s'.pending < length s.pending)
  IsGood s (finished s') = Kept s' × (s'.pending ≡ [])

  some_ready :
      (s : Schedule) (x : String)
      → Kept s
      → contains x s.pending ≡ true
      → ((y : String) → contains y s.pending ≡ true → blocker s (list_of y deps) ≡ none)
      → (y : String) × (contains y (ready_set options.dag deps s) ≡ true)
  unfolding contains
  some_ready s x inv c idle =
      let (y, waits, free) =
        first_free (λ z. list_of z deps) s.pending [] options.dag.order x sorted (λ d k. cc)
          (ground (arith, inv.waiting x)) c in
      (
        y,
        ready_of_AllDone options.dag deps s inv.distinct y waits (λ d k.
            let known =
              known_before (λ z. list_of z deps) [] options.dag.order y d sorted
                (ground (arith, inv.waiting y)) k in
            let clear = not_blocked s (list_of y deps) d (idle y waits) k in
            done d known (free d k) clear),
      )
    where
      done :
          (d : String)
          → contains d options.dag.order ≡ true
          → contains d s.pending ≡ false
          → (contains d s.failed_ids || contains d s.skipped_ids) ≡ false
          → contains d s.completed_ids ≡ true
      done d known free clear =
          by_verdict (verdict_of s d) (inv.waiting d) (inv.completions d) (inv.failures d)
            (inv.skips d)
        where
          by_verdict :
              (v : Option NodeVerdict)
              → contains d s.pending ≡ (contains d options.dag.order && not (is_known v))
              → contains d s.completed_ids ≡ is_completed v
              → contains d s.failed_ids ≡ is_failed v
              → contains d s.skipped_ids ≡ is_skipped v
              → contains d s.completed_ids ≡ true
          by_verdict none w a b e = ground arith
          by_verdict (some completed) w a b e = a
          by_verdict (some failed) w a b e = ground arith
          by_verdict (some skipped) w a b e = ground arith

  dispatch_ready-IsGood :
      (s : Schedule) (ready : List String) (y : String)
      → Kept s
      → IsDistinct ready
      → AreOpen ready s
      → ((x : String) → contains x ready ≡ true → AllDone (list_of x deps) s)
      → contains y ready ≡ true
      → IsGood s (dispatch_ready options deps s ready)
  unfolding dispatch_ready contains
  dispatch_ready-IsGood s [] y inv d o r c = cc
  dispatch_ready-IsGood s (id ∷ ids) y inv d o r c =
      let width = effective_max_parallel options.max_parallel in
      let chunk = take width (id ∷ ids) in
      let inside = contains-take width (id ∷ ids) in
      let (inv', less) =
        run_chunk-Inv options.dag.order deps options.run_node options.gateway chunk s
          (take-IsDistinct width (id ∷ ids) d) (λ x k. o x (inside x k)) (λ x k. r x (inside x k))
          inv in
      (inv', omega (arith, less, take_some width id ids wide))

  -- Every round keeps the invariant and makes progress.
  turn-IsGood : (s : Schedule) → Kept s → IsGood s (turn options deps s s.pending)
  unfolding turn after_pass contains
  turn-IsGood s inv = by_pending s.pending refl
    where
      by_pass :
          (x : String)
          → contains x s.pending ≡ true
          → (p : Schedule × Bool) → skip_pass options.gateway deps s.pending (s, false) ≡ p
          → IsGood s (after_pass options deps p)
      by_pass x c (s', true) e =
          let kept =
            skip_pass-Inv options.dag.order deps options.run_node options.gateway s.pending s false
              inv.distinct (λ y k. k) inv in
          let (_, less, _) =
            skip_pass-size options.dag.order deps options.run_node options.gateway s.pending s false
              inv.distinct (λ y k. k) in
          (
            subst Kept (ap (λ q. q.0) e) kept,
            subst (λ q. length q.pending < length s.pending) (ap (λ q. q.0) e)
                (less (ap (λ q. q.1) e) refl),
          )
      by_pass x c (s', false) e =
          let (same, idle) =
            skip_pass_idle options.dag.order deps options.run_node options.gateway s.pending s
              inv.distinct (λ y k. k) (ap (λ q. q.1) e) in
          let same_state : s ≡ s' = ap (λ q. q.0) (sym same ∙ e) in
          let (y, there) = some_ready s x inv c idle in
          subst (λ t. IsGood s (dispatch_ready options deps t (ready_set options.dag deps t)))
            same_state
            (dispatch_ready-IsGood s (ready_set options.dag deps s) y inv
              (ready-IsDistinct options.dag deps s inv.distinct)
              (ready-AreOpen options.dag deps s inv.distinct)
              (ready-AllDone options.dag deps s inv.distinct) there)

      by_pending : (ids : List String) → s.pending ≡ ids → IsGood s (turn options deps s ids)
      by_pending [] e = (inv, e)
      by_pending (id ∷ ids) e =
          subst
            (λ q. IsGood s (after_pass options deps (skip_pass options.gateway deps q (s, false))))
            e
            (by_pass id (rw e (ground (arith, eq_iff id id)))
              (skip_pass options.gateway deps s.pending (s, false)) refl)

  abbrev pub Ends : ℕ → Schedule → Type 0
  Ends fuel s = (s' : Schedule) × (loop options deps fuel s ≡ some s') × Kept s' × (s'.pending ≡ [])

  -- With more rounds than there are nodes that wait, the loop ends and no node waits.
  pub loop-Ends : (fuel : ℕ) (s : Schedule) → Kept s → length s.pending < fuel → Ends fuel s
  unfolding loop
  loop-Ends zero s inv h = absurd (omega arith)
  loop-Ends (suc fuel) s inv h =
      by_turn (turn options deps s s.pending) refl (turn-IsGood s inv) (loop-Ends fuel)
    where
      by_turn :
          (t : Turn)
          → turn options deps s s.pending ≡ t
          → IsGood s t
          → ((s' : Schedule) → Kept s' → length s'.pending < fuel → Ends fuel s')
          → Ends (suc fuel) s
      by_turn (finished s') e (kept, nil) rest = (s', rw (e, loop) refl, kept, nil)
      by_turn (again s') e (kept, less) rest =
          let (end, eq, good, nil) = rest s' kept (omega arith) in (end, rw (e, loop) eq, good, nil)
