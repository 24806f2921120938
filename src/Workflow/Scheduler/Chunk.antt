-- ===== src/Workflow/Scheduler/Chunk.antt =====
-- Step 2 of packages/core-v2/src/workflow/scheduler.ts: the ready set and the chunk that is run.
use mathlib.Core.Path.{subst}
use pi_task.Common.{
  ℕ, zero, suc, ◌+◌, ◌≤◌, ◌<◌, String, ◌≡◌, refl, Bool, true, some, List, [], ◌∷◌, ◌++◌, arith,
  if◌then◌else◌, max, length, take, every, keep, contains, eq_iff, IsDistinct, occurs,
  contains-occurs, occurs_of_distinct, IsDistinct-of_occurs,
}
use pi_task.Workflow.Dag.{DepMap, list_of, SynthesizedDag}
use pi_task.Workflow.Scheduler.{
  NodeOutcome, returned_completed, returned_failed, threw, Schedule, insert_by, sort_by, ready_set,
  settle, settle_all, run_chunk, route_all,
}
use pi_task.Workflow.Scheduler.Progress.{
  outcome_verdict, settle-Adds, Routed, route_all-Routed, length-delete-lt,
}
use pi_task.Workflow.Scheduler.Verdicts.{
  AllDone, AreOpen, IsJustified, Inv, Inv-Adds, Inv-Routed, AreOpen-Adds, head_open, AllDone-Adds,
}

occurs-insert_by :
    (index : String → ℕ) (k x : String) (ys : List String)
    → occurs k (insert_by index x ys) ≡ occurs k (x ∷ ys)
unfolding insert_by occurs
occurs-insert_by index k x [] = refl
occurs-insert_by index k x (y ∷ ys) = ground (arith, occurs-insert_by index k x ys)

occurs-sort_by :
    (index : String → ℕ) (k : String) (xs : List String) → occurs k (sort_by index xs) ≡ occurs k xs
unfolding sort_by occurs
occurs-sort_by index k [] = refl
occurs-sort_by index k (x ∷ xs) =
    ground (arith, occurs-sort_by index k xs, occurs-insert_by index k x (sort_by index xs))

occurs-keep :
    (p : String → Bool) (k : String) (xs : List String)
    → occurs k (keep p xs) ≡ (if p k then occurs k xs else 0)
unfolding occurs
occurs-keep p k [] = ground arith
occurs-keep p k (x ∷ xs) = ground (arith, occurs-keep p k xs, eq_iff x k)

every-contains :
    (ds cs : List String) (d : String)
    → every (λ e. contains e cs) ds ≡ true
    → contains d ds ≡ true
    → contains d cs ≡ true
unfolding contains
every-contains [] cs d h c = cc
every-contains (x ∷ xs) cs d h c = ground (arith, every-contains xs cs d, eq_iff x d)

pub every_of_all :
    (ds cs : List String)
    → ((d : String) → contains d ds ≡ true → contains d cs ≡ true)
    → every (λ e. contains e cs) ds ≡ true
unfolding contains
every_of_all [] cs h = refl
every_of_all (x ∷ xs) cs h =
    ground (arith, h x, eq_iff x x, every_of_all xs cs (λ d c. h d (ground arith)))

pub contains-take :
    (n : ℕ) (xs : List String) (k : String) → contains k (take n xs) ≡ true → contains k xs ≡ true
unfolding contains
contains-take zero xs k h = cc
contains-take (suc n) [] k h = h
contains-take (suc n) (x ∷ xs) k h = ground (arith, contains-take n xs k)

pub take-IsDistinct : (n : ℕ) (xs : List String) → IsDistinct xs → IsDistinct (take n xs)
take-IsDistinct zero xs d = tt
take-IsDistinct (suc n) [] d = tt
take-IsDistinct (suc n) (x ∷ xs) d =
    (ground (arith, contains-take n xs x), take-IsDistinct n xs d.1)

module _ (dag : SynthesizedDag) (deps : DepMap) (s : Schedule)
    (distinct : IsDistinct s.pending) where
  -- What is ready is pending, each node once, with all of its dependencies completed.
  ready_occurs :
      (x : String)
      → occurs x (ready_set dag deps s) ≡ (
          if every (λ d. contains d s.completed_ids) (list_of x deps)
          then occurs x s.pending
          else 0)
  unfolding ready_set
  ready_occurs x = rw (occurs-sort_by, occurs-keep)

  pub ready-IsDistinct : IsDistinct (ready_set dag deps s)
  ready-IsDistinct =
      IsDistinct-of_occurs _
        (λ x. ground (arith, ready_occurs x, occurs_of_distinct x s.pending distinct))

  pub ready-AreOpen : AreOpen (ready_set dag deps s) s
  ready-AreOpen x c =
      ground (
        arith,
        ready_occurs x,
        contains-occurs x (ready_set dag deps s),
        contains-occurs x s.pending,
      )

  ready_every :
      (x : String)
      → contains x (ready_set dag deps s) ≡ true
      → every (λ d. contains d s.completed_ids) (list_of x deps) ≡ true
  ready_every x c = ground (arith, ready_occurs x, contains-occurs x (ready_set dag deps s))

  pub ready-AllDone :
      (x : String) → contains x (ready_set dag deps s) ≡ true → AllDone (list_of x deps) s
  ready-AllDone x c d = every-contains (list_of x deps) s.completed_ids d (ready_every x c)

  pub ready_of_AllDone :
      (x : String)
      → contains x s.pending ≡ true
      → AllDone (list_of x deps) s
      → contains x (ready_set dag deps s) ≡ true
  ready_of_AllDone x c h = ground (
    arith,
    ready_occurs x,
    contains-occurs x (ready_set dag deps s),
    contains-occurs x s.pending,
    every_of_all (list_of x deps) s.completed_ids h,
  )

module _ (order : List String) (deps : DepMap) (run_node : String → NodeOutcome)
    (gateway : Bool) where
  abbrev pub AreReady : List String → Schedule → Type 0
  AreReady ids s = (x : String) → contains x ids ≡ true → AllDone (list_of x deps) s

  outcome-IsJustified :
      (s : Schedule) (id : String) (o : NodeOutcome)
      → run_node id ≡ o
      → AllDone (list_of id deps) s
      → IsJustified order deps run_node s id (some (outcome_verdict o))
  outcome-IsJustified s id (returned_completed c) e h = (rw e refl, h)
  outcome-IsJustified s id (returned_failed c) e h = (rw e refl, h)
  outcome-IsJustified s id (threw m) e h = (rw e refl, h)

  settle_all-Inv :
      (ids : List String) (s : Schedule)
      → IsDistinct ids
      → AreOpen ids s
      → AreReady ids s
      → Inv order deps run_node s
      → Inv order deps run_node (settle_all gateway run_node ids s)
        × (length (settle_all gateway run_node ids s).pending + length ids ≤ length s.pending)
  unfolding settle_all contains
  settle_all-Inv [] s d o r inv = (inv, omega arith)
  settle_all-Inv (id ∷ ids) s d o r inv =
      let a = settle-Adds gateway id s (run_node id) in
      let there = head_open order deps run_node gateway id ids s o in
      let now = r id (ground (arith, eq_iff id id)) in
      let s' = settle gateway id (run_node id) s in
      let shorter : length s'.pending < length s.pending =
        rw a.pending (length-delete-lt id s.pending there) in
      let (inv', less) =
        settle_all-Inv ids s' d.1 (AreOpen-Adds order deps run_node id ids a d o)
          (λ x c. AllDone-Adds (list_of x deps) a (r x (ground arith)))
          (Inv-Adds order deps run_node a inv there
            (outcome-IsJustified s id (run_node id) refl now)) in
      (inv', omega arith)

  -- A chunk of ready nodes keeps the invariant and settles all of its nodes.
  pub run_chunk-Inv :
      (chunk : List String) (s : Schedule)
      → IsDistinct chunk
      → AreOpen chunk s
      → AreReady chunk s
      → Inv order deps run_node s
      → Inv order deps run_node (run_chunk gateway run_node chunk s)
        × (length (run_chunk gateway run_node chunk s).pending + length chunk ≤ length s.pending)
  unfolding run_chunk
  run_chunk-Inv chunk s d o r inv =
      let s1 = record s {
        max_observed_concurrency = max s.max_observed_concurrency (length chunk);
      } in
      let s2 = route_all gateway chunk s1 in
      let s3 = record s2 { calls = s2.calls ++ chunk ∷ [] } in
      let q = route_all-Routed gateway chunk s1 in
      let same : Routed s s3 = record {
        pending = q.pending;
        results = q.results;
        completed_same = q.completed_same;
        failed_same = q.failed_same;
        skipped_same = q.skipped_same;
      } in
      let (inv', less) =
        settle_all-Inv chunk s3 d (λ x c. rw same.pending (o x c))
          (λ x c k j. rw same.completed_same (r x c k j))
          (Inv-Routed order deps run_node same inv) in
      (
        inv',
        subst (λ p. length (run_chunk gateway run_node chunk s).pending + length chunk ≤ length p)
            same.pending less,
      )
