-- ===== src/Jobs/Due.antt =====
-- What a run of extensions/task/scheduler.ts dispatches, and what is due after it.
use mathlib.Core.Path.{subst}
use mathlib.Core.Option.{some-injective}
use pi_task.Common.{
  ℕ, ◌+◌, String, ◌≡◌, refl, sym, ◌∙◌, ap, Bool, true, false, ◌&&◌, ◌||◌, Option, some, List, [],
  ◌∷◌, ◌++◌, arith, leb, ◌==◌, str_eq, eq_iff, if◌then◌else◌, Bool-cases, inl, inr, length,
  contains, contains-append, keys, IsDistinct, lookup, lookup-put,
}
use pi_task.Jobs.{
  JobConfig, SchedulerState, Jobs, last_run, is_due, due_jobs, DispatchResult, started, threw,
  Dispatched, RunOnce, record_dispatch, dispatch_all, run_due, run_once,
}

abbrev pub has_started : DispatchResult → Bool
has_started (started _ _) = true
has_started (threw _) = false

-- The names of the jobs that a run dispatched.
abbrev pub names : List Dispatched → List String
names [] = []
names (d ∷ ds) = d.name ∷ names ds

names-append : (ds es : List Dispatched) → names (ds ++ es) ≡ names ds ++ names es
names-append [] es = refl
names-append (d ∷ ds) es = ap (λ ns. d.name ∷ ns) (names-append ds es)

nonempty : {A : Type 0} (x : A) (xs : List A) → (false || length (x ∷ xs) == 0) ≡ false
nonempty x xs = ground arith

module _ (dispatch : String → JobConfig → DispatchResult) (now_ms : ℕ) where
  -- Whether a job is among those that are due and its dispatch starts.
  abbrev starts : Jobs → String → Bool
  starts [] x = false
  starts ((name, job) ∷ jobs) x = str_eq name x && has_started (dispatch name job) || starts jobs x

  record_dispatch-last_run :
      (name x : String) (job : JobConfig) (o : DispatchResult) (r : RunOnce)
      → last_run (record_dispatch now_ms name job o r).state x
        ≡ (if str_eq name x && has_started o then some now_ms else last_run r.state x)
  unfolding record_dispatch
  record_dispatch-last_run name x job (started lane id) r =
      ground (arith, lookup-put name x (record { last_run_ms = now_ms; run_id = some id }) r.state)
  record_dispatch-last_run name x job (threw message) r = ground arith

  record_dispatch-names :
      (name x : String) (job : JobConfig) (o : DispatchResult) (r : RunOnce)
      → contains x (names (record_dispatch now_ms name job o r).dispatched)
        ≡ (contains x (names r.dispatched) || str_eq name x && has_started o)
  unfolding record_dispatch contains
  record_dispatch-names name x job (started lane id) r =
      ap (contains x) (names-append r.dispatched _)
      ∙ contains-append x (names r.dispatched) (name ∷ [])
      ∙ ground arith
  record_dispatch-names name x job (threw message) r = ground arith

  dispatch_all-last_run :
      (due : Jobs) (x : String) (r : RunOnce)
      → last_run (dispatch_all dispatch now_ms due r).state x
        ≡ (if starts due x then some now_ms else last_run r.state x)
  unfolding dispatch_all
  dispatch_all-last_run [] x r = refl
  dispatch_all-last_run ((name, job) ∷ due) x r =
      dispatch_all-last_run due x _
      ∙ ground (arith, record_dispatch-last_run name x job (dispatch name job) r)

  dispatch_all-names :
      (due : Jobs) (x : String) (r : RunOnce)
      → contains x (names (dispatch_all dispatch now_ms due r).dispatched)
        ≡ (contains x (names r.dispatched) || starts due x)
  unfolding dispatch_all
  dispatch_all-names [] x r = ground arith
  dispatch_all-names ((name, job) ∷ due) x r =
      dispatch_all-names due x _
      ∙ ground (arith, record_dispatch-names name x job (dispatch name job) r)

  starts-absent :
      (jobs : Jobs) (state : SchedulerState) (x : String)
      → contains x (keys jobs) ≡ false
      → starts (due_jobs jobs state now_ms) x ≡ false
  unfolding due_jobs contains
  starts-absent [] state x h = refl
  starts-absent ((name, job) ∷ jobs) state x h = ground (arith, starts-absent jobs state x)

  starts-head :
      (jobs : Jobs) (state : SchedulerState) (x : String) (job : JobConfig)
      → contains x (keys jobs) ≡ false
      → starts (due_jobs ((x, job) ∷ jobs) state now_ms) x
        ≡ (is_due job (last_run state x) now_ms && has_started (dispatch x job))
  unfolding due_jobs
  starts-head jobs state x job h = ground (arith, starts-absent jobs state x h, eq_iff x x)

  starts-due :
      (jobs : Jobs) (state : SchedulerState) (x : String) (job : JobConfig)
      → IsDistinct (keys jobs)
      → lookup x jobs ≡ some job
      → starts (due_jobs jobs state now_ms) x
        ≡ (is_due job (last_run state x) now_ms && has_started (dispatch x job))
  unfolding due_jobs lookup contains
  starts-due [] state x job d e = cc
  starts-due ((name, j) ∷ jobs) state x job d e = elim (Bool-cases (str_eq name x)) [
    | inl q ↦
        subst
          (λ n.
            contains n (keys jobs) ≡ false
            → starts (due_jobs ((n, j) ∷ jobs) state now_ms) x
              ≡ (is_due job (last_run state x) now_ms && has_started (dispatch x job)))
          (sym ((eq_iff name x).0 q))
          (subst
            (λ k.
              contains x (keys jobs) ≡ false
              → starts (due_jobs ((x, j) ∷ jobs) state now_ms) x
                ≡ (is_due k (last_run state x) now_ms && has_started (dispatch x k)))
            (some-injective j job (rw q at e)) (starts-head jobs state x j))
          d.0
    | inr q ↦ ground (arith, starts-due jobs state x job d.1 (rw q at e))
  ]

  run_once-last_run :
      (jobs : Jobs) (state : SchedulerState) (x : String)
      → last_run (run_once dispatch jobs state now_ms false).state x
        ≡ (if starts (due_jobs jobs state now_ms) x then some now_ms else last_run state x)
  unfolding run_once run_due
  run_once-last_run jobs state x = by_due (due_jobs jobs state now_ms)
    where
      by_due :
          (due : Jobs)
          → last_run (run_due dispatch jobs state now_ms (false || length due == 0) due).state x
            ≡ (if starts due x then some now_ms else last_run state x)
      by_due [] = refl
      by_due (d ∷ ds) = rw (nonempty d ds) (dispatch_all-last_run (d ∷ ds) x _)

  run_once-names :
      (jobs : Jobs) (state : SchedulerState) (x : String)
      → contains x (names (run_once dispatch jobs state now_ms false).dispatched)
        ≡ starts (due_jobs jobs state now_ms) x
  unfolding run_once run_due contains
  run_once-names jobs state x = by_due (due_jobs jobs state now_ms)
    where
      by_due :
          (due : Jobs)
          → contains x
              (names (run_due dispatch jobs state now_ms (false || length due == 0) due).dispatched)
            ≡ starts due x
      by_due [] = refl
      by_due (d ∷ ds) = rw (nonempty d ds) (dispatch_all-names (d ∷ ds) x _)

-- A run that is not dry dispatches a configured job exactly if it was due and its dispatch started,
-- and at any later look the job is due exactly if its interval has passed since this run when it was
-- dispatched, and exactly as it would have been without the run when it was not.
pub run_once_then_due :
    (dispatch : String → JobConfig → DispatchResult) (jobs : Jobs) (state : SchedulerState)
    (now_ms later_ms : ℕ) (name : String) (job : JobConfig)
    → IsDistinct (keys jobs)
    → lookup name jobs ≡ some job
    → let r = run_once dispatch jobs state now_ms false in
      (contains name (names r.dispatched)
        ≡ (is_due job (last_run state name) now_ms && has_started (dispatch name job)))
      × (is_due job (last_run r.state name) later_ms ≡ (
          if contains name (names r.dispatched)
          then leb (now_ms + job.every_ms) later_ms
          else is_due job (last_run state name) later_ms))
unfolding is_due
run_once_then_due dispatch jobs state now_ms later_ms name job d e =
    let listed = run_once-names dispatch now_ms jobs state name in
    let ran = run_once-last_run dispatch now_ms jobs state name in
    (
      listed ∙ starts-due dispatch now_ms jobs state name job d e,
      by_start (contains name (names (run_once dispatch jobs state now_ms false).dispatched)) _
          (ran ∙ ap (λ b. if b then some now_ms else last_run state name) (sym listed)),
    )
  where
    by_start :
        (b : Bool) (last : Option ℕ)
        → last ≡ (if b then some now_ms else last_run state name)
        → is_due job last later_ms ≡ (
            if b
            then leb (now_ms + job.every_ms) later_ms
            else is_due job (last_run state name) later_ms)
    by_start true last q = rw q refl
    by_start false last q = rw q refl
