-- ===== src/Workflow/Scheduler/Verdicts.antt =====
-- The verdicts of packages/core-v2/src/workflow/scheduler.ts: what the rounds keep true of every
-- node, whatever the width of the chunks.
use Prim.Native.String.{◌++◌ as ◌<>◌}
use mathlib.Core.Path.{subst}
use pi_task.Common.{
  ◌≤◌, ◌<◌, String, ◌≡◌, refl, Bool, true, false, not, ◌&&◌, ◌||◌, Option, none, some, ◌⊎◌, inl,
  inr, List, [], ◌∷◌, arith, Bool-cases, Option-cases, length, contains, delete, str_eq, eq_iff,
  contains-delete, IsDistinct,
}
use pi_task.Workflow.Dag.{DepMap, list_of}
use pi_task.Workflow.Scheduler.{
  NodeVerdict, completed, failed, skipped, NodeOutcome, Schedule, skip, blocker, skip_blocked,
  skip_pass,
}
use pi_task.Workflow.Scheduler.Progress.{
  verdict_of, is_completed, is_failed, is_skipped, outcome_verdict, Adds, skip-Adds, Routed,
  length-delete-lt,
}

abbrev pub is_known {ℓ} : {A : Type ℓ} → Option A → Bool
is_known none = false
is_known (some _) = true

abbrev pub AllDone : List String → Schedule → Type 0
AllDone deps s = (d : String) → contains d deps ≡ true → contains d s.completed_ids ≡ true

abbrev pub IsBlocked : List String → Schedule → Type 0
IsBlocked deps s =
    (d : String) × (contains d deps ≡ true)
    × ((contains d s.failed_ids || contains d s.skipped_ids) ≡ true)

pub delete-IsDistinct : (k : String) (xs : List String) → IsDistinct xs → IsDistinct (delete k xs)
unfolding delete
delete-IsDistinct k [] d = tt
delete-IsDistinct k (x ∷ xs) d = elim (Bool-cases (str_eq x k)) [
  | inl e ↦ rw e (delete-IsDistinct k xs d.1)
  | inr e ↦ rw e (ground (arith, contains-delete k x xs, d.0), delete-IsDistinct k xs d.1)
]

-- The nodes of `ids`, each once, are all pending.
abbrev pub AreOpen : List String → Schedule → Type 0
AreOpen ids s = (x : String) → contains x ids ≡ true → contains x s.pending ≡ true

pub AllDone-Adds :
    {v : NodeVerdict} {id : String} {s s' : Schedule} (ds : List String)
    → Adds v id s s'
    → AllDone ds s
    → AllDone ds s'
AllDone-Adds ds a h d c = ground (arith, h d c, a.completions d)

module _ (order : List String) (deps : DepMap) (run_node : String → NodeOutcome) where
  -- Why a node has the verdict that it has.
  abbrev pub IsJustified : Schedule → String → Option NodeVerdict → Type 0
  IsJustified s x none = Unit
  IsJustified s x (some skipped) = IsBlocked (list_of x deps) s
  IsJustified s x (some v) = (v ≡ outcome_verdict (run_node x)) × AllDone (list_of x deps) s

  pub record Inv (s : Schedule) : Type 0 where
    pub distinct : IsDistinct s.pending
    pub waiting :
        (x : String) → contains x s.pending ≡ (contains x order && not (is_known (verdict_of s x)))
    pub inside : (x : String) → is_known (verdict_of s x) ≡ true → contains x order ≡ true
    pub completions : (x : String) → contains x s.completed_ids ≡ is_completed (verdict_of s x)
    pub failures : (x : String) → contains x s.failed_ids ≡ is_failed (verdict_of s x)
    pub skips : (x : String) → contains x s.skipped_ids ≡ is_skipped (verdict_of s x)
    pub justified : (x : String) → IsJustified s x (verdict_of s x)

  module _ {v : NodeVerdict} {id : String} {s s' : Schedule} (a : Adds v id s s') (inv : Inv s)
      (there : contains id s.pending ≡ true) where
    IsBlocked-Adds : (ds : List String) → IsBlocked ds s → IsBlocked ds s'
    IsBlocked-Adds ds (d, c, h) = (d, c, ground (arith, a.failures d, a.skips d))

    IsJustified-Adds :
        (x : String) (w : Option NodeVerdict) → IsJustified s x w → IsJustified s' x w
    IsJustified-Adds x none j = tt
    IsJustified-Adds x (some skipped) j = IsBlocked-Adds (list_of x deps) j
    IsJustified-Adds x (some completed) j = (j.0, AllDone-Adds (list_of x deps) a j.1)
    IsJustified-Adds x (some failed) j = (j.0, AllDone-Adds (list_of x deps) a j.1)

    fresh : verdict_of s id ≡ none
    fresh = ground (arith, inv.waiting id)

    pub Inv-Adds : IsJustified s id (some v) → Inv s'
    Inv-Adds j = record {
      distinct = rw a.pending (delete-IsDistinct id s.pending inv.distinct);
      waiting = λ x.
          rw a.pending
            (ground (arith, contains-delete id x s.pending, inv.waiting x, a.verdicts x));
      inside = λ x h. ground (arith, inv.inside x, a.verdicts x, inv.waiting id, eq_iff id x);
      completions =
          λ x. ground (arith, inv.completions x, a.completions x, a.verdicts x, fresh, eq_iff id x);
      failures =
          λ x. ground (arith, inv.failures x, a.failures x, a.verdicts x, fresh, eq_iff id x);
      skips = λ x. ground (arith, inv.skips x, a.skips x, a.verdicts x, fresh, eq_iff id x);
      justified = λ x. elim (Bool-cases (str_eq id x)) [
        | inl e ↦
            rw (a.verdicts x, e)
              (IsJustified-Adds x (some v)
                (subst (λ y. IsJustified s y (some v)) ((eq_iff id x).0 e) j))
        | inr e ↦ rw (a.verdicts x, e) (IsJustified-Adds x (verdict_of s x) (inv.justified x))
      ];
    }

  module _ {s s' : Schedule} (r : Routed s s') where
    IsJustified-Routed :
        (x : String) (w : Option NodeVerdict) → IsJustified s x w → IsJustified s' x w
    IsJustified-Routed x none j = tt
    IsJustified-Routed x (some skipped) (d, c, b) = (d, c, rw (r.failed_same, r.skipped_same) b)
    IsJustified-Routed x (some completed) j = (j.0, λ d c. rw r.completed_same (j.1 d c))
    IsJustified-Routed x (some failed) j = (j.0, λ d c. rw r.completed_same (j.1 d c))

    pub Inv-Routed : Inv s → Inv s'
    Inv-Routed inv = record {
      distinct = rw r.pending inv.distinct;
      waiting = λ x. rw (r.pending, r.results) (inv.waiting x);
      inside = λ x. rw r.results (inv.inside x);
      completions = λ x. rw (r.completed_same, r.results) (inv.completions x);
      failures = λ x. rw (r.failed_same, r.results) (inv.failures x);
      skips = λ x. rw (r.skipped_same, r.results) (inv.skips x);
      justified = λ x. rw r.results (IsJustified-Routed x (verdict_of s x) (inv.justified x));
    }

  blocker-IsBlocked :
      (s : Schedule) (ds : List String) {d : String} → blocker s ds ≡ some d → IsBlocked ds s
  unfolding blocker contains
  blocker-IsBlocked s [] h = cc
  blocker-IsBlocked s (x ∷ xs) {d} h =
      elim (Bool-cases (contains x s.failed_ids || contains x s.skipped_ids)) [
        | inl e ↦ (x, ground (arith, eq_iff x x), e)
        | inr e ↦ let (y, c, b) = blocker-IsBlocked s xs {d = d} (rw e at h) in (y, ground arith, b)
      ]

  pub AreOpen-Adds :
      {v : NodeVerdict} {s s' : Schedule} (id : String) (ids : List String)
      → Adds v id s s'
      → IsDistinct (id ∷ ids)
      → AreOpen (id ∷ ids) s
      → AreOpen ids s'
  unfolding contains
  AreOpen-Adds {s = s} id ids a d o x c =
      rw a.pending (ground (arith, contains-delete id x s.pending, o x, eq_iff id x))

  module _ (gateway : Bool) where
    -- A pending node is left as it is, or skipped for a dependency that will not complete.
    pub skip_blocked-cases :
        (id : String) (s : Schedule) (b : Bool)
        → (skip_blocked gateway deps id (s, b) ≡ (s, b)) × (blocker s (list_of id deps) ≡ none)
          ⊎ ((cause : String) × (skip_blocked gateway deps id (s, b)
                ≡ (skip gateway id cause s, true))
              × IsBlocked (list_of id deps) s)
    unfolding skip_blocked
    skip_blocked-cases id s b = elim (Option-cases (blocker s (list_of id deps))) [
      | inl e ↦ inl (rw (e, skip_blocked), e)
      | inr (y, e) ↦ inr (
        "skipped: dependency \"" <> (y <> "\" failed"),
        rw (e, skip_blocked),
        blocker-IsBlocked s (list_of id deps) e,
      )
    ]

    pub AreOpen-tail :
        (id : String) (ids : List String) (s : Schedule) → AreOpen (id ∷ ids) s → AreOpen ids s
    unfolding contains
    AreOpen-tail id ids s o x c = o x (ground arith)

    pub head_open :
        (id : String) (ids : List String) (s : Schedule)
        → AreOpen (id ∷ ids) s
        → contains id s.pending ≡ true
    unfolding contains
    head_open id ids s o = o id (ground (arith, eq_iff id id))

    pub skip_pass-Inv :
        (ids : List String) (s : Schedule) (b : Bool)
        → IsDistinct ids
        → AreOpen ids s
        → Inv s
        → Inv (skip_pass gateway deps ids (s, b)).0
    unfolding skip_pass
    skip_pass-Inv [] s b d o inv = inv
    skip_pass-Inv (id ∷ ids) s b d o inv = elim (skip_blocked-cases id s b) [
      | inl (e, _) ↦ rw (e, skip_pass) (skip_pass-Inv ids s b d.1 (AreOpen-tail id ids s o) inv)
      | inr (cause, e, blocked) ↦
          let a = skip-Adds gateway id s cause in
          rw (e, skip_pass)
            (skip_pass-Inv ids (skip gateway id cause s) true d.1 (AreOpen-Adds id ids a d o)
              (Inv-Adds a inv (head_open id ids s o) blocked))
    ]

    -- A pass that skips something leaves fewer nodes pending; one that does not changes nothing, and
    -- then no node of the snapshot has a dependency that will not complete.
    pub skip_pass-size :
        (ids : List String) (s : Schedule) (b : Bool)
        → IsDistinct ids
        → AreOpen ids s
        → (length (skip_pass gateway deps ids (s, b)).0.pending ≤ length s.pending)
          × ((skip_pass gateway deps ids (s, b)).1 ≡ true
              → b ≡ false
              → length (skip_pass gateway deps ids (s, b)).0.pending < length s.pending)
          × (b ≡ true → (skip_pass gateway deps ids (s, b)).1 ≡ true)
    unfolding skip_pass
    skip_pass-size [] s b d o = ground arith
    skip_pass-size (id ∷ ids) s b d o = elim (skip_blocked-cases id s b) [
      | inl (e, _) ↦ rw (e, skip_pass) (skip_pass-size ids s b d.1 (AreOpen-tail id ids s o))
      | inr (cause, e, _) ↦
          let a = skip-Adds gateway id s cause in
          let (le, _, stays) =
            skip_pass-size ids (skip gateway id cause s) true d.1 (AreOpen-Adds id ids a d o) in
          let shorter = length-delete-lt id s.pending (head_open id ids s o) in
          let smaller : length (skip gateway id cause s).pending < length s.pending =
            rw a.pending shorter in
          rw (e, skip_pass) (omega arith, λ _ _. omega arith, λ _. stays refl)
    ]

    pub skip_pass_idle :
        (ids : List String) (s : Schedule)
        → IsDistinct ids
        → AreOpen ids s
        → (skip_pass gateway deps ids (s, false)).1 ≡ false
        → (skip_pass gateway deps ids (s, false) ≡ (s, false))
          × ((x : String) → contains x ids ≡ true → blocker s (list_of x deps) ≡ none)
    unfolding skip_pass contains
    skip_pass_idle [] s d o h = (refl, λ x c. cc)
    skip_pass_idle (id ∷ ids) s d o h = elim (skip_blocked-cases id s false) [
      | inl (e, none_blocks) ↦
          let (same, idle) =
            skip_pass_idle ids s d.1 (AreOpen-tail id ids s o) (rw (e, skip_pass) at h) in
          (
            rw (e, skip_pass) same,
            λ x c. elim (Bool-cases (str_eq id x)) [
              | inl q ↦
                  subst (λ y. blocker s (list_of y deps) ≡ none) ((eq_iff id x).0 q) none_blocks
              | inr q ↦ idle x (rw q at c)
            ],
          )
      | inr (cause, e, _) ↦
          let a = skip-Adds gateway id s cause in
          let (_, _, stays) =
            skip_pass-size ids (skip gateway id cause s) true d.1 (AreOpen-Adds id ids a d o) in
          cc (stays refl, rw (e, skip_pass) at h)
    ]
