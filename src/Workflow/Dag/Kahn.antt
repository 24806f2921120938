-- ===== src/Workflow/Dag/Kahn.antt =====
-- The queue loop of `synthesizeDag` of packages/core-v2/src/workflow/dag.ts, for dependencies given
-- as a function of the node.
use mathlib.Core.List.{append-nil, append_assoc}
use pi_task.Common.{
  ℕ, zero, suc, ◌+◌, ◌-◌, ◌≤◌, ◌<◌, String, ◌≡◌, refl, sym, ◌∙◌, ap, Bool, true, false, ◌&&◌, List,
  [], ◌∷◌, ◌++◌, arith, ltb, leb, ◌==◌, if◌then◌else◌, length, length-append, put, contains, eq_iff,
  IsDistinct, lookup-put, contains-snoc, occurs, occurs-append, contains-occurs, occurs_of_distinct,
  length-le_of_occurs,
}
use pi_task.Workflow.Dag.{DepMap, Waiting, list_of, count_of, release, drain}

-- How many of the dependencies are not in `order`.
abbrev pub missing : List String → List String → ℕ
missing order [] = 0
missing order (d ∷ ds) = let rest = missing order ds in if contains d order then rest else suc rest

missing-nil : (ds : List String) → missing [] ds ≡ length ds
unfolding contains
missing-nil [] = refl
missing-nil (d ∷ ds) = ap suc (missing-nil ds)

missing-zero_of_all :
    (order ds : List String)
    → ((d : String) → contains d ds ≡ true → contains d order ≡ true)
    → missing order ds ≡ 0
unfolding contains
missing-zero_of_all order [] h = refl
missing-zero_of_all order (x ∷ xs) h =
    ground (arith, h x, eq_iff x x, missing-zero_of_all order xs (λ d c. h d (ground arith)))

missing-snoc :
    (id : String) (order ds : List String)
    → contains id order ≡ false
    → missing order ds ≡ missing (order ++ id ∷ []) ds + occurs id ds
unfolding occurs
missing-snoc id order [] h = omega arith
missing-snoc id order (d ∷ ds) h =
    ground (arith, missing-snoc id order ds, contains-snoc id d order, eq_iff id d, eq_iff d id)

pub missing-zero :
    (order ds : List String) (d : String)
    → missing order ds ≡ 0
    → contains d ds ≡ true
    → contains d order ≡ true
unfolding contains
missing-zero order [] d e c = cc
missing-zero order (x ∷ xs) d e c = ground (arith, missing-zero order xs d, eq_iff x d)

release-counts :
    (dependents : List String) (w : Waiting) (x : String)
    → count_of 1 x (release dependents w).counts ≡ count_of 1 x w.counts - occurs x dependents
unfolding release occurs
release-counts [] w x = omega arith
release-counts (y ∷ ys) w x =
    let count = count_of 1 y w.counts in
    ground (
      arith,
      lookup-put y x (count - 1) w.counts,
      eq_iff y x,
      release-counts ys
          (record {
            counts = put y (count - 1) w.counts;
            queue = if count == 1 then w.queue ++ y ∷ [] else w.queue;
          })
          x,
    )

-- A dependent is queued when its count falls to nothing, and only then.
release-queue :
    (dependents : List String) (w : Waiting) (x : String)
    → occurs x (release dependents w).queue
      ≡ occurs x w.queue
        + (if ltb 0 (count_of 1 x w.counts) && leb (count_of 1 x w.counts) (occurs x dependents)
            then 1
            else 0)
unfolding release occurs
release-queue [] w x = ground arith
release-queue (y ∷ ys) w x =
    let count = count_of 1 y w.counts in
    ground (
      arith,
      lookup-put y x (count - 1) w.counts,
      eq_iff y x,
      occurs-append x w.queue (y ∷ []),
      release-queue ys
          (record {
            counts = put y (count - 1) w.counts;
            queue = if count == 1 then w.queue ++ y ∷ [] else w.queue;
          })
          x,
    )

-- Every dependency of a node of the list is in `seen` or stands before it in the list.
abbrev pub IsOrderedFrom : (String → List String) → List String → List String → Type 0
IsOrderedFrom dep seen [] = Unit
IsOrderedFrom dep seen (x ∷ xs) =
    ((d : String) → contains d (dep x) ≡ true → contains d seen ≡ true)
    × IsOrderedFrom dep (seen ++ x ∷ []) xs

IsOrderedFrom-snoc :
    (dep : String → List String) (seen xs : List String) (y : String)
    → IsOrderedFrom dep seen xs
    → ((d : String) → contains d (dep y) ≡ true → contains d (seen ++ xs) ≡ true)
    → IsOrderedFrom dep seen (xs ++ y ∷ [])
IsOrderedFrom-snoc dep seen [] y o h = (rw append-nil at h, tt)
IsOrderedFrom-snoc dep seen (x ∷ xs) y o h =
    (o.0, IsOrderedFrom-snoc dep (seen ++ x ∷ []) xs y o.1 (rw append_assoc h))

abbrev pub one_if : Bool → ℕ
one_if b = if b then 1 else 0

-- Nothing of a node of `ids` is left to wait for.
abbrev pub is_free : List String → (String → List String) → List String → String → Bool
is_free ids dep order x = contains x ids && (missing order (dep x) == 0)

record Inv (ids : List String) (dep : String → List String) (counts : List (String × ℕ))
    (queue order : List String) : Type 0 where
  counted : (x : String) → contains x ids ≡ true → count_of 1 x counts ≡ missing order (dep x)
  placed : (x : String) → occurs x (order ++ queue) ≡ one_if (is_free ids dep order x)
  sorted : IsOrderedFrom dep [] order

-- What the loop ends with.
pub record Done (ids : List String) (dep : String → List String) (order : List String)
    : Type 0 where
  pub placed : (x : String) → occurs x order ≡ one_if (is_free ids dep order x)
  pub sorted : IsOrderedFrom dep [] order

module _ (ids : List String) (dep : String → List String) (dependents : DepMap)
    (distinct : IsDistinct ids) (outside : (x : String) → contains x ids ≡ false → dep x ≡ [])
    (edges : (x d : String) → occurs x (list_of d dependents) ≡ occurs d (dep x)) where
  module _ {counts : List (String × ℕ)} {id : String} {queue order : List String}
      (inv : Inv ids dep counts (id ∷ queue) order) where
    new_id : contains id order ≡ false
    unfolding occurs
    new_id = ground (
      arith,
      inv.placed id,
      occurs-append id order (id ∷ queue),
      contains-occurs id order,
      eq_iff id id,
    )

    free_id : missing order (dep id) ≡ 0
    unfolding occurs
    free_id = ground (arith, inv.placed id, occurs-append id order (id ∷ queue), eq_iff id id)

    abbrev released : Waiting
    released = release (list_of id dependents) (record { counts = counts; queue = queue })

    dep_outside : (x : String) → contains x ids ≡ false → occurs id (dep x) ≡ 0
    unfolding occurs
    dep_outside x h = rw (outside x h)

    step_counted :
        (x : String)
        → contains x ids ≡ true
        → count_of 1 x released.counts ≡ missing (order ++ id ∷ []) (dep x)
    step_counted x h = omega (
      arith,
      release-counts (list_of id dependents) (record { counts = counts; queue = queue }) x,
      missing-snoc id order (dep x) new_id,
      edges x id,
      inv.counted x h,
    )

    step_placed :
        (x : String)
        → occurs x ((order ++ id ∷ []) ++ released.queue)
          ≡ one_if (is_free ids dep (order ++ id ∷ []) x)
    unfolding occurs
    step_placed x = ground (
      arith,
      release-queue (list_of id dependents) (record { counts = counts; queue = queue }) x,
      missing-snoc id order (dep x) new_id,
      edges x id,
      inv.counted x,
      inv.placed x,
      dep_outside x,
      occurs-append x (order ++ id ∷ []) released.queue,
      occurs-append x order (id ∷ []),
      occurs-append x order (id ∷ queue),
    )

    step-Inv : Inv ids dep released.counts released.queue (order ++ id ∷ [])
    step-Inv = record {
      counted = step_counted;
      placed = step_placed;
      sorted =
          IsOrderedFrom-snoc dep [] order id inv.sorted
            (λ d. missing-zero order (dep id) d free_id);
    }

  length-order-le :
      {counts : List (String × ℕ)} (queue order : List String)
      → Inv ids dep counts queue order
      → length order + length queue ≤ length ids
  length-order-le queue order inv = omega (
    arith,
    length-append order queue,
    length-le_of_occurs (order ++ queue) ids
        (λ x. ground (arith, inv.placed x, occurs_of_distinct x ids distinct)),
  )

  -- With fuel for more nodes than there are the loop ends by its test.
  drain-Done :
      (fuel : ℕ) (counts : List (String × ℕ)) (queue order : List String)
      → length ids < fuel + length order
      → Inv ids dep counts queue order
      → Done ids dep (drain fuel dependents counts queue order)
  unfolding drain
  drain-Done zero counts queue order h inv = absurd (omega (arith, length-order-le queue order inv))
  drain-Done (suc fuel) counts [] order h inv = record {
    placed = rw append-nil at inv.placed;
    sorted = inv.sorted;
  }
  drain-Done (suc fuel) counts (id ∷ queue) order h inv =
      drain-Done fuel (released inv).counts (released inv).queue (order ++ id ∷ [])
        (omega (arith, length-append order (id ∷ []))) (step-Inv inv)

  Inv-start :
      (counts : List (String × ℕ)) (queue : List String)
      → ((x : String) → contains x ids ≡ true → count_of 1 x counts ≡ length (dep x))
      → ((x : String) → occurs x queue ≡ one_if (contains x ids && (length (dep x) == 0)))
      → Inv ids dep counts queue []
  Inv-start counts queue c q = record {
    counted = λ x h. c x h ∙ sym (missing-nil (dep x));
    placed = λ x. rw (missing-nil (dep x)) (q x);
    sorted = tt;
  }

  pub drain_all :
      (fuel : ℕ) (counts : List (String × ℕ)) (queue : List String)
      → length ids < fuel
      → ((x : String) → contains x ids ≡ true → count_of 1 x counts ≡ length (dep x))
      → ((x : String) → occurs x queue ≡ one_if (contains x ids && (length (dep x) == 0)))
      → Done ids dep (drain fuel dependents counts queue [])
  drain_all fuel counts queue h c q =
      drain-Done fuel counts queue [] (omega arith) (Inv-start counts queue c q)

  -- If the dependencies descend by some rank and stay within `ids`, every node is placed.
  pub all_placed :
      (rank : String → ℕ) (order : List String)
      → ((x d : String) → contains d (dep x) ≡ true → (rank d < rank x) × (contains d ids ≡ true))
      → Done ids dep order
      → (n : ℕ) (x : String) → rank x < n
      → contains x ids ≡ true
      → contains x order ≡ true
  all_placed rank order down done zero x lt known = absurd (omega arith)
  all_placed rank order down done (suc n) x lt known =
      let free : missing order (dep x) ≡ 0 = missing-zero_of_all order (dep x) (λ d c.
        let (less, inside) = down x d c in
        all_placed rank order down done n d (omega arith) inside) in
      ground (arith, done.placed x, contains-occurs x order)
