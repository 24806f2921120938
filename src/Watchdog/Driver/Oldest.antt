-- ===== src/Watchdog/Driver/Oldest.antt =====
-- The tools in flight of packages/core-v2/src/guards/watchdog-driver.ts stand in the order of their
-- starts, so that the first is the oldest.
use pi_task.Common.{
  ℕ, ◌≤◌, String, ◌≡◌, inl, inr, some, List, [], ◌∷◌, ◌++◌, arith, lookup, remove, Bool-cases,
  str_eq,
}
use pi_task.Watchdog.Driver.{InFlightTool}

-- The tools in flight started at `lo` or later, one after the other, and at `hi` at the latest.
abbrev pub AreBetween : ℕ → ℕ → List (String × InFlightTool) → Type 0
AreBetween lo hi [] = lo ≤ hi
AreBetween lo hi ((id, t) ∷ ts) = (lo ≤ t.started_at_ms) × AreBetween t.started_at_ms hi ts

pub AreBetween-le : (lo hi : ℕ) (ts : List (String × InFlightTool)) → AreBetween lo hi ts → lo ≤ hi
AreBetween-le lo hi [] h = h
AreBetween-le lo hi ((id, t) ∷ ts) h = omega (arith, AreBetween-le t.started_at_ms hi ts h.1)

pub AreBetween-weaken :
    (lo hi lo' : ℕ) (ts : List (String × InFlightTool))
    → lo' ≤ lo
    → AreBetween lo hi ts
    → AreBetween lo' hi ts
AreBetween-weaken lo hi lo' [] h b = omega arith
AreBetween-weaken lo hi lo' ((id, t) ∷ ts) h b = (omega arith, b.1)

pub AreBetween-later :
    (lo hi now : ℕ) (ts : List (String × InFlightTool))
    → hi ≤ now
    → AreBetween lo hi ts
    → AreBetween lo now ts
AreBetween-later lo hi now [] h b = omega arith
AreBetween-later lo hi now ((id, t) ∷ ts) h b =
    (b.0, AreBetween-later t.started_at_ms hi now ts h b.1)

pub AreBetween-snoc :
    (lo now : ℕ) (ts : List (String × InFlightTool)) (id name : String)
    → AreBetween lo now ts
    → AreBetween lo now (ts ++ (id, record { tool_name = name; started_at_ms = now }) ∷ [])
AreBetween-snoc lo now [] id name b = (b, omega arith)
AreBetween-snoc lo now ((i, t) ∷ ts) id name b =
    (b.0, AreBetween-snoc t.started_at_ms now ts id name b.1)

pub AreBetween-remove :
    (lo hi : ℕ) (k : String) (ts : List (String × InFlightTool))
    → AreBetween lo hi ts
    → AreBetween lo hi (remove k ts)
unfolding remove
AreBetween-remove lo hi k [] b = b
AreBetween-remove lo hi k ((i, t) ∷ ts) b = elim (Bool-cases (str_eq i k)) [
  | inl e ↦ rw e (
      AreBetween-weaken t.started_at_ms hi lo (remove k ts) b.0
        (AreBetween-remove t.started_at_ms hi k ts b.1))
  | inr e ↦ rw e (b.0, AreBetween-remove t.started_at_ms hi k ts b.1)
]

-- Every tool in flight started no earlier than the lower end.
pub lookup-between :
    (lo hi : ℕ) (k : String) (ts : List (String × InFlightTool)) {tool : InFlightTool}
    → AreBetween lo hi ts
    → lookup k ts ≡ some tool
    → lo ≤ tool.started_at_ms
unfolding lookup
lookup-between lo hi k [] b e = cc
lookup-between lo hi k ((i, t) ∷ ts) {tool} b e = elim (Bool-cases (str_eq i k)) [
  | inl h ↦ ground (arith, h)
  | inr h ↦
      let r = lookup-between t.started_at_ms hi k ts {tool = tool} b.1 (rw h at e) in omega arith
]
