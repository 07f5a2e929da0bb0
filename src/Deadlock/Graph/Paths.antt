-- ===== src/Deadlock/Graph/Paths.antt =====
-- Paths in the wait-for graph, and what adding or removing an edge does to them.
use rsactor.Base.{ℕ, ◌+◌, ◌-◌, ◌<◌, ◌≡◌, subst, ◌⊎◌, inl, inr, [], ◌∷◌, ◌==◌, if◌then◌else◌, arith}
use rsactor.Identity.{Identity}
use rsactor.Deadlock.Graph.{Graph, callees, push_edge, remove_edge, count, IsMap}
use rsactor.Deadlock.Graph.Laws.{
  count-append, callees-push_edge, callees-remove_edge, count-remove_callee,
}

-- `u` waits on `v`.
abbrev pub Edge : Graph → ℕ → ℕ → Type 0
Edge g u v = 0 < count v (callees g u)

-- There is a directed path of zero or more edges.
pub data Reach (g : Graph) (u : ℕ) : ℕ → Type 0 where
  here : Reach g u u
  step : {v w : ℕ} → Reach g u v → Edge g v w → Reach g u w

pub Reach-trans : {g : Graph} {u v w : ℕ} → Reach g u v → Reach g v w → Reach g u w
Reach-trans p here = p
Reach-trans p (step q e) = step (Reach-trans p q) e

-- No actor waits, through any chain of asks, on itself.
abbrev pub IsAcyclic : Graph → Type 0
IsAcyclic g = (u v : ℕ) → Edge g u v → ¬ Reach g v u

pub count-push_edge :
    (g : Graph) (k : ℕ) (c : Identity) (u v : ℕ)
    → count v (callees (push_edge g k c) u)
      ≡ (if k == u then (if c.id == v then 1 else 0) else 0) + count v (callees g u)
unfolding count
count-push_edge g k c u v =
    rw (callees-push_edge g k c u) (ground (arith, count-append v (callees g u) (c ∷ [])))

pub count-remove_edge :
    (g : Graph) (k c u v : ℕ)
    → IsMap g
    → count v (callees (remove_edge g k c) u) ≡ (
        if k == u
        then (if c == v then count v (callees g u) - 1 else count v (callees g u))
        else count v (callees g u))
count-remove_edge g k c u v m =
    rw (callees-remove_edge g k c u m) (ground (arith, count-remove_callee v c (callees g u)))

Edge-push_edge :
    (g : Graph) (k : ℕ) (c : Identity) (u v : ℕ)
    → Edge (push_edge g k c) u v
    → Edge g u v ⊎ ((k ≡ u) × (c.id ≡ v))
Edge-push_edge g k c u v e = ground (arith, count-push_edge g k c u v)

-- A path over the new edge passes from its source, and goes on from its target.
Reach-push_edge :
    (g : Graph) (k : ℕ) (c : Identity) {u v : ℕ}
    → Reach (push_edge g k c) u v
    → Reach g u v ⊎ (Reach g u k × Reach g c.id v)
Reach-push_edge g k c here = inl here
Reach-push_edge g k c {v} (step {v = x} p e) = elim (Reach-push_edge g k c p) [
  | inl old ↦ elim (Edge-push_edge g k c x v e) [
    | inl kept ↦ inl (step old kept)
    | inr (from, to) ↦ inr (rw from old, subst (Reach g c.id) to here)
  ]
  | inr (before, after) ↦ elim (Edge-push_edge g k c x v e) [
    | inl kept ↦ inr (before, step after kept)
    | inr (from, to) ↦ inr (before, subst (Reach g c.id) to here)
  ]
]

-- An edge keeps the graph acyclic if its target does not already wait on its source.
pub push_edge-IsAcyclic :
    (g : Graph) (k : ℕ) (c : Identity)
    → ¬ Reach g c.id k
    → IsAcyclic g
    → IsAcyclic (push_edge g k c)
push_edge-IsAcyclic g k c free acyclic u v e r = elim (Reach-push_edge g k c r) [
  | inl back ↦ elim (Edge-push_edge g k c u v e) [
    | inl old ↦ acyclic u v old back
    | inr (from, to) ↦ free (rw (to, from) back)
  ]
  | inr (before, after) ↦ elim (Edge-push_edge g k c u v e) [
    | inl old ↦ free (Reach-trans (step after old) before)
    | inr (from, to) ↦ free (rw to before)
  ]
]

Edge-remove_edge : (g : Graph) (k c u v : ℕ) → IsMap g → Edge (remove_edge g k c) u v → Edge g u v
Edge-remove_edge g k c u v m e = ground (arith, count-remove_edge g k c u v m)

Reach-remove_edge :
    (g : Graph) (k c : ℕ) {u v : ℕ} → IsMap g → Reach (remove_edge g k c) u v → Reach g u v
Reach-remove_edge g k c m here = here
Reach-remove_edge g k c m (step {v} {w} p e) =
    step (Reach-remove_edge g k c m p) (Edge-remove_edge g k c v w m e)

pub remove_edge-IsAcyclic :
    (g : Graph) (k c : ℕ) → IsMap g → IsAcyclic g → IsAcyclic (remove_edge g k c)
remove_edge-IsAcyclic g k c m acyclic u v e r =
    acyclic u v (Edge-remove_edge g k c u v m e) (Reach-remove_edge g k c m r)
