-- ===== src/Deadlock/Edges/Detection.antt =====
-- What `register_ask_edge` detects in terms of the outstanding asks, and how often an edge goes.
use rsactor.Base.{
  ℕ, ◌<◌, ◌≡◌, refl, ◌⊎◌, inl, inr, subst, true, false, String, some, List, [], ◌∷◌, ◌++◌, length,
  Bool-cases,
}
use text.Mathlib.Text.{starts_with}
use text.Mathlib.TextPositions.{starts_with-append}
use rsactor.Identity.{Identity}
use rsactor.Deadlock.Graph.Paths.{Reach, here, step}
use rsactor.Deadlock.Edges.{
  AskEdge, WaitFor, Registered, guard, panics, closes_cycle, register_as, register_ask_edge,
  add_edge, new_edge, deadlock_panic_prefix, panic_message, format_cycle_path, Reachable,
}
use rsactor.Deadlock.Edges.Invariant.{
  outstanding, IsConsistent, closes_cycle_correct, Reachable-IsConsistent,
}

-- The actor `a` waits on `b`, through a chain of zero or more outstanding asks.
pub data Waits (edges : List AskEdge) (a : ℕ) : ℕ → Type 0 where
  itself : Waits edges a a
  asks : {b c : ℕ} → Waits edges a b → 0 < outstanding edges b c → Waits edges a c

Waits-Reach : {w : WaitFor} {a b : ℕ} → IsConsistent w → Waits w.edges a b → Reach w.graph a b
Waits-Reach v itself = here
Waits-Reach v (asks {b} {c} p h) = step (Waits-Reach v p) (rw (v.counted b c) h)

Reach-Waits : {w : WaitFor} {a b : ℕ} → IsConsistent w → Reach w.graph a b → Waits w.edges a b
Reach-Waits v here = itself
Reach-Waits v (step {v = b} {w = c} p h) =
    asks (Reach-Waits v p) (subst (λ n. 0 < n) (v.counted b c) h)

abbrev pub Panics : Registered → Type 0
Panics r =
    (message : String) × (r ≡ panics message) × (starts_with message deadlock_panic_prefix ≡ true)

register_as-Panics :
    (w : WaitFor) (caller callee : Identity) (operation : String)
    → closes_cycle w.graph caller callee ≡ true
    → Panics (register_as w caller callee operation)
unfolding register_as panic_message
register_as-Panics w caller callee operation h = (
  panic_message operation (format_cycle_path w.graph caller callee),
  rw (h, register_as),
  starts_with-append deadlock_panic_prefix _,
)

-- In a state that a process reaches, `register_ask_edge` called by the actor `caller` panics if and
-- only if the callee already waits on the caller through a chain of outstanding asks (or is the
-- caller); the message starts with the prefix that `run_blocking_on` looks for. Otherwise it
-- returns a guard whose edge is not that of any ask before, and the state in which this edge, from
-- the caller to the callee and not removed, follows the edges that were there.
pub register_ask_edge_detects :
    {w : WaitFor} (caller callee : Identity) (operation : String)
    → Reachable w
    → (Waits w.edges callee.id caller.id
        × Panics (register_ask_edge w (some caller) callee operation))
      ⊎ ((¬ Waits w.edges callee.id caller.id)
          × (register_ask_edge w (some caller) callee operation
              ≡ guard (length w.edges) (add_edge w caller callee))
          × ((add_edge w caller callee).edges
              ≡ w.edges
                ++ record { caller = caller.id; callee_id = callee.id; removed = false } ∷ []))
unfolding register_ask_edge register_as add_edge new_edge
register_ask_edge_detects {w} caller callee operation r =
    let v = Reachable-IsConsistent r in
    elim (Bool-cases (closes_cycle w.graph caller callee)) [
      | inl cycle ↦ inl (
        Reach-Waits v ((closes_cycle_correct w.graph caller callee).0 cycle),
        register_as-Panics w caller callee operation cycle,
      )
      | inr free ↦ inr (
        λ p. cc ((closes_cycle_correct w.graph caller callee).1 (Waits-Reach v p)),
        rw (free, register_as),
        refl,
      )
    ]
