-- ===== src/Deadlock/Edges/Message.antt =====
-- The cycle that a deadlock panic shows.
use rsactor.Base.{◌≡◌, inl, inr, true}
use rsactor.Identity.{Identity}
use rsactor.Deadlock.Graph.{Graph}
use rsactor.Deadlock.Search.FindPath.{Answer, find_path_correct}
use rsactor.Deadlock.Edges.{closes_cycle, rest_of_cycle}
use rsactor.Deadlock.Edges.Invariant.{closes_cycle_correct}

-- Where `register_ask_edge` panics, what its message shows after the caller is a walk of the graph
-- from the callee to the caller: the fallback to the callee alone is never taken.
pub rest_of_cycle_walk :
    (g : Graph) (caller callee : Identity)
    → closes_cycle g caller callee ≡ true
    → Answer g callee caller.id (rest_of_cycle g caller callee)
unfolding rest_of_cycle
rest_of_cycle_walk g caller callee h = elim (find_path_correct g callee caller.id) [
  | inl (path, e, a) ↦ rw (e, rest_of_cycle) a
  | inr (e, blocked) ↦ absurd (blocked ((closes_cycle_correct g caller callee).0 h))
]
