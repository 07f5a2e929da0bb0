-- ===== src/Deadlock.antt =====
-- src/deadlock.rs: the wait-for graph of outstanding asks, the search for a path in it, and the
-- edges that guards and tokens share. `Deadlock/Graph.antt` is the graph, `Deadlock/Search.antt`
-- the two depth-first searches, `Deadlock/Edges.antt` registration and removal; the other modules
-- hold the proofs.
pub mod Graph
pub mod Search
pub mod Edges
