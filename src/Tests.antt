-- ===== src/Tests.antt =====
-- The theorems at concrete inputs: results of an actor, a wait-for graph with two asks, a counting
-- actor and its task, calls on it, and its counters.
mod ActorResult
mod Deadlock
mod Lifecycle
mod ActorRef
mod Control
mod Metrics
mod Spawn
mod System
mod ActorGraph
mod Resolve
