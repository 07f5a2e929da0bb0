-- ===== src/ActorRef/Cycles.antt =====
-- What the asks of src/actor_ref.rs do when the wait-for graph of src/deadlock.rs finds a cycle.
use rsactor.Base.{◌≡◌, String, true, some, []}
use text.Mathlib.Text.{starts_with}
use rsactor.Identity.{Identity}
use rsactor.Deadlock.Edges.{deadlock_panic_prefix}
use rsactor.ActorRef.Call.{Call, panicked}

-- A panic that reports a deadlock: no dead letter, and the message is in no channel.
abbrev pub IsDeadlockPanic : {Time Cause X : Type 0} → Call Time Cause X → Type 0
IsDeadlockPanic c =
    (m : String) × (c ≡ panicked (some m) [] 0) × (starts_with m deadlock_panic_prefix ≡ true)
