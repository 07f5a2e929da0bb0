-- ===== src/Lifecycle.antt =====
-- The life of an actor's task, src/actor.rs: `run_actor_lifecycle` and the drain of its channels.
-- `Program` is the actor and what the task is given, `Channels` the drain, `Envelope` the handling
-- of one message, `State`, `Arms` and `Loop` the runtime loop; the other modules hold the proofs.
pub mod Program
pub mod Channels
pub mod Envelope
pub mod State
pub mod Arms
pub mod Loop
pub mod Trace
pub mod Balance
pub mod Accounts
pub mod Stopping
pub mod Biased
pub mod Shutdown
pub mod Discarded
pub mod Graceful
pub mod Taken
