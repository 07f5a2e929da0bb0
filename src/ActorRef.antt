-- ===== src/ActorRef.antt =====
-- src/actor_ref.rs: the calls on a reference to an actor. `Call` is what a call is given and what it
-- comes to, `Send` the asynchronous calls, `Blocking` the blocking ones, `Control` the others; the
-- other modules hold the proofs.
pub mod Call
pub mod Send
pub mod Blocking
pub mod Control
pub mod Signals
pub mod Letters
pub mod Tells
pub mod Cycles
