-- ===== src/ActorRef/Call.antt =====
-- A call on an `ActorRef`: the answers that it gets from the channels, the clock and the runtime,
-- which are tokio's, and what it comes to.
use rsactor.Base.{
  ℕ, String, Bool, true, false, if◌then◌else◌, Option, none, some, List, [], ◌∷◌, ◌==◌,
}
use rsactor.Identity.{Identity}
use rsactor.Error.{Error, Operation, send, timeout}
use rsactor.DeadLetter.{DeadLetter, DeadLetterReason, actor_stopped, timed_out}
use rsactor.Deadlock.Edges.{WaitFor}

-- `Sender::try_send`
pub data TrySend : Type 0 where
  accepted full closed : TrySend

-- The reply channel: a reply of the expected type, one of another type, or a dropped sender.
pub data Reply (X : Type 0) : Type 0 where
  replied : X → Reply X
  mistyped : Reply X
  dropped : Reply X

-- `tokio::time::timeout`: the call ends in time, or the deadline passes before the channel took the
-- message, or after.
pub data Deadline : Type 0 where
  in_time before_admission after_admission : Deadline

-- The runtime of the current thread.
pub data Runtime : Type 0 where
  multi_thread current_thread no_runtime : Runtime

-- A panic of the thread that runs a blocking call which is not the call's own, its text, and whether
-- a channel had taken the message by then.
pub record WorkerPanic : Type 0 where
  pub text : Option String
  pub admitted : Bool

-- The answers that a call gets. `send` says whether the awaited (or blocking) send delivers, and
-- `can_block` and `can_block_in_place` whether tokio lets the current thread block, and a
-- worker of a multi-thread runtime call `block_in_place`; `time_driver` says whether the caller's
-- runtime has one. `detection` is the feature
-- `deadlock-detection`, and `panic_text` what a panic of tokio's carries.
pub record Answers (Cause X : Type 0) : Type 0 where
  pub detection : Bool
  pub current_actor : Option Identity
  pub wait_for : WaitFor
  pub priority_enabled : Bool
  pub try_send : TrySend
  pub send_delivers : Bool
  pub reply : Reply X
  pub deadline : Deadline
  pub runtime : Runtime
  pub can_block : Bool
  pub can_block_in_place : Bool
  pub time_driver : Bool
  pub worker_panic : Option WorkerPanic
  pub panic_text : Option String
  pub spawn_error : Option Cause
  pub build_error : Option Cause

-- The actor, and the names of the message's type and of the reply's type.
pub record Target : Type 0 where
  pub identity : Identity
  pub message_type : String
  pub reply_type : String

pub data Result (Time Cause X : Type 0) : Type 0 where
  ok : X → Result Time Cause X
  err : Error Time Cause → Result Time Cause X

-- What a call comes to: its result, or a panic with its text, the dead letters that it recorded,
-- and how often it put the message into a channel.
pub data Call (Time Cause X : Type 0) : Type 0 where
  completed : Result Time Cause X → List DeadLetter → ℕ → Call Time Cause X
  panicked : Option String → List DeadLetter → ℕ → Call Time Cause X

abbrev pub letter : Target → DeadLetterReason → Operation → DeadLetter
letter t reason operation = record {
  identity = t.identity;
  reason = reason;
  operation = operation;
  message_type = t.message_type;
}

module _ {Cause X : Type 0} where
  -- the thread that runs a blocking call builds a runtime with a time driver
  abbrev pub on_worker : Answers Cause X → Answers Cause X
  on_worker a = record a { time_driver = true }

  -- `CURRENT_ACTOR.try_with(|id| id.id == self.id.id).unwrap_or(false)`
  unfoldable pub is_self : Answers Cause X → Target → Bool
  is_self a t = elim a.current_actor [ none ↦ false | some i ↦ i.id == t.identity.id ]

module _ {Time Cause X : Type 0} where
  -- a call that failed with one dead letter
  abbrev pub fails : Error Time Cause → DeadLetter → ℕ → Call Time Cause X
  fails e d n = completed (err e) (d ∷ []) n

  -- the channel refused the message: the actor stopped
  unfoldable pub not_sent : Target → Operation → String → Call Time Cause X
  not_sent t operation details =
      fails (send t.identity details) (letter t actor_stopped operation) 0

  -- `tokio::time::timeout` panics at once in a runtime without a time driver
  unfoldable pub arm_timeout : Answers Cause X → Call Time Cause X → Call Time Cause X
  arm_timeout a rest = if a.time_driver then rest else panicked a.panic_text [] 0

  -- the call up to its deadline, with the dead letter and the error of one that expires
  unfoldable pub by_deadline :
      Answers Cause X → Target → Time → Operation → Call Time Cause X → Call Time Cause X
  by_deadline a t time operation call = elim a.deadline [
    | in_time ↦ call
    | before_admission ↦ fails (timeout t.identity time operation) (letter t timed_out operation) 0
    | after_admission ↦ fails (timeout t.identity time operation) (letter t timed_out operation) 1
  ]

  -- `tokio::time::timeout(timeout, call)`
  unfoldable pub with_timeout :
      Answers Cause X → Target → Time → Operation → Call Time Cause X → Call Time Cause X
  unfolding arm_timeout by_deadline
  with_timeout a t time operation call = arm_timeout a (by_deadline a t time operation call)
