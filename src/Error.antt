-- ===== src/Error.antt =====
-- src/error.rs: the operations, the errors that the calls on an actor return, and what a caller
-- can read from an error.
pub mod Tips
use rsactor.Base.{String, ◌<>◌, Bool, true, false, Option, none, some}
use rsactor.Identity.{Identity, show_identity}

pub data Operation : Type 0 where
  tell ask tell_priority ask_priority : Operation
  blocking_tell blocking_tell_priority blocking_ask blocking_ask_priority : Operation

-- `Operation::as_str`
unfoldable pub as_str : Operation → String
as_str tell = "tell"
as_str ask = "ask"
as_str tell_priority = "tell_priority"
as_str ask_priority = "ask_priority"
as_str blocking_tell = "blocking_tell"
as_str blocking_tell_priority = "blocking_tell_priority"
as_str blocking_ask = "blocking_ask"
as_str blocking_ask_priority = "blocking_ask_priority"

pub data Channel : Type 0 where
  idle_subscribe : Channel

-- `Channel::as_str`
pub channel_as_str : Channel → String
channel_as_str idle_subscribe = "idle_subscribe"

-- The causes that an error carries, an `io::Error` or a `JoinError`, are the type `Cause`, and a
-- `Duration` is the type `Time`.
module _ (Time Cause : Type 0) where
  pub data Error : Type 0 where
    send : Identity → String → Error
    channel_full : Identity → Channel → Error
    receive : Identity → String → Error
    timeout : Identity → Time → Operation → Error
    downcast : Identity → String → Error
    runtime : Identity → String → Option Cause → Error
    mailbox_capacity : String → Error
    join : Identity → Cause → Error
    priority_channel_not_enabled : Identity → Error
    idle_channel_not_enabled : Identity → Error

module _ {Time Cause : Type 0} where
  -- the actor that an error names
  pub identity_of : Error Time Cause → Option Identity
  identity_of (send i d) = some i
  identity_of (channel_full i c) = some i
  identity_of (receive i d) = some i
  identity_of (timeout i t o) = some i
  identity_of (downcast i e) = some i
  identity_of (runtime i d c) = some i
  identity_of (mailbox_capacity m) = none
  identity_of (join i c) = some i
  identity_of (priority_channel_not_enabled i) = some i
  identity_of (idle_channel_not_enabled i) = some i

  -- `Display`; `show_time` is the `Debug` text of a `Duration`
  pub show_error : (Time → String) → Error Time Cause → String
  unfolding as_str channel_as_str show_identity
  show_error show_time (send i details) =
      "Failed to send message to actor " <> (show_identity i <> (": " <> details))
  show_error show_time (channel_full i channel) =
      "Bounded channel '"
      <> (channel_as_str channel <> ("' for actor " <> (show_identity i <> " is at capacity")))
  show_error show_time (receive i details) =
      "Failed to receive reply from actor " <> (show_identity i <> (": " <> details))
  show_error show_time (timeout i time operation) =
      as_str operation
      <> (" operation to actor " <> (show_identity i <> (" timed out after " <> show_time time)))
  show_error show_time (downcast i expected_type) =
      "Failed to downcast reply from actor "
      <> (show_identity i <> (" to expected type '" <> (expected_type <> "'")))
  show_error show_time (runtime i details cause) =
      "Runtime error in actor " <> (show_identity i <> (": " <> details))
  show_error show_time (mailbox_capacity message) = "Mailbox capacity error: " <> message
  show_error show_time (join i cause) = "Failed to join spawned task from actor " <> show_identity i
  show_error show_time (priority_channel_not_enabled i) =
      "Priority channel is not enabled for actor "
      <> (show_identity i <> ": enable it via SpawnOptions::with_priority()")
  show_error show_time (idle_channel_not_enabled i) =
      "Idle channel is not enabled for actor "
      <> (show_identity i <> ": enable it via SpawnOptions::with_idle()")

  -- `std::error::Error::source`
  pub source : Error Time Cause → Option Cause
  source (join i c) = some c
  source (runtime i d (some c)) = some c
  source _ = none

  unfoldable pub is_retryable : Error Time Cause → Bool
  is_retryable (timeout i t o) = true
  is_retryable (channel_full i c) = true
  is_retryable _ = false
