-- ===== src/Error/Tips.antt =====
-- `debugging_tips` of src/error.rs.
use rsactor.Base.{String, Bool, true, false, List, [], ◌∷◌, if◌then◌else◌}
use rsactor.Error.{
  Operation, tell, tell_priority, blocking_tell, blocking_tell_priority, Error, send, channel_full,
  receive, timeout, downcast, runtime, mailbox_capacity, join, priority_channel_not_enabled,
  idle_channel_not_enabled,
}

-- the operations that send without a reply
unfoldable pub is_tell : Operation → Bool
is_tell tell = true
is_tell tell_priority = true
is_tell blocking_tell = true
is_tell blocking_tell_priority = true
is_tell _ = false

module _ {Time Cause : Type 0} where
  unfoldable pub debugging_tips : Error Time Cause → List String
  unfolding is_tell
  debugging_tips (send i d) =
      "Verify the actor is still running with `actor_ref.is_alive()`"
      ∷ "The actor's mailbox is closed - the actor has terminated"
      ∷ "Consider using `ActorWeak` for long-lived references" ∷ []
  debugging_tips (channel_full i c) =
      "Transient failure - the actor is alive and its runtime loop drains the buffer"
      ∷ "Retry only from OUTSIDE the target actor: the buffer drains between handler invocations, so a retry loop inside the actor's own on_start/handler spins forever and cannot be kill()ed"
      ∷ "For subscribe_idle specifically, spawn with SpawnOptions::with_idle_capacity(n) if you regularly fan out more than 32 streams, merge sources into one stream (futures::stream::select_all), or batch subscriptions across handler invocations"
      ∷ "The rejected stream is returned in IdleSubscribeError - reuse it for the retry" ∷ []
  debugging_tips (receive i d) =
      "The actor dropped the reply channel before responding"
      ∷ "Check if the message handler panicked or returned early"
      ∷ "Verify the handler correctly awaits async operations" ∷ []
  debugging_tips (downcast i e) =
      "The handler returned a different type than expected"
      ∷ "Verify the Message trait impl returns correct Reply type"
      ∷ "This usually indicates a bug in handler implementation" ∷ []
  debugging_tips (runtime i d c) =
      "Emitted when a blocking_* call fails to build or run its dedicated temporary runtime"
      ∷ "Match on `Error::Runtime { source, .. }` and inspect `source` for the underlying cause (e.g. std::io::Error)"
      ∷ "This usually indicates OS resource exhaustion (unable to spawn a thread or build a runtime)"
      ∷ "Prefer calling blocking_* from within an existing multi-thread runtime, or use the async ask()/tell() APIs"
      ∷ []
  debugging_tips (mailbox_capacity m) =
      "Mailbox capacity must be greater than 0 and at most tokio::sync::Semaphore::MAX_PERMITS"
      ∷ "set_default_mailbox_capacity() can only be called once"
      ∷ "Call it early in main() before spawning actors"
      ∷ "To give one actor type its own capacity, set Actor::MAILBOX_CAPACITY instead - it takes precedence over this process-wide default"
      ∷ []
  debugging_tips (join i c) =
      "The spawned task panicked or was cancelled by the runtime"
      ∷ "Run with RUST_BACKTRACE=1 or RUST_BACKTRACE=full for panic details"
      ∷ "Match on `Error::Join { source, .. }` and use `source.is_panic()` / `source.is_cancelled()` to distinguish the cause"
      ∷ "Check for unwrap(), expect(), or panic!() calls in actor code"
      ∷ "Verify tokio runtime wasn't shut down while actor was running" ∷ []
  debugging_tips (priority_channel_not_enabled i) =
      "Spawn the actor with SpawnOptions::new().with_priority() via spawn_with_options()"
      ∷ "Use ActorRef::has_priority_channel() to check before sending priority messages"
      ∷ "If priority is not required, use the regular tell()/ask() methods instead" ∷ []
  debugging_tips (idle_channel_not_enabled i) =
      "Spawn the actor with SpawnOptions::new().with_idle() via spawn_with_options()"
      ∷ "Use ActorRef::has_idle_channel() to check before calling subscribe_idle()"
      ∷ "on_idle is only driven when the idle channel is enabled" ∷ []
  debugging_tips (timeout i t o) =
      if is_tell o
      then "The message was not admitted: the target mailbox (or priority slot) stayed full for the whole timeout"
        ∷ "Check whether the actor processes messages slower than they are sent"
        ∷ "Consider a larger mailbox capacity or a longer timeout" ∷ []
      else "Consider increasing the timeout duration"
        ∷ "Check if the actor is processing a slow operation"
        ∷ "Verify there's no deadlock in the message handler"
        ∷ "The message may still be processed after the timeout - retry only idempotent messages"
        ∷ "Use `tell` instead if you don't need a response" ∷ []
