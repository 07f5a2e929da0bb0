-- ===== src/ActorRef/Send.antt =====
-- The asynchronous sends of src/actor_ref.rs.
use rsactor.Base.{String, ◌<>◌, Bool, true, false, some, [], if◌then◌else◌}
use rsactor.Identity.{Identity, show_identity}
use rsactor.Error.{
  Operation, tell, ask, tell_priority, ask_priority, as_str, receive, downcast,
  priority_channel_not_enabled,
}
use rsactor.DeadLetter.{reply_dropped}
use rsactor.Deadlock.Edges.{deadlock_panic_prefix, register_ask_edge, panics}
use rsactor.ActorRef.Call.{
  accepted, full, closed, replied, mistyped, dropped, Answers, Target, ok, err, Call, completed,
  panicked, letter, fails, not_sent, arm_timeout, by_deadline, with_timeout, is_self,
}

abbrev pub mailbox_closed : String
mailbox_closed = "Mailbox channel closed"

abbrev pub priority_closed : String
priority_closed = "Priority channel closed"

abbrev pub reply_closed : String
reply_closed = "Reply channel closed unexpectedly"

-- the message of `panic_if_self_send_on_full`
pub self_send_message : String → Identity → String
unfolding show_identity
self_send_message operation i =
    deadlock_panic_prefix
    <> (": "
        <> (operation
            <> (" to self on a full mailbox from inside actor "
                <> (show_identity i
                    <> "'s own handler or lifecycle hook.\nThe mailbox's only consumer is this actor's runtime loop, which is parked awaiting the current handler, so admission can never succeed and kill() cannot interrupt the wait. Use tell_with_timeout, a larger mailbox capacity, or send from a spawned task."))))

module _ {Time Cause X : Type 0} where
  -- `panic_if_self_send_on_full`, with what follows if it does not panic
  unfoldable pub panic_if_self_send_on_full :
      Answers Cause X → Target → String → Call Time Cause X → Call Time Cause X
  unfolding is_self self_send_message
  panic_if_self_send_on_full a t operation rest =
      if is_self a t then panicked (some (self_send_message operation t.identity)) [] 0 else rest

  -- what the caller makes of the reply channel
  unfoldable pub await_reply : Answers Cause X → Target → Operation → Call Time Cause X
  await_reply a t operation = elim a.reply [
    | replied x ↦ completed (ok x) [] 1
    | mistyped ↦ completed (err (downcast t.identity t.reply_type)) [] 1
    | dropped ↦ fails (receive t.identity reply_closed) (letter t reply_dropped operation) 1
  ]

  -- `register_ask_edge`, with what follows if it does not panic
  unfoldable pub registered :
      Answers Cause X → Target → Operation → Call Time Cause X → Call Time Cause X
  registered a t operation rest =
      if a.detection
      then elim (register_ask_edge a.wait_for a.current_actor t.identity (as_str operation)) [
        | panics message ↦ panicked (some message) [] 0
        | _ ↦ rest
      ]
      else rest

  unfoldable pub ask_inner : Answers Cause X → Target → Operation → Call Time Cause X
  unfolding registered await_reply not_sent
  ask_inner a t operation =
      registered a t operation
        (if a.send_delivers then await_reply a t operation else not_sent t operation mailbox_closed)

  unfoldable pub ask_call : Answers Cause X → Target → Call Time Cause X
  unfolding ask_inner
  ask_call a t = ask_inner a t ask

  -- the registration panics inside the future that the deadline covers
  unfoldable pub ask_timeout_inner : Answers Cause X → Target → Time → Operation → Call Time Cause X
  unfolding registered await_reply not_sent arm_timeout by_deadline
  ask_timeout_inner a t time operation = arm_timeout a (
      registered a t operation (
        by_deadline a t time operation (
          if a.send_delivers
          then await_reply a t operation
          else not_sent t operation mailbox_closed)))

  unfoldable pub ask_with_timeout : Answers Cause X → Target → Time → Call Time Cause X
  unfolding ask_timeout_inner
  ask_with_timeout a t time = ask_timeout_inner a t time ask

  unfoldable pub require_priority : Answers Cause X → Target → Call Time Cause X → Call Time Cause X
  require_priority a t rest =
      if a.priority_enabled
      then rest
      else completed (err (priority_channel_not_enabled t.identity)) [] 0

  unfoldable pub ask_priority_inner :
      Answers Cause X → Target → Time → Operation → Call Time Cause X
  unfolding require_priority registered arm_timeout by_deadline await_reply not_sent
  ask_priority_inner a t time operation = require_priority a t (
      arm_timeout a (
        registered a t operation (
          by_deadline a t time operation (
            if a.send_delivers
            then await_reply a t operation
            else not_sent t operation priority_closed))))

  unfoldable pub ask_priority_call : Answers Cause X → Target → Time → Call Time Cause X
  unfolding ask_priority_inner
  ask_priority_call a t time = ask_priority_inner a t time ask_priority

module _ {Time Cause : Type 0} where
  -- `self.sender.send(envelope).await` of a tell
  unfoldable pub tell_send : Answers Cause (Unit {0}) → Target → Call Time Cause (Unit {0})
  unfolding not_sent
  tell_send a t = if a.send_delivers then completed (ok tt) [] 1 else not_sent t tell mailbox_closed

  unfoldable pub tell_inner : Answers Cause (Unit {0}) → Target → Bool → Call Time Cause (Unit {0})
  unfolding tell_send panic_if_self_send_on_full
  tell_inner a t detect_self_deadlock =
      if a.detection
      then elim a.try_send [
        | accepted ↦ completed (ok tt) [] 1
        | full ↦
            if detect_self_deadlock
            then panic_if_self_send_on_full a t "tell" (tell_send a t)
            else tell_send a t
        | closed ↦ tell_send a t
      ]
      else tell_send a t

  unfoldable pub tell_call : Answers Cause (Unit {0}) → Target → Call Time Cause (Unit {0})
  unfolding tell_inner
  tell_call a t = tell_inner a t true

  unfoldable pub tell_with_timeout :
      Answers Cause (Unit {0}) → Target → Time → Call Time Cause (Unit {0})
  unfolding tell_inner with_timeout
  tell_with_timeout a t time = with_timeout a t time tell (tell_inner a t false)

  unfoldable pub tell_priority_call :
      Answers Cause (Unit {0}) → Target → Time → Call Time Cause (Unit {0})
  unfolding require_priority with_timeout not_sent
  tell_priority_call a t time = require_priority a t (
      with_timeout a t time tell_priority (
        if a.send_delivers
        then completed (ok tt) [] 1
        else not_sent t tell_priority priority_closed))
