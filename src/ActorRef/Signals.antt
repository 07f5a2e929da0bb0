-- ===== src/ActorRef/Signals.antt =====
-- `kill`, `stop`, `ask_join` and `downgrade` of src/actor_ref.rs.
pub mod Laws
use rsactor.Base.{ℕ, Bool, true, false, Option, none, some, map, if◌then◌else◌, [], List}
use rsactor.Error.{join}
use rsactor.ActorRef.Call.{
  TrySend, accepted, full, closed, Answers, Target, Result, ok, err, Call, completed, panicked,
}
use rsactor.ActorRef.Send.{panic_if_self_send_on_full, ask_call}
use rsactor.ActorRef.Control.{Sender, Strong, Weak}

-- The terminate channel, which has room for one signal.
pub record TerminateChannel : Type 0 where
  pub is_closed : Bool
  pub has_signal : Bool

-- `terminate_sender.try_send`
unfoldable pub try_terminate : TerminateChannel → TrySend
try_terminate c = if c.is_closed then closed else if c.has_signal then full else accepted

-- what `kill` leaves in the channel; a full or a closed one is only logged
unfoldable pub kill : TerminateChannel → TerminateChannel
unfolding try_terminate
kill c = elim (try_terminate c) [
  | accepted ↦ record c { has_signal = true }
  | full ↦ c
  | closed ↦ c
]

module _ {Time Cause : Type 0} where
  -- `self.sender.send(stop_msg).await`; a closed mailbox is only logged
  unfoldable pub stop_send : Answers Cause (Unit {0}) → Call Time Cause (Unit {0})
  stop_send a = if a.send_delivers then completed (ok tt) [] 1 else completed (ok tt) [] 0

  unfoldable pub stop_call : Answers Cause (Unit {0}) → Target → Call Time Cause (Unit {0})
  unfolding stop_send panic_if_self_send_on_full
  stop_call a t =
      if a.detection
      then elim a.try_send [
        | accepted ↦ completed (ok tt) [] 1
        | full ↦ panic_if_self_send_on_full a t "stop" (stop_send a)
        | closed ↦ stop_send a
      ]
      else stop_send a

-- What a task's `JoinHandle` gives.
pub data Joined (Cause R : Type 0) : Type 0 where
  joined : R → Joined Cause R
  join_failed : Cause → Joined Cause R

module _ {Time Cause Handle R : Type 0} where
  unfoldable pub finish_join :
      (Handle → Joined Cause R) → Target → Call Time Cause Handle → Call Time Cause R
  finish_join await t (completed (ok handle) letters n) = elim (await handle) [
    | joined r ↦ completed (ok r) letters n
    | join_failed cause ↦ completed (err (join t.identity cause)) letters n
  ]
  finish_join await t (completed (err e) letters n) = completed (err e) letters n
  finish_join await t (panicked text letters n) = panicked text letters n

  unfoldable pub ask_join :
      Answers Cause Handle → Target → (Handle → Joined Cause R) → Call Time Cause R
  unfolding finish_join
  ask_join a t await = finish_join await t (ask_call a t)

-- The senders are held while the reference is, so a weak one can be upgraded to the sender itself.
unfoldable pub downgrade : Strong → Weak
downgrade r = record {
  identity = r.identity;
  sender = some r.sender;
  terminate_sender = some r.terminate_sender;
  priority_sender = elim r.priority_sender [ none ↦ none | some s ↦ some (some s) ];
  idle_subscribe_sender = elim r.idle_subscribe_sender [ none ↦ none | some s ↦ some (some s) ];
}
