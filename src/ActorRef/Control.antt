-- ===== src/ActorRef/Control.antt =====
-- The other calls of src/actor_ref.rs: idle subscriptions, and weak references.
pub mod Laws
use rsactor.Base.{
  Bool, true, false, not, ◌&&◌, ◌||◌, Option, none, some, List, [], ◌∷◌, ◌++◌, if◌then◌else◌,
}
use rsactor.Identity.{Identity}
use rsactor.Error.{Error, send, channel_full, idle_subscribe, idle_channel_not_enabled}
use rsactor.ActorRef.Call.{TrySend, accepted, full, closed}

-- `IdleSubscribeError`: the error, and the stream until it is taken.
pub record IdleSubscribeError (Time Cause Stream : Type 0) : Type 0 where
  pub error : Error Time Cause
  pub stream : Option Stream

-- What `subscribe_idle` gives, with the streams in the channel after it.
pub data Subscription (Time Cause Stream : Type 0) : Type 0 where
  subscribed : List Stream → Subscription Time Cause Stream
  refused : IdleSubscribeError Time Cause Stream → List Stream → Subscription Time Cause Stream

module _ {Time Cause Stream : Type 0} where
  -- `IdleSubscribeError::new`
  abbrev pub new_error : Error Time Cause → Stream → IdleSubscribeError Time Cause Stream
  new_error e s = record { error = e; stream = some s }

  -- `take_stream`: what it gives, and the error after it
  pub take_stream :
      IdleSubscribeError Time Cause Stream → Option Stream × IdleSubscribeError Time Cause Stream
  take_stream e = (e.stream, record e { stream = none })

  -- `into_parts`
  pub error_into_parts : IdleSubscribeError Time Cause Stream → Error Time Cause × Option Stream
  error_into_parts e = (e.error, e.stream)

  -- `subscribe_idle`, on the answer of `try_send` and the streams in the channel before; `enabled`
  -- says whether the actor has an idle channel
  pub subscribe_idle :
      Identity → Bool → TrySend → List Stream → Stream → Subscription Time Cause Stream
  subscribe_idle i enabled try_send channel stream =
      if enabled
      then elim try_send [
        | accepted ↦ subscribed (channel ++ stream ∷ [])
        | full ↦ refused (new_error (channel_full i idle_subscribe) stream) channel
        | closed ↦
            refused
              (new_error (send i "Idle subscribe channel closed (actor is no longer alive)") stream)
              channel
      ]
      else refused (new_error (idle_channel_not_enabled i) stream) channel

-- A sender of a channel, by whether its receiver is closed.
pub record Sender : Type 0 where
  pub is_closed : Bool

-- The senders of an `ActorRef`.
pub record Strong : Type 0 where
  pub identity : Identity
  pub sender : Sender
  pub terminate_sender : Sender
  pub priority_sender : Option Sender
  pub idle_subscribe_sender : Option Sender

-- The weak senders of an `ActorWeak`, by what their `upgrade` gives; the optional channels may be
-- missing.
pub record Weak : Type 0 where
  pub identity : Identity
  pub sender : Option Sender
  pub terminate_sender : Option Sender
  pub priority_sender : Option (Option Sender)
  pub idle_subscribe_sender : Option (Option Sender)

-- `ActorRef::is_alive`
unfoldable pub is_alive : Strong → Bool
is_alive r = not r.sender.is_closed && not r.terminate_sender.is_closed

-- `.as_ref().and_then(|s| s.upgrade())`
unfoldable pub flatten : Option (Option Sender) → Option Sender
flatten none = none
flatten (some o) = o

-- `ActorWeak::upgrade`
unfoldable pub upgrade : Weak → Option Strong
unfolding flatten
upgrade w = elim w.sender [
  | none ↦ none
  | some s ↦ elim w.terminate_sender [
    | none ↦ none
    | some t ↦
        if s.is_closed || t.is_closed
        then none
        else some (record {
          identity = w.identity;
          sender = s;
          terminate_sender = t;
          priority_sender = flatten w.priority_sender;
          idle_subscribe_sender = flatten w.idle_subscribe_sender;
        })
  ]
]

-- `ActorWeak::is_alive`
pub weak_is_alive : Weak → Bool
weak_is_alive w = elim w.sender [
  | none ↦ false
  | some s ↦ elim w.terminate_sender [ none ↦ false | some t ↦ not s.is_closed && not t.is_closed ]
]
