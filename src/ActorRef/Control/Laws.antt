-- ===== src/ActorRef/Control/Laws.antt =====
-- Idle subscriptions and weak references of src/actor_ref.rs.
use rsactor.Base.{
  ◌≡◌, ◌↔◌, ◌⊎◌, inl, inr, refl, Bool, true, false, ◌||◌, Option, none, some, List, [], ◌∷◌, ◌++◌,
  Bool-cases, arith,
}
use rsactor.Identity.{Identity}
use rsactor.Error.{is_retryable}
use rsactor.ActorRef.Call.{TrySend, accepted, full}
use rsactor.ActorRef.Control.{
  Subscription, subscribed, refused, take_stream, error_into_parts, subscribe_idle, Sender, Strong,
  Weak, is_alive, flatten, upgrade, weak_is_alive,
}

module _ {Time Cause Stream : Type 0} where
  -- The stream is in the channel, after those before it, or the channel is as it was and the error
  -- hands the stream back: to `into_parts` and to the first `take_stream`, but not to a second. The
  -- error is retryable exactly when the channel was full.
  pub KeepsStream : TrySend → Bool → List Stream → Stream → Subscription Time Cause Stream → Type 0
  KeepsStream t enabled channel stream (subscribed after) =
      (after ≡ channel ++ stream ∷ []) × (enabled ≡ true) × (t ≡ accepted)
  KeepsStream t enabled channel stream (refused e after) =
      (after ≡ channel)
      × ((error_into_parts e).1 ≡ some stream)
      × ((take_stream e).0 ≡ some stream)
      × ((take_stream (take_stream e).1).0 ≡ none)
      × ((is_retryable e.error ≡ true) ↔ ((enabled ≡ true) × (t ≡ full)))

module _ (Time Cause : Type 0) {Stream : Type 0} where
  -- Whatever the channel answers, `subscribe_idle` does not lose the stream: either it is the last
  -- in the channel, or the channel is as before and the error hands the stream back, once; and the
  -- error is retryable exactly when the actor has an idle channel and this was full.
  pub subscribe_idle-KeepsStream :
      (i : Identity) (enabled : Bool) (t : TrySend) (channel : List Stream) (stream : Stream)
      → KeepsStream t enabled channel stream
          (subscribe_idle {Time = Time} {Cause = Cause} i enabled t channel stream)
  unfolding KeepsStream subscribe_idle error_into_parts take_stream is_retryable
  subscribe_idle-KeepsStream i enabled t channel stream = ground arith

-- the reference that an upgrade gives, with its two primary senders
upgraded : Weak → Sender → Sender → Strong
upgraded w s t = record {
  identity = w.identity;
  sender = s;
  terminate_sender = t;
  priority_sender = flatten w.priority_sender;
  idle_subscribe_sender = flatten w.idle_subscribe_sender;
}

upgrade_senders :
    (w : Weak) (s t : Option Sender)
    → w.sender ≡ s
    → w.terminate_sender ≡ t
    → ((weak_is_alive w ≡ true)
        × ((r : Strong) × (upgrade w ≡ some r) × (is_alive r ≡ true) × (r.identity ≡ w.identity)))
      ⊎ ((weak_is_alive w ≡ false) × (upgrade w ≡ none))
unfolding weak_is_alive upgrade is_alive upgraded
upgrade_senders w none t e f = inr (ground arith, ground arith)
upgrade_senders w (some s) none e f = inr (ground arith, ground arith)
upgrade_senders w (some s) (some t) e f = elim (Bool-cases (s.is_closed || t.is_closed)) [
  | inl gone ↦ inr (ground arith, ground arith)
  | inr there ↦ inl (ground arith, (upgraded w s t, ground arith, ground arith, refl))
]

-- A weak reference can be upgraded exactly when it says that the actor is alive, and the reference
-- that this gives is alive and has the same identity.
pub upgrade_agrees :
    (w : Weak)
    → ((weak_is_alive w ≡ true)
        × ((r : Strong) × (upgrade w ≡ some r) × (is_alive r ≡ true) × (r.identity ≡ w.identity)))
      ⊎ ((weak_is_alive w ≡ false) × (upgrade w ≡ none))
upgrade_agrees w = upgrade_senders w w.sender w.terminate_sender refl refl
