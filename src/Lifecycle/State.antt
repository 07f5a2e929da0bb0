-- ===== src/Lifecycle/State.antt =====
-- The branches of the loop of `run_actor_lifecycle` in src/actor.rs, and `tokio::select!` with its
-- `biased` order. A value of `Poll` is what the receivers and the idle streams answer when they are
-- polled.
use rsactor.Base.{Bool, true, false, Option, none, some, List, if◌then◌else◌}
use rsactor.ActorResult.{ActorResult}
use rsactor.Lifecycle.Program.{Program, Cut, MailboxMessage}

module _ (p : Program) where
  open p use {
    Args, Actor, Error, IdleEvent, Stream, Streams, on_idle, on_stop, no_streams, push, is_empty,
  }

  -- For each branch `none` is `Poll::Pending`. A receiver answers `some none` when it is closed and
  -- empty. The streams answer an event, or none, and the set that is left. `quiet` is what the
  -- priority channel still gives after `close`, until it is empty or its quiet period has passed.
  pub record Poll : Type 0 where
    pub terminate : Option (Option (Unit {0}))
    pub priority : Option (Option (MailboxMessage p))
    pub subscription : Option (Option Stream)
    pub mailbox : Option (Option (MailboxMessage p))
    pub streams : Streams → Option IdleEvent × Streams
    pub quiet : List (MailboxMessage p)

  -- The variables of the loop; the two flags say that the optional receiver is still `Some`.
  pub record Loop : Type 0 where
    pub actor : Actor
    pub priority_receiver : Bool
    pub idle_subscribe_receiver : Bool
    pub idle_streams : Streams

  pub data Flow : Type 0 where
    continues : Loop → Flow
    ends : ActorResult Actor Error → Flow
    breaks : Cut → Flow

  -- The branch that `select!` takes, or that all are pending, and the streams after it.
  pub data Arm : Type 0 where
    terminated : Option (Unit {0}) → Arm
    priority_arm : Option (MailboxMessage p) → Arm
    subscribed : Option Stream → Arm
    mailbox_arm : Option (MailboxMessage p) → Arm
    idle_arm : IdleEvent → Arm
    pending : Arm

  -- an optional receiver that was cleared is never ready
  abbrev pub enabled {ℓ} : {X : Type ℓ} → Bool → Option X → Option X
  enabled true o = o
  enabled false o = none

  unfoldable pub poll_streams : Loop → Poll → Option IdleEvent × Streams
  poll_streams l r =
      if is_empty l.idle_streams then (none, l.idle_streams) else r.streams l.idle_streams

  idle_or_pending : Option IdleEvent → Arm
  idle_or_pending none = pending
  idle_or_pending (some e) = idle_arm e

  -- `tokio::select! { biased; … }`: the first ready branch in the order of the source
  unfoldable pub select : Loop → Poll → Arm
  unfolding idle_or_pending poll_streams
  select l r = elim r.terminate [
    | some t ↦ terminated t
    | none ↦ elim (enabled l.priority_receiver r.priority) [
      | some m ↦ priority_arm m
      | none ↦ elim (enabled l.idle_subscribe_receiver r.subscription) [
        | some s ↦ subscribed s
        | none ↦ elim r.mailbox [
          | some m ↦ mailbox_arm m
          | none ↦ idle_or_pending (poll_streams l r).0
        ]
      ]
    ]
  ]
