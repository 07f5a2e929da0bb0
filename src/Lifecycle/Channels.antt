-- ===== src/Lifecycle/Channels.antt =====
-- What is left in the channels when a task ends: `discard_queued_messages` and the `Drop` of
-- `LifecycleChannels` in src/actor.rs. The lists are what `try_recv` gives after `close`.
use rsactor.Base.{ℕ, Option, none, some, List, [], ◌∷◌, ◌++◌, length, if◌then◌else◌}
use rsactor.Identity.{Identity}
use rsactor.Error.{Operation, tell, ask, tell_priority, ask_priority}
use rsactor.DeadLetter.{DeadLetter, discarded_at_shutdown}
use rsactor.Lifecycle.Program.{Program, ReplyChannel, MailboxMessage, envelope, stop_gracefully}

module _ (p : Program) where
  open p use {Stream, message_type_name}

  -- the operation under which a discarded envelope is recorded; an ask whose caller still waits is
  -- left to the caller
  unfoldable pub discard_operation : Operation → Operation → Option ReplyChannel → Option Operation
  discard_operation tell_op _ none = some tell_op
  discard_operation _ ask_op (some tx) = if tx.is_closed then some ask_op else none

  unfoldable pub discard : Identity → Operation → Operation → MailboxMessage p → List DeadLetter
  unfolding discard_operation
  discard _ _ _ stop_gracefully = []
  discard actor_id tell_op ask_op (envelope e) =
      elim (discard_operation tell_op ask_op e.reply_channel) [
        | none ↦ []
        | some operation ↦
            record {
              identity = actor_id;
              reason = discarded_at_shutdown;
              operation = operation;
              message_type = message_type_name e.payload;
            }
            ∷ []
      ]

  -- `drain_one`
  unfoldable pub drain_one :
      Identity → Operation → Operation → List (MailboxMessage p) → List DeadLetter
  unfolding discard
  drain_one _ _ _ [] = []
  drain_one actor_id tell_op ask_op (m ∷ ms) =
      discard actor_id tell_op ask_op m ++ drain_one actor_id tell_op ask_op ms

  -- What the receivers of `LifecycleChannels` still hold; an optional channel may be missing.
  pub record Queued : Type 0 where
    pub mailbox : List (MailboxMessage p)
    pub priority : Option (List (MailboxMessage p))
    pub subscriptions : Option (List Stream)

  -- What the drain leaves behind: the dead letters, and the number of streams that were dropped.
  pub record Drained : Type 0 where
    pub letters : List DeadLetter
    pub streams_dropped : ℕ

  unfoldable pub discard_priority : Identity → Option (List (MailboxMessage p)) → List DeadLetter
  unfolding drain_one
  discard_priority actor_id none = []
  discard_priority actor_id (some ms) = drain_one actor_id tell_priority ask_priority ms

  unfoldable pub discard_queued_messages : Identity → Queued → Drained
  unfolding drain_one discard_priority
  discard_queued_messages actor_id q = record {
    letters = drain_one actor_id tell ask q.mailbox ++ discard_priority actor_id q.priority;
    streams_dropped = elim q.subscriptions [ none ↦ 0 | some ss ↦ length ss ];
  }
