-- ===== src/System/Delivery.antt =====
-- The sends of src/actor_ref.rs to a task of src/actor.rs, from the channel to the handler.
use rsactor.Base.{ℕ, ◌+◌, none, some, map, length}
use rsactor.Identity.{Identity}
use rsactor.Lifecycle.Program.{Program, Envelope, MailboxMessage, envelope}
use rsactor.Lifecycle.Channels.{Queued}
use rsactor.Lifecycle.Graceful.{envelopes}
use rsactor.Lifecycle.Trace.{tally}
use rsactor.Lifecycle.Discarded.{is_waiting}
use rsactor.Lifecycle.Taken.{from_mailbox, from_priority, taken}
use rsactor.System.{Channel, System, discarded}

module _ (p : Program) (mc : Channel (MailboxMessage p)) (pc : Channel (Envelope p)) where
  -- what is in the channels
  abbrev queued : System p mc pc → Queued p
  queued s = record {
    mailbox = mc.contents s.mailbox;
    priority = some (map envelope (pc.contents s.priority));
    subscriptions = none;
  }

  -- The numbers of the messages that the two channels took, that the task took up, that leave a dead
  -- letter when the channels are dropped, and of the asks among the rest whose callers wait.
  abbrev pub sent_count : System p mc pc → ℕ
  sent_count s = length (envelopes p s.sent) + length s.sent_priority

  abbrev pub taken_count : System p mc pc → ℕ
  taken_count s = length (taken from_mailbox s.trace) + length (taken from_priority s.trace)

  abbrev pub lettered_count : Identity → System p mc pc → ℕ
  lettered_count i s = length (discarded p mc pc i s)

  abbrev pub waiting_count : System p mc pc → ℕ
  waiting_count s =
      tally is_waiting (mc.contents s.mailbox)
      + tally is_waiting (map envelope (pc.contents s.priority))
