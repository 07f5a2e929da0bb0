-- ===== src/System/Accounting.antt =====
-- What the channels of a task took is what the task takes up and what the channels still hold.
use rsactor.Base.{◌≡◌, List, ◌++◌}
use rsactor.Lifecycle.Program.{Program, Envelope, MailboxMessage}
use rsactor.Lifecycle.State.{Loop}
use rsactor.Lifecycle.Graceful.{envelopes}
use rsactor.Lifecycle.Taken.{from_mailbox, from_priority, taken}
use rsactor.System.{Channel, System}

module _ (p : Program) (mc : Channel (MailboxMessage p)) (pc : Channel (Envelope p)) where
  -- both channels' messages are accounted for
  pub record IsAccounted (s : System p mc pc) : Type 0 where
    pub mailbox_kept :
        envelopes p s.sent ≡ taken from_mailbox s.trace ++ envelopes p (mc.contents s.mailbox)
    pub priority_kept : s.sent_priority ≡ taken from_priority s.trace ++ pc.contents s.priority
