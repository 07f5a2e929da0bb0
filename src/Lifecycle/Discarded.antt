-- ===== src/Lifecycle/Discarded.antt =====
-- What becomes of the messages that are still queued when a task ends.
use rsactor.Base.{
  ℕ, ◌+◌, ◌≡◌, refl, Option, none, some, List, [], ◌∷◌, ◌++◌, length, length-append, if◌then◌else◌,
  arith,
}
use rsactor.Identity.{Identity}
use rsactor.Error.{Operation, tell, ask, tell_priority, ask_priority}
use rsactor.Lifecycle.Program.{Program, MailboxMessage, envelope, stop_gracefully}
use rsactor.Lifecycle.Channels.{
  discard_operation, discard, drain_one, discard_priority, Queued, discard_queued_messages,
}
use rsactor.Lifecycle.Trace.{tally}

module _ {p : Program} where
  -- An ask whose caller still waits for the reply.
  abbrev pub is_waiting : MailboxMessage p → ℕ
  is_waiting stop_gracefully = 0
  is_waiting (envelope e) = elim e.reply_channel [
    | none ↦ 0
    | some tx ↦ if tx.is_closed then 0 else 1
  ]

  abbrev pub is_envelope : MailboxMessage p → ℕ
  is_envelope stop_gracefully = 0
  is_envelope (envelope e) = 1

  drain_one-length :
      (i : Identity) (a b : Operation) (ms : List (MailboxMessage p))
      → length (drain_one p i a b ms) + tally is_waiting ms ≡ tally is_envelope ms
  unfolding drain_one discard discard_operation tally
  drain_one-length i a b [] = refl
  drain_one-length i a b (stop_gracefully ∷ ms) = omega (arith, drain_one-length i a b ms)
  drain_one-length i a b (envelope e ∷ ms) = ground (arith, drain_one-length i a b ms)

  abbrev pub optional : Option (List (MailboxMessage p)) → List (MailboxMessage p)
  optional none = []
  optional (some ms) = ms

-- Every message that is still queued when a task ends is accounted for exactly once: the dead
-- letters that the drain records and the asks whose callers still wait, which get their own record
-- from the closed reply channel, are together as many as the envelopes left in the two channels.
pub discard_accounts :
    (p : Program) (i : Identity) (q : Queued p)
    → length (discard_queued_messages p i q).letters
        + (tally is_waiting q.mailbox + tally is_waiting (optional q.priority))
      ≡ tally is_envelope q.mailbox + tally is_envelope (optional q.priority)
unfolding discard_queued_messages tally
discard_accounts p i q = by_priority q.priority
  where
    by_priority :
        (o : Option (List (MailboxMessage p)))
        → length (drain_one p i tell ask q.mailbox ++ discard_priority p i o)
            + (tally is_waiting q.mailbox + tally is_waiting (optional o))
          ≡ tally is_envelope q.mailbox + tally is_envelope (optional o)
    by_priority none = omega (
      arith,
      length-append (drain_one p i tell ask q.mailbox) [],
      drain_one-length i tell ask q.mailbox,
    )
    by_priority (some ms) = omega (
      arith,
      length-append (drain_one p i tell ask q.mailbox)
          (drain_one p i tell_priority ask_priority ms),
      drain_one-length i tell ask q.mailbox,
      drain_one-length i tell_priority ask_priority ms,
    )
