-- ===== src/DeadLetter.antt =====
-- src/dead_letter.rs: the record of a message that was not delivered, and the counter that tests
-- read. The `tracing` record of a dead letter is the entry of the list that `record_erased` extends.
use rsactor.Base.{ℕ, suc, ◌%◌, ◌^◌, String, List, [], ◌∷◌, ◌++◌}
use rsactor.Identity.{Identity}
use rsactor.Error.{Operation}

pub data DeadLetterReason : Type 0 where
  actor_stopped timed_out reply_dropped discarded_at_shutdown runtime_unavailable : DeadLetterReason

-- `Display`
pub show_reason : DeadLetterReason → String
show_reason actor_stopped = "actor stopped"
show_reason timed_out = "timeout"
show_reason reply_dropped = "reply dropped"
show_reason discarded_at_shutdown = "discarded at shutdown"
show_reason runtime_unavailable = "runtime unavailable"

pub record DeadLetter : Type 0 where
  pub identity : Identity
  pub reason : DeadLetterReason
  pub operation : Operation
  pub message_type : String

-- what was logged, oldest first, and `DEAD_LETTER_COUNT`
pub record Log : Type 0 where
  pub letters : List DeadLetter
  pub letter_count : ℕ

unfoldable pub record_erased : Log → DeadLetter → Log
record_erased l d = record {
  letters = l.letters ++ d ∷ [];
  letter_count = suc l.letter_count % 2 ^ 64;
}

-- `reset_dead_letter_count`
pub reset_dead_letter_count : Log → Log
reset_dead_letter_count l = record l { letter_count = 0 }
