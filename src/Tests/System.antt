-- ===== src/Tests/System.antt =====
-- Senders of src/actor_ref.rs and the task of src/actor.rs with channels of bounded lists.
use rsactor.Base.{ℕ, zero, suc, ◌≡◌, refl, false, Option, none, some, List, [], ◌∷◌, ◌++◌}
use rsactor.Identity.{Identity}
use rsactor.Lifecycle.Program.{Envelope, MailboxMessage, envelope, stop_gracefully}
use rsactor.Tests.Lifecycle.{adder, told_five, asked_six, looping}
use rsactor.System.{System, Channel, External, Action, sends, sends_priority, polls, start, run}

-- A bounded queue: how many messages it takes further, and the messages in it.
abbrev put : {A : Type 0} → A → ℕ × List A → Option (ℕ × List A)
put a (zero, xs) = none
put a (suc n, xs) = some (n, xs ++ a ∷ [])

abbrev take_first : {A : Type 0} → ℕ × List A → Option (A × (ℕ × List A))
take_first (n, []) = none
take_first (n, x ∷ xs) = some (x, (suc n, xs))

contents-put : {A : Type 0} (a : A) (q r : ℕ × List A) → put a q ≡ some r → r.1 ≡ q.1 ++ a ∷ []
contents-put a (zero, xs) r e = cc
contents-put a (suc n, xs) r e = cc

take_first-none : {A : Type 0} (q : ℕ × List A) → take_first q ≡ none → q.1 ≡ []
take_first-none (n, []) e = refl
take_first-none (n, x ∷ xs) e = cc

take_first-some :
    {A : Type 0} (q r : ℕ × List A) (a : A) → take_first q ≡ some (a, r) → q.1 ≡ a ∷ r.1
take_first-some (n, []) r a e = cc
take_first-some (n, x ∷ xs) r a e = cc

abbrev queue : {A : Type 0} → Channel A
queue {A} = record {
  Queue = ℕ × List A;
  new = λ n. (n, []);
  contents = λ q. q.1;
  try_send = put;
  recv = take_first;
  contents-new = λ n. refl;
  contents-try_send = contents-put;
  recv-none = take_first-none;
  recv-some = take_first-some;
}

abbrev mailboxes : Channel (MailboxMessage adder)
mailboxes = queue

abbrev priorities : Channel (Envelope adder)
priorities = queue

abbrev wakes : External adder mailboxes priorities
wakes = record {
  terminate = none;
  subscription = none;
  streams = λ ss. (none, ss);
  senders_gone = false;
}

-- two tells and an ask, of which the task handles one before the stop is sent
abbrev traffic : List (Action adder mailboxes priorities)
traffic =
    sends (envelope told_five)
    ∷ sends_priority asked_six
    ∷ polls wakes
    ∷ sends stop_gracefully
    ∷ sends (envelope told_five)
    ∷ polls wakes
    ∷ polls wakes
    ∷ []

abbrev nobody : Identity
nobody = record { id = 7; type_name = "Adder" }

abbrev after_traffic : System adder mailboxes priorities
after_traffic =
    run adder mailboxes priorities false (start adder mailboxes priorities 8 4 looping) traffic
