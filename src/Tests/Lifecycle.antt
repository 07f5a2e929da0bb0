-- ===== src/Tests/Lifecycle.antt =====
-- The task of src/actor.rs for an actor that adds up numbers.
use rsactor.Base.{ℕ, ◌+◌, ◌≤◌, ◌≡◌, refl, true, false, none, some, List, [], ◌∷◌, ◌++◌, length}
use rsactor.Identity.{Identity}
use rsactor.Lifecycle.Program.{
  Program, returns, cut, at_await, started, Envelope, envelope, stop_gracefully, stopping,
}
use rsactor.Lifecycle.Envelope.{process_envelope}
use rsactor.Lifecycle.Channels.{Queued, discard_queued_messages}
use rsactor.Lifecycle.State.{Poll, Loop}
use rsactor.Lifecycle.Arms.{close_subscriptions}
use rsactor.Lifecycle.Loop.{Script, run_loop, run_actor_lifecycle}
use rsactor.Lifecycle.Trace.{tally, is_drop, carries}
use rsactor.Lifecycle.Accounts.{held_by, tokens_dropped}
use rsactor.Lifecycle.Stopping.{on_stop_once}
use rsactor.Lifecycle.Stopping.Messages.{StopsOnce}
use rsactor.Lifecycle.Shutdown.{killed_by, kill_wins}
use rsactor.Lifecycle.Discarded.{is_waiting, is_envelope, optional, discard_accounts}

abbrev pub adder : Program
adder = record {
  Args = ℕ;
  Actor = ℕ;
  Error = ℕ;
  IdleEvent = ℕ;
  Payload = ℕ;
  Reply = ℕ;
  Stream = ℕ;
  Streams = List ℕ;
  on_start = λ n. returns (started n);
  handle = λ a m. returns (a + m, a);
  on_tell_result = λ r. returns tt;
  on_idle = λ a e. returns (a, none);
  on_stop = λ a k. returns (a, none);
  message_type_name = λ m. "u64";
  no_streams = [];
  push = λ s ss. s ∷ ss;
  is_empty = λ ss. elim ss [ [] ↦ true | _ ∷ _ ↦ false ];
}

abbrev pub told_five : Envelope adder
told_five = record { payload = 5; reply_channel = none; ask_edge = none }

abbrev pub asked_six : Envelope adder
asked_six = record {
  payload = 6;
  reply_channel = some (record { number = 0; is_closed = false });
  ask_edge = some 3;
}

-- both channels are ready
abbrev busy : Poll adder
busy = record {
  terminate = none;
  priority = some (some (envelope told_five));
  subscription = none;
  mailbox = some (some (envelope asked_six));
  streams = λ ss. (none, ss);
  quiet = [];
}

-- a graceful stop, with an ask left in the priority channel
abbrev stop : Poll adder
stop = record {
  terminate = none;
  priority = none;
  subscription = none;
  mailbox = some (some stop_gracefully);
  streams = λ ss. (none, ss);
  quiet = envelope asked_six ∷ [];
}

-- a terminate signal while both channels are ready
abbrev kill : Poll adder
kill = record busy { terminate = some (some tt) }

abbrev queued : Queued adder
queued = record {
  mailbox = envelope asked_six ∷ stop_gracefully ∷ envelope told_five ∷ [];
  priority = some (envelope told_five ∷ []);
  subscriptions = none;
}

abbrev script : Script adder
script = record {
  debug_assertions = false;
  with_priority = true;
  subscribed_at_start = some [];
  polls = busy ∷ stop ∷ [];
  left = queued;
}

abbrev pub looping : Loop adder
looping = record {
  actor = 1;
  priority_receiver = true;
  idle_subscribe_receiver = false;
  idle_streams = [];
}

abbrev adder_identity : Identity
adder_identity = record { id = 7; type_name = "Adder" }

tokens_dropped_example :
    (tally (is_drop 3) (run_actor_lifecycle adder 1 script).0
      ≤ tally (carries 3) (run_actor_lifecycle adder 1 script).0)
    × (tally (carries 3) (run_actor_lifecycle adder 1 script).0
        ≤ tally (is_drop 3) (run_actor_lifecycle adder 1 script).0
          + held_by (run_actor_lifecycle adder 1 script).1)
tokens_dropped_example = tokens_dropped adder 1 script 3

-- an actor whose handler never returns from an await
abbrev sleeper : Program
sleeper = record adder { handle = λ a m. cut at_await }

abbrev asleep : Script sleeper
asleep = record {
  debug_assertions = false;
  with_priority = true;
  subscribed_at_start = none;
  polls =
      record {
        terminate = none;
        priority = none;
        subscription = none;
        mailbox = some (some stop_gracefully);
        streams = λ ss. (none, ss);
        quiet = envelope (record { payload = 6; reply_channel = none; ask_edge = some 3 }) ∷ [];
      }
      ∷ [];
  left = record { mailbox = []; priority = some []; subscriptions = none };
}

-- while it sleeps in the drain of a graceful stop, it holds the token that it took up
sleeper_holds :
    (tally (carries 3) (run_actor_lifecycle sleeper 1 asleep).0 ≡ 1)
    × (tally (is_drop 3) (run_actor_lifecycle sleeper 1 asleep).0 ≡ 0)
    × (held_by (run_actor_lifecycle sleeper 1 asleep).1 ≡ 1)
unfolding run_actor_lifecycle tally process_envelope
sleeper_holds = (refl, refl, refl)

on_stop_once_example : StopsOnce adder (run_actor_lifecycle adder 1 script)
on_stop_once_example = on_stop_once adder 1 script

kill_wins_example :
    ((run_loop adder false ([] ++ kill ∷ busy ∷ []) looping).0
      ≡ [] ++ (close_subscriptions adder looping ++ stopping true ∷ []))
    × ((run_loop adder false ([] ++ kill ∷ busy ∷ []) looping).1
        ≡ killed_by adder (adder.on_stop looping.actor true))
unfolding run_loop
kill_wins_example = kill_wins adder false [] (busy ∷ []) kill looping looping [] refl refl

discard_accounts_example :
    length (discard_queued_messages adder adder_identity queued).letters
      + (tally is_waiting queued.mailbox + tally is_waiting (optional queued.priority))
    ≡ tally is_envelope queued.mailbox + tally is_envelope (optional queued.priority)
discard_accounts_example = discard_accounts adder adder_identity queued
