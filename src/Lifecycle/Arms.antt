-- ===== src/Lifecycle/Arms.antt =====
-- The arms of the loop of `run_actor_lifecycle` in src/actor.rs. `debug` says whether
-- `debug_assert!` is compiled in.
use rsactor.Base.{Bool, true, false, Option, none, some, List, [], ◌∷◌, ◌++◌, if◌then◌else◌}
use rsactor.ActorResult.{completed, failed, idle_failure, stop_failure, idle_then_stop_failure}
use rsactor.Lifecycle.Program.{
  Program, by_panic, returns, cut, MailboxMessage, envelope, stop_gracefully, prioritized, received,
  drained, Event, recorded, idling, idle_event, subscriptions_closed, priority_closed, stopping,
}
use rsactor.Lifecycle.Envelope.{Handled, done, cut_off, process_envelope}
use rsactor.Lifecycle.State.{
  Poll, Loop, Flow, continues, ends, breaks, Arm, terminated, priority_arm, subscribed, mailbox_arm,
  idle_arm, pending, poll_streams, select,
}

module _ (p : Program) where
  open p use {
    Args, Actor, Error, IdleEvent, Stream, Streams, on_idle, on_stop, no_streams, push, is_empty,
  }

  abbrev pub close_subscriptions : Loop p → List (Event p)
  close_subscriptions l = if l.idle_subscribe_receiver then subscriptions_closed ∷ [] else []

  -- `on_stop`, and the result that the terminate and the mailbox arm make of it
  unfoldable pub finish_stop : Actor → Bool → Flow p
  finish_stop a killed = elim (on_stop a killed) [
    | cut c ↦ breaks c
    | returns result ↦ elim result.1 [
      | some e ↦ ends (failed (stop_failure result.0 e) killed)
      | none ↦ ends (completed result.0 killed)
    ]
  ]

  -- the terminate arm
  unfoldable pub on_terminate : Loop p → Option (Unit {0}) → List (Event p) × Flow p
  unfolding finish_stop
  on_terminate l signal =
      let killed : Bool = elim signal [ some _ ↦ true | none ↦ false ] in
      (close_subscriptions l ++ stopping killed ∷ [], finish_stop l.actor killed)

  abbrev pub after_envelope : Loop p → Handled p → List (Event p) × Flow p
  after_envelope l (done t a) = (t, continues (record l { actor = a }))
  after_envelope l (cut_off c t) = (t, breaks c)

  -- the priority arm
  unfoldable pub on_priority : Bool → Loop p → Option (MailboxMessage p) → List (Event p) × Flow p
  on_priority debug l none = ([], continues (record l { priority_receiver = false }))
  on_priority debug l (some stop_gracefully) = ([], if debug then breaks by_panic else continues l)
  on_priority debug l (some (envelope e)) =
      after_envelope l (process_envelope p prioritized l.actor e)

  -- the subscription arm
  unfoldable pub on_subscription : Loop p → Option Stream → Loop p
  on_subscription l none = record l { idle_subscribe_receiver = false }
  on_subscription l (some s) = record l { idle_streams = push s l.idle_streams }

  -- what a stretch did comes before what the next one does
  abbrev pub chain : Handled p → (Actor → Handled p) → Handled p
  chain (cut_off c t) next = cut_off c t
  chain (done t a) next = elim (next a) [
    | done u b ↦ done (t ++ u) b
    | cut_off c u ↦ cut_off c (t ++ u)
  ]

  -- the drain of the priority channel at a graceful stop
  unfoldable pub drain_priority : Bool → Actor → List (MailboxMessage p) → Handled p
  drain_priority debug a [] = done [] a
  drain_priority debug a (stop_gracefully ∷ ms) =
      let rest = drain_priority debug a ms in if debug then cut_off by_panic [] else rest
  drain_priority debug a (envelope e ∷ ms) =
      chain (process_envelope p drained a e) (λ b. drain_priority debug b ms)

  unfoldable pub quiesce : Bool → Loop p → Poll p → Handled p
  unfolding drain_priority
  quiesce debug l r =
      if l.priority_receiver
      then chain (done (priority_closed ∷ []) l.actor) (λ a. drain_priority debug a r.quiet)
      else done [] l.actor

  abbrev pub after_quiesce : Loop p → Handled p → List (Event p) × Flow p
  after_quiesce l (done t a) =
      (close_subscriptions l ++ (t ++ stopping false ∷ []), finish_stop a false)
  after_quiesce l (cut_off c t) = (close_subscriptions l ++ t, breaks c)

  -- the mailbox arm
  unfoldable pub on_mailbox :
      Bool → Loop p → Poll p → Option (MailboxMessage p) → List (Event p) × Flow p
  unfolding finish_stop quiesce
  on_mailbox debug l r (some (envelope e)) =
      after_envelope l (process_envelope p received l.actor e)
  on_mailbox debug l r (some stop_gracefully) = after_quiesce l (quiesce debug l r)
  on_mailbox debug l r none = after_quiesce l (quiesce debug l r)

  -- the result after a failed `on_idle`, by what `on_stop` gives
  unfoldable pub finish_idle : Actor → Error → Flow p
  finish_idle a e = elim (on_stop a false) [
    | cut c ↦ breaks c
    | returns result ↦ elim result.1 [
      | some stop_err ↦ ends (failed (idle_then_stop_failure result.0 e stop_err) false)
      | none ↦ ends (failed (idle_failure result.0 e) false)
    ]
  ]

  -- the idle arm; `ss` is the set of streams that the poll left
  unfoldable pub on_idle_event : Loop p → Streams → IdleEvent → List (Event p) × Flow p
  unfolding finish_idle
  on_idle_event l ss event = elim (on_idle l.actor event) [
    | cut c ↦ (idling event ∷ [], breaks c)
    | returns result ↦ elim result.1 [
      | none ↦ (
        idling event ∷ recorded idle_event ∷ [],
        continues (record l { actor = result.0; idle_streams = ss }),
      )
      | some e ↦
          (idling event ∷ (close_subscriptions l ++ stopping false ∷ []), finish_idle result.0 e)
    ]
  ]

  unfoldable pub on_arm : Bool → Loop p → Poll p → Arm p → List (Event p) × Flow p
  unfolding on_terminate on_priority on_subscription on_mailbox on_idle_event poll_streams
  on_arm debug l r (terminated t) = on_terminate l t
  on_arm debug l r (priority_arm m) = on_priority debug l m
  on_arm debug l r (subscribed s) = ([], continues (on_subscription l s))
  on_arm debug l r (mailbox_arm m) = on_mailbox debug l r m
  on_arm debug l r (idle_arm event) = on_idle_event l (poll_streams p l r).1 event
  on_arm debug l r pending = ([], continues (record l { idle_streams = (poll_streams p l r).1 }))

  -- one round of the loop
  unfoldable pub iterate : Bool → Loop p → Poll p → List (Event p) × Flow p
  unfolding select on_arm
  iterate debug l r = on_arm debug l r (select p l r)
