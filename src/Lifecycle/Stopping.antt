-- ===== src/Lifecycle/Stopping.antt =====
-- `on_stop` in the life of a task: how often it is called, when, and with which flag.
pub mod Messages
use rsactor.Base.{
  ℕ, ◌≤◌, ◌≡◌, ◌≢◌, refl, sym, ap, ◌∙◌, ◌⊎◌, inl, inr, Bool, true, false, Option, none, some, List,
  [], ◌∷◌, ◌++◌, Bool-cases, arith,
}
use mathlib.Core.List.{append_assoc}
use rsactor.ActorResult.{was_killed, phase, failure_phase, on_start}
use rsactor.Lifecycle.Program.{
  Program, Call, returns, cut, Started, started, not_started, ReplyChannel, Envelope,
  MailboxMessage, envelope, stop_gracefully, Source, prioritized, received, drained, Event,
  recorded, idling, priority_closed, stopping,
}
use rsactor.Lifecycle.Envelope.{
  Handled, done, cut_off, deliver, handle_message, metric_of, drop_edge, finish_envelope,
  process_envelope,
}
use rsactor.Lifecycle.State.{
  Poll, Loop, Flow, continues, ends, breaks, Arm, terminated, priority_arm, subscribed, mailbox_arm,
  idle_arm, pending, select,
}
use rsactor.Lifecycle.Arms.{
  close_subscriptions, finish_stop, on_terminate, after_envelope, on_priority, chain,
  drain_priority, quiesce, after_quiesce, on_mailbox, finish_idle, on_idle_event, on_arm, iterate,
}
use rsactor.Lifecycle.Loop.{
  Ending, finished, broken, suspended, and_then, run_loop, Script, initial_loop,
  run_actor_lifecycle,
}
use rsactor.Lifecycle.Trace.{tally, tally-append, is_stop}
use rsactor.Lifecycle.Stopping.Messages.{
  stops, StopsLast, trace_of, FlowStops, StopsOnce, EndingStops, stops-deliver,
  stops-handle_message, stops-drop_edge, stops-finish_envelope, stops-process_envelope,
  after_envelope-FlowStops, stops-chain, stops-drain_priority, stops-quiesce,
  stops-close_subscriptions, stops-last,
}

module _ (p : Program) where
  -- `on_stop` and the result after it, where nothing before it called `on_stop`
  finish_stop-FlowStops :
      (before : List (Event p)) (a : p.Actor) (k : Bool) (o : Call (p.Actor × Option p.Error))
      → p.on_stop a k ≡ o
      → stops p before ≡ 0
      → FlowStops p (before ++ stopping k ∷ [], finish_stop p a k)
  unfolding finish_stop was_killed phase
  finish_stop-FlowStops before a k (cut c) e z =
      rw (e, finish_stop)
        (omega (arith, stops-last p k, tally-append is_stop before (stopping k ∷ [])))
  finish_stop-FlowStops before a true (returns (b, none)) e z =
      rw (e, finish_stop) ((before, refl, z), λ q. cc)
  finish_stop-FlowStops before a false (returns (b, none)) e z =
      rw (e, finish_stop) ((before, refl, z), λ q. cc)
  finish_stop-FlowStops before a true (returns (b, some x)) e z =
      rw (e, finish_stop) ((before, refl, z), λ q. cc)
  finish_stop-FlowStops before a false (returns (b, some x)) e z =
      rw (e, finish_stop) ((before, refl, z), λ q. cc)

  finish_idle-FlowStops :
      (before : List (Event p)) (a : p.Actor) (x : p.Error) (o : Call (p.Actor × Option p.Error))
      → p.on_stop a false ≡ o
      → stops p before ≡ 0
      → FlowStops p (before ++ stopping false ∷ [], finish_idle p a x)
  unfolding finish_idle was_killed phase
  finish_idle-FlowStops before a x (cut c) e z =
      rw (e, finish_idle)
        (omega (arith, stops-last p false, tally-append is_stop before (stopping false ∷ [])))
  finish_idle-FlowStops before a x (returns (b, none)) e z =
      rw (e, finish_idle) ((before, refl, z), λ q. cc)
  finish_idle-FlowStops before a x (returns (b, some y)) e z =
      rw (e, finish_idle) ((before, refl, z), λ q. cc)

  on_terminate-FlowStops :
      (l : Loop p) (signal : Option (Unit {0})) → FlowStops p (on_terminate p l signal)
  unfolding on_terminate
  on_terminate-FlowStops l (some _) =
      finish_stop-FlowStops (close_subscriptions p l) l.actor true _ refl
        (stops-close_subscriptions p l)
  on_terminate-FlowStops l none =
      finish_stop-FlowStops (close_subscriptions p l) l.actor false _ refl
        (stops-close_subscriptions p l)

  on_priority-FlowStops :
      (debug : Bool) (l : Loop p) (m : Option (MailboxMessage p))
      → FlowStops p (on_priority p debug l m)
  unfolding on_priority tally
  on_priority-FlowStops debug l none = refl
  on_priority-FlowStops true l (some stop_gracefully) = omega arith
  on_priority-FlowStops false l (some stop_gracefully) = refl
  on_priority-FlowStops debug l (some (envelope m)) =
      after_envelope-FlowStops p l _ (stops-process_envelope p prioritized l.actor m)

  after_quiesce-FlowStops :
      (l : Loop p) (h : Handled p) → stops p (trace_of p h) ≡ 0 → FlowStops p (after_quiesce p l h)
  after_quiesce-FlowStops l (cut_off c t) e =
      omega (arith, stops-close_subscriptions p l, tally-append is_stop (close_subscriptions p l) t)
  after_quiesce-FlowStops l (done t a) e =
      rw (← append_assoc (close_subscriptions p l) t (stopping false ∷ [])) (
        finish_stop-FlowStops (close_subscriptions p l ++ t) a false _ refl (
          omega (
            arith,
            stops-close_subscriptions p l,
            tally-append is_stop (close_subscriptions p l) t,
          )))

  on_mailbox-FlowStops :
      (debug : Bool) (l : Loop p) (r : Poll p) (m : Option (MailboxMessage p))
      → FlowStops p (on_mailbox p debug l r m)
  unfolding on_mailbox
  on_mailbox-FlowStops debug l r (some (envelope m)) =
      after_envelope-FlowStops p l _ (stops-process_envelope p received l.actor m)
  on_mailbox-FlowStops debug l r (some stop_gracefully) =
      after_quiesce-FlowStops l _ (stops-quiesce p debug l r)
  on_mailbox-FlowStops debug l r none = after_quiesce-FlowStops l _ (stops-quiesce p debug l r)

  on_idle_event-FlowStops :
      (l : Loop p) (ss : p.Streams) (event : p.IdleEvent) (o : Call (p.Actor × Option p.Error))
      → p.on_idle l.actor event ≡ o
      → FlowStops p (on_idle_event p l ss event)
  unfolding on_idle_event tally
  on_idle_event-FlowStops l ss event (cut c) e = rw (e, on_idle_event) (omega arith)
  on_idle_event-FlowStops l ss event (returns (a, none)) e = rw (e, on_idle_event) refl
  on_idle_event-FlowStops l ss event (returns (a, some x)) e =
      rw (e, on_idle_event)
        (finish_idle-FlowStops (idling event ∷ close_subscriptions p l) a x _ refl
          (omega (arith, stops-close_subscriptions p l)))

  on_arm-FlowStops :
      (debug : Bool) (l : Loop p) (r : Poll p) (a : Arm p) → FlowStops p (on_arm p debug l r a)
  unfolding on_arm tally
  on_arm-FlowStops debug l r (terminated t) = on_terminate-FlowStops l t
  on_arm-FlowStops debug l r (priority_arm m) = on_priority-FlowStops debug l m
  on_arm-FlowStops debug l r (subscribed s) = refl
  on_arm-FlowStops debug l r (mailbox_arm m) = on_mailbox-FlowStops debug l r m
  on_arm-FlowStops debug l r (idle_arm event) = on_idle_event-FlowStops l _ event _ refl
  on_arm-FlowStops debug l r pending = refl

  and_then-EndingStops :
      (x : List (Event p) × Flow p) (next : Loop p → List (Event p) × Ending p)
      → FlowStops p x
      → ((l : Loop p) → EndingStops p (next l))
      → EndingStops p (and_then p x next)
  unfolding and_then
  and_then-EndingStops (t, breaks c) next e n = e
  and_then-EndingStops (t, ends result) next e n = e
  and_then-EndingStops (t, continues l) next e n = rest (next l) (n l)
    where
      rest : (y : List (Event p) × Ending p) → EndingStops p y → EndingStops p (t ++ y.0, y.1)
      rest (u, broken c) k = omega (arith, tally-append is_stop t u)
      rest (u, suspended m) k = omega (arith, tally-append is_stop t u)
      rest (u, finished r) ((before, shape, z), q) = (
        (
          t ++ before,
          ap (◌++◌ t) shape ∙ sym (append_assoc t before (stopping (was_killed r) ∷ [])),
          omega (arith, tally-append is_stop t before),
        ),
        q,
      )

  run_loop-EndingStops :
      (debug : Bool) (rs : List (Poll p)) (l : Loop p) → EndingStops p (run_loop p debug rs l)
  unfolding run_loop iterate tally
  run_loop-EndingStops debug [] l = refl
  run_loop-EndingStops debug (r ∷ rs) l =
      and_then-EndingStops _ (run_loop p debug rs) (on_arm-FlowStops debug l r (select p l r))
        (λ m. run_loop-EndingStops debug rs m)

  StopsOnce-EndingStops : (x : List (Event p) × Ending p) → EndingStops p x → StopsOnce p x
  StopsOnce-EndingStops (t, suspended l) e = e
  StopsOnce-EndingStops (t, broken c) e = e
  StopsOnce-EndingStops (t, finished r) (last, q) = inr (q, last)

-- `on_stop` is called exactly once in the life of an actor whose `on_start` succeeded and whose task
-- finishes: it is the last thing that the task does, and its `killed` argument is that of the
-- result. A failed `on_start` is followed by nothing. A task whose code
-- panicked, was aborted at an await or is suspended at one called it at most once, and one that
-- waits at the select has not called it.
pub on_stop_once :
    (p : Program) (args : p.Args) (s : Script p) → StopsOnce p (run_actor_lifecycle p args s)
unfolding run_actor_lifecycle tally phase failure_phase
on_stop_once p args s = by_start (p.on_start args) refl
  where
    by_start :
        (o : Call (Started p.Actor p.Error))
        → p.on_start args ≡ o
        → StopsOnce p (run_actor_lifecycle p args s)
    by_start (cut c) e = rw (e, run_actor_lifecycle) (omega arith)
    by_start (returns (not_started x)) e = rw (e, run_actor_lifecycle) (inl (refl, refl))
    by_start (returns (started a)) e =
        rw (e, run_actor_lifecycle)
          (StopsOnce-EndingStops p _
            (run_loop-EndingStops p s.debug_assertions s.polls (initial_loop p s a)))
