-- ===== src/Lifecycle/Balance.antt =====
-- Two counts over what a task does that agree, but for the last call of the actor's code where this
-- call did not return or ended the task.
pub mod Messages
use rsactor.Base.{
  ℕ, ◌+◌, ◌≤◌, ◌≡◌, refl, inl, inr, Bool, true, false, Option, none, some, List, [], ◌∷◌, ◌++◌,
  Bool-cases, arith,
}
use rsactor.ActorResult.{completed, failed, stop_failure, idle_failure, idle_then_stop_failure}
use rsactor.Lifecycle.Program.{
  Program, Cut, by_panic, Call, returns, cut, Started, started, not_started, ReplyChannel, Envelope,
  MailboxMessage, envelope, stop_gracefully, Source, prioritized, received, drained, Event,
  handling, replied, told, recorded, idling, idle_event, subscriptions_closed, priority_closed,
  stopping,
}
use rsactor.Lifecycle.Envelope.{
  Handled, done, cut_off, deliver, handle_message, metric_of, drop_edge, finish_envelope,
  process_envelope,
}
use rsactor.Lifecycle.State.{
  Poll, Loop, Flow, continues, ends, breaks, Arm, terminated, priority_arm, subscribed, mailbox_arm,
  idle_arm, pending, select,
}
use rsactor.Lifecycle.Arms.{
  close_subscriptions, finish_stop, on_terminate, after_envelope, on_priority, chain,
  drain_priority, quiesce, after_quiesce, on_mailbox, finish_idle, on_idle_event, on_arm, iterate,
}
use rsactor.Lifecycle.Loop.{
  Ending, finished, broken, suspended, and_then, run_loop, Script, initial_loop,
  run_actor_lifecycle,
}
use rsactor.Lifecycle.Trace.{tally, tally-append}
use rsactor.Lifecycle.Balance.Messages.{
  IsBalanced, Within, IsFree, HandledBalanced, FlowBalanced, EndingBalanced, deliver-IsFree,
  handle_message-IsFree, finish_envelope-Balanced, process_envelope-Balanced,
  after_envelope-Balanced, chain-Balanced, drain_priority-Balanced, quiesce-Balanced,
}

module _ {p : Program} (f g : Event p → ℕ) (s_end : ℕ) (s_cut : Cut → ℕ)
    (b : IsBalanced f g s_end s_cut) where
  close_subscriptions-free :
      (l : Loop p)
      → (tally f (close_subscriptions p l) ≡ 0) × (tally g (close_subscriptions p l) ≡ 0)
  unfolding tally
  close_subscriptions-free l = ground (arith, b.subscriptions_free)

  finish_stop-Balanced :
      (t : List (Event p)) (a : p.Actor) (k : Bool)
      → tally f t ≡ tally g t
      → FlowBalanced f g s_end s_cut b (t, finish_stop p a k)
  unfolding finish_stop
  finish_stop-Balanced t a k e =
      elim (p.on_stop a k)
        as (λ o. FlowBalanced f g s_end s_cut b (
          t,
          elim o [
            | cut c ↦ breaks c
            | returns result ↦ elim result.1 [
              | some e ↦ ends (failed (stop_failure result.0 e) k)
              | none ↦ ends (completed result.0 k)
            ]
          ],
        )) [
          | cut c ↦ omega arith
          | returns result ↦
              elim result.1
                as (λ o. FlowBalanced f g s_end s_cut b (
                  t,
                  elim o [
                    | some e ↦ ends (failed (stop_failure result.0 e) k)
                    | none ↦ ends (completed result.0 k)
                  ],
                )) [ some failure ↦ omega arith | none ↦ omega arith ]
        ]

  stopping-free : (k : Bool) → (tally f (stopping k ∷ []) ≡ 0) × (tally g (stopping k ∷ []) ≡ 0)
  unfolding tally
  stopping-free k = omega (arith, b.stopping_free k)

  on_terminate-Balanced :
      (l : Loop p) (signal : Option (Unit {0}))
      → FlowBalanced f g s_end s_cut b (on_terminate p l signal)
  unfolding on_terminate
  on_terminate-Balanced l (some _) = finish_stop-Balanced _ l.actor true (
      omega (
        arith,
        close_subscriptions-free l,
        stopping-free true,
        tally-append f (close_subscriptions p l) (stopping true ∷ []),
        tally-append g (close_subscriptions p l) (stopping true ∷ []),
      ))
  on_terminate-Balanced l none = finish_stop-Balanced _ l.actor false (
      omega (
        arith,
        close_subscriptions-free l,
        stopping-free false,
        tally-append f (close_subscriptions p l) (stopping false ∷ []),
        tally-append g (close_subscriptions p l) (stopping false ∷ []),
      ))

  on_priority-Balanced :
      (debug : Bool) (l : Loop p) (m : Option (MailboxMessage p))
      → FlowBalanced f g s_end s_cut b (on_priority p debug l m)
  unfolding on_priority tally
  on_priority-Balanced debug l none = refl
  on_priority-Balanced true l (some stop_gracefully) = omega arith
  on_priority-Balanced false l (some stop_gracefully) = refl
  on_priority-Balanced debug l (some (envelope e)) =
      after_envelope-Balanced f g s_end s_cut b l _
        (process_envelope-Balanced f g s_end s_cut b prioritized l.actor e)

  after_quiesce-Balanced :
      (l : Loop p) (h : Handled p)
      → HandledBalanced f g s_end s_cut b h
      → FlowBalanced f g s_end s_cut b (after_quiesce p l h)
  after_quiesce-Balanced l (cut_off c t) e = omega (
    arith,
    close_subscriptions-free l,
    tally-append f (close_subscriptions p l) t,
    tally-append g (close_subscriptions p l) t,
  )
  after_quiesce-Balanced l (done t a) e = finish_stop-Balanced _ a false (
      omega (
        arith,
        close_subscriptions-free l,
        stopping-free false,
        tally-append f t (stopping false ∷ []),
        tally-append g t (stopping false ∷ []),
        tally-append f (close_subscriptions p l) (t ++ stopping false ∷ []),
        tally-append g (close_subscriptions p l) (t ++ stopping false ∷ []),
      ))

  on_mailbox-Balanced :
      (debug : Bool) (l : Loop p) (r : Poll p) (m : Option (MailboxMessage p))
      → FlowBalanced f g s_end s_cut b (on_mailbox p debug l r m)
  unfolding on_mailbox
  on_mailbox-Balanced debug l r (some (envelope e)) =
      after_envelope-Balanced f g s_end s_cut b l _
        (process_envelope-Balanced f g s_end s_cut b received l.actor e)
  on_mailbox-Balanced debug l r (some stop_gracefully) =
      after_quiesce-Balanced l _ (quiesce-Balanced f g s_end s_cut b debug l r)
  on_mailbox-Balanced debug l r none =
      after_quiesce-Balanced l _ (quiesce-Balanced f g s_end s_cut b debug l r)

  finish_idle-Balanced :
      (t : List (Event p)) (a : p.Actor) (x : p.Error)
      → Within f g s_end s_cut b s_end t
      → FlowBalanced f g s_end s_cut b (t, finish_idle p a x)
  unfolding finish_idle
  finish_idle-Balanced t a x e =
      elim (p.on_stop a false)
        as (λ o. FlowBalanced f g s_end s_cut b (
          t,
          elim o [
            | cut c ↦ breaks c
            | returns result ↦ elim result.1 [
              | some y ↦ ends (failed (idle_then_stop_failure result.0 x y) false)
              | none ↦ ends (failed (idle_failure result.0 x) false)
            ]
          ],
        )) [
          | cut c ↦ omega (arith, b.slack c)
          | returns result ↦
              elim result.1
                as (λ o. FlowBalanced f g s_end s_cut b (
                  t,
                  elim o [
                    | some y ↦ ends (failed (idle_then_stop_failure result.0 x y) false)
                    | none ↦ ends (failed (idle_failure result.0 x) false)
                  ],
                )) [ some y ↦ e | none ↦ e ]
        ]

  idling-Within :
      (l : Loop p) (event : p.IdleEvent)
      → Within f g s_end s_cut b s_end
          (idling event ∷ (close_subscriptions p l ++ stopping false ∷ []))
  unfolding tally
  idling-Within l event = omega (
    arith,
    b.idle_cut event,
    b.stopping_free false,
    close_subscriptions-free l,
    tally-append f (close_subscriptions p l) (stopping false ∷ []),
    tally-append g (close_subscriptions p l) (stopping false ∷ []),
  )

  on_idle_event-Balanced :
      (l : Loop p) (ss : p.Streams) (event : p.IdleEvent) (o : Call (p.Actor × Option p.Error))
      → p.on_idle l.actor event ≡ o
      → FlowBalanced f g s_end s_cut b (on_idle_event p l ss event)
  unfolding on_idle_event tally
  on_idle_event-Balanced l ss event (cut c) e =
      rw (e, on_idle_event) (omega (arith, b.idle_cut event, b.slack c))
  on_idle_event-Balanced l ss event (returns (a, none)) e =
      rw (e, on_idle_event) (omega (arith, b.idle_done event))
  on_idle_event-Balanced l ss event (returns (a, some x)) e =
      rw (e, on_idle_event)
        (finish_idle-Balanced (idling event ∷ (close_subscriptions p l ++ stopping false ∷ [])) a x
          (idling-Within l event))

  on_arm-Balanced :
      (debug : Bool) (l : Loop p) (r : Poll p) (a : Arm p)
      → FlowBalanced f g s_end s_cut b (on_arm p debug l r a)
  unfolding on_arm tally
  on_arm-Balanced debug l r (terminated t) = on_terminate-Balanced l t
  on_arm-Balanced debug l r (priority_arm m) = on_priority-Balanced debug l m
  on_arm-Balanced debug l r (subscribed s) = refl
  on_arm-Balanced debug l r (mailbox_arm m) = on_mailbox-Balanced debug l r m
  on_arm-Balanced debug l r (idle_arm event) = on_idle_event-Balanced l _ event _ refl
  on_arm-Balanced debug l r pending = refl

  and_then-Balanced :
      (x : List (Event p) × Flow p) (next : Loop p → List (Event p) × Ending p)
      → FlowBalanced f g s_end s_cut b x
      → ((l : Loop p) → EndingBalanced f g s_end s_cut b (next l))
      → EndingBalanced f g s_end s_cut b (and_then p x next)
  unfolding and_then
  and_then-Balanced (t, breaks c) next e n = e
  and_then-Balanced (t, ends result) next e n = e
  and_then-Balanced (t, continues l) next e n = rest (next l) (n l)
    where
      rest :
          (y : List (Event p) × Ending p)
          → EndingBalanced f g s_end s_cut b y
          → EndingBalanced f g s_end s_cut b (t ++ y.0, y.1)
      rest (u, finished result) k = omega (arith, tally-append f t u, tally-append g t u)
      rest (u, broken c) k = omega (arith, tally-append f t u, tally-append g t u)
      rest (u, suspended m) k = omega (arith, tally-append f t u, tally-append g t u)

  run_loop-Balanced :
      (debug : Bool) (rs : List (Poll p)) (l : Loop p)
      → EndingBalanced f g s_end s_cut b (run_loop p debug rs l)
  unfolding run_loop iterate tally
  run_loop-Balanced debug [] l = refl
  run_loop-Balanced debug (r ∷ rs) l =
      and_then-Balanced _ (run_loop p debug rs) (on_arm-Balanced debug l r (select p l r))
        (λ m. run_loop-Balanced debug rs m)

  pub lifecycle-Balanced :
      (args : p.Args) (s : Script p)
      → EndingBalanced f g s_end s_cut b (run_actor_lifecycle p args s)
  unfolding run_actor_lifecycle tally
  lifecycle-Balanced args s = by_start (p.on_start args) refl
    where
      by_start :
          (o : Call (Started p.Actor p.Error))
          → p.on_start args ≡ o
          → EndingBalanced f g s_end s_cut b (run_actor_lifecycle p args s)
      by_start (cut c) e = rw (e, run_actor_lifecycle) (omega arith)
      by_start (returns (not_started x)) e = rw (e, run_actor_lifecycle) (omega arith)
      by_start (returns (started a)) e =
          rw (e, run_actor_lifecycle)
            (run_loop-Balanced s.debug_assertions s.polls (initial_loop p s a))
