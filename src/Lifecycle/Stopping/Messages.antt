-- ===== src/Lifecycle/Stopping/Messages.antt =====
-- How often `on_stop` is called in the handling of messages, and the other stretches before it.
use rsactor.Base.{
  ℕ, ◌≤◌, ◌≡◌, ◌≢◌, refl, ◌⊎◌, inl, inr, Bool, true, false, Option, none, some, List, [], ◌∷◌, ◌++◌,
  Bool-cases, arith,
}
use rsactor.ActorResult.{was_killed, phase, on_start}
use rsactor.Lifecycle.Program.{
  Program, Cut, by_panic, at_await, by_abort, Call, returns, cut, ReplyChannel, Envelope,
  MailboxMessage, envelope, stop_gracefully, Source, drained, Event, recorded, priority_closed,
  stopping,
}
use rsactor.Lifecycle.Envelope.{
  Handled, done, cut_off, deliver, handle_message, metric_of, drop_edge, release, finish_envelope,
  process_envelope,
}
use rsactor.Lifecycle.State.{Poll, Loop, Flow, continues, ends, breaks}
use rsactor.Lifecycle.Arms.{close_subscriptions, after_envelope, chain, drain_priority, quiesce}
use rsactor.Lifecycle.Loop.{Ending, finished, broken, suspended}
use rsactor.Lifecycle.Trace.{tally, tally-append, is_stop}

module _ (p : Program) where
  abbrev pub stops : List (Event p) → ℕ
  stops = tally is_stop

  -- The last thing done is the only call of `on_stop`, with the flag `killed`.
  abbrev pub StopsLast : List (Event p) → Bool → Type 0
  StopsLast t killed =
      (before : List (Event p)) × (t ≡ before ++ stopping killed ∷ []) × (tally is_stop before ≡ 0)

  abbrev pub trace_of : Handled p → List (Event p)
  trace_of (done t a) = t
  trace_of (cut_off c t) = t

  abbrev pub FlowStops : List (Event p) × Flow p → Type 0
  FlowStops (t, continues l) = stops t ≡ 0
  FlowStops (t, ends r) = StopsLast t (was_killed r) × (phase r ≢ some on_start)
  FlowStops (t, breaks c) = stops t ≤ 1

  -- What the trace and the ending of a task say of `on_stop`: a task that waits at the select has
  -- not called it; one whose code is suspended, panicked or was aborted called it at most once; one that finished called it once, last,
  -- and with the `killed` flag of its result, unless `on_start` failed, when nothing was done.
  abbrev pub StopsOnce : List (Event p) × Ending p → Type 0
  StopsOnce (t, suspended l) = tally is_stop t ≡ 0
  StopsOnce (t, broken c) = tally is_stop t ≤ 1
  StopsOnce (t, finished r) =
      ((phase r ≡ some on_start) × (t ≡ []))
      ⊎ ((phase r ≢ some on_start) × StopsLast t (was_killed r))

  abbrev pub EndingStops : List (Event p) × Ending p → Type 0
  EndingStops (t, suspended l) = stops t ≡ 0
  EndingStops (t, broken c) = stops t ≤ 1
  EndingStops (t, finished r) = StopsLast t (was_killed r) × (phase r ≢ some on_start)

  pub stops-deliver :
      (c : Option ReplyChannel) (a : p.Actor) (r : p.Reply) (o : Call (Unit {0}))
      → p.on_tell_result r ≡ o
      → stops (trace_of (deliver p c a r)) ≡ 0
  unfolding deliver tally
  stops-deliver (some c) a r o e = refl
  stops-deliver none a r (cut c) e = rw (e, deliver)
  stops-deliver none a r (returns _) e = rw (e, deliver)

  pub stops-handle_message :
      (a : p.Actor) (m : Envelope p) (o : Call (p.Actor × p.Reply))
      → p.handle a m.payload ≡ o
      → stops (trace_of (handle_message p a m)) ≡ 0
  unfolding handle_message tally
  stops-handle_message a m (cut c) e = rw (e, handle_message)
  stops-handle_message a m (returns (b, r)) e =
      rw (e, handle_message) (stops-deliver m.reply_channel b r _ refl)

  pub stops-drop_edge : (o : Option ℕ) → stops (drop_edge p o) ≡ 0
  unfolding drop_edge tally
  stops-drop_edge none = refl
  stops-drop_edge (some i) = refl

  stops-release : (c : Cut) (o : Option ℕ) → stops (release p c o) ≡ 0
  unfolding release tally
  stops-release by_panic o = stops-drop_edge o
  stops-release by_abort o = stops-drop_edge o
  stops-release at_await o = refl

  pub stops-finish_envelope :
      (src : Source p) (m : Envelope p) (h : Handled p)
      → stops (trace_of h) ≡ 0
      → stops (trace_of (finish_envelope p src m h)) ≡ 0
  unfolding finish_envelope tally
  stops-finish_envelope src m (done t a) e = omega (
    arith,
    stops-drop_edge m.ask_edge,
    tally-append is_stop t (recorded (metric_of p src) ∷ drop_edge p m.ask_edge),
  )
  stops-finish_envelope src m (cut_off c t) e =
      omega (arith, stops-release c m.ask_edge, tally-append is_stop t (release p c m.ask_edge))

  pub stops-process_envelope :
      (src : Source p) (a : p.Actor) (m : Envelope p)
      → stops (trace_of (process_envelope p src a m)) ≡ 0
  unfolding process_envelope
  stops-process_envelope src a m =
      stops-finish_envelope src m (handle_message p a m) (stops-handle_message a m _ refl)

  pub after_envelope-FlowStops :
      (l : Loop p) (h : Handled p) → stops (trace_of h) ≡ 0 → FlowStops (after_envelope p l h)
  after_envelope-FlowStops l (done t a) e = e
  after_envelope-FlowStops l (cut_off c t) e = omega arith

  pub stops-chain :
      (h : Handled p) (next : p.Actor → Handled p)
      → stops (trace_of h) ≡ 0
      → ((a : p.Actor) → stops (trace_of (next a)) ≡ 0)
      → stops (trace_of (chain p h next)) ≡ 0
  stops-chain (cut_off c t) next e n = e
  stops-chain (done t a) next e n = rest (next a) (n a)
    where
      rest :
          (h : Handled p)
          → stops (trace_of h) ≡ 0
          → stops (trace_of (chain p (done t a) (λ _. h))) ≡ 0
      rest (done u c) k = omega (arith, tally-append is_stop t u)
      rest (cut_off c u) k = omega (arith, tally-append is_stop t u)

  pub stops-drain_priority :
      (debug : Bool) (a : p.Actor) (ms : List (MailboxMessage p))
      → stops (trace_of (drain_priority p debug a ms)) ≡ 0
  unfolding drain_priority tally
  stops-drain_priority debug a [] = refl
  stops-drain_priority true a (stop_gracefully ∷ ms) = refl
  stops-drain_priority false a (stop_gracefully ∷ ms) = stops-drain_priority false a ms
  stops-drain_priority debug a (envelope m ∷ ms) =
      stops-chain (process_envelope p drained a m) (λ c. drain_priority p debug c ms)
        (stops-process_envelope drained a m) (λ c. stops-drain_priority debug c ms)

  pub stops-quiesce :
      (debug : Bool) (l : Loop p) (r : Poll p) → stops (trace_of (quiesce p debug l r)) ≡ 0
  unfolding quiesce tally
  stops-quiesce debug l r = elim (Bool-cases l.priority_receiver) [
    | inl open_ ↦
        rw (open_, quiesce)
          (stops-chain (done (priority_closed ∷ []) l.actor) (λ a. drain_priority p debug a r.quiet)
            refl (λ a. stops-drain_priority debug a r.quiet))
    | inr cleared ↦ rw (cleared, quiesce) refl
  ]

  pub stops-close_subscriptions : (l : Loop p) → stops (close_subscriptions p l) ≡ 0
  unfolding tally
  stops-close_subscriptions l = elim (Bool-cases l.idle_subscribe_receiver) [
    | inl open_ ↦ rw open_
    | inr cleared ↦ rw cleared
  ]

  pub stops-last : (k : Bool) → stops (stopping k ∷ []) ≡ 1
  unfolding tally
  stops-last k = omega arith
