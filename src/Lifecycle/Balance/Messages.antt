-- ===== src/Lifecycle/Balance/Messages.antt =====
-- Two counts over the handling of messages that agree, but for a handler that did not return.
use rsactor.Base.{
  ℕ, ◌+◌, ◌≤◌, ◌≡◌, refl, inl, inr, Bool, true, false, Option, none, some, List, [], ◌∷◌,
  Bool-cases, arith,
}
use rsactor.Lifecycle.Program.{
  Program, Cut, returns, cut, ReplyChannel, Envelope, MailboxMessage, envelope, stop_gracefully,
  Source, drained, Event, handling, replied, told, recorded, idling, idle_event,
  subscriptions_closed, priority_closed, stopping,
}
use rsactor.Lifecycle.Envelope.{
  Handled, done, cut_off, deliver, handle_message, metric_of, drop_edge, release, finish_envelope,
  process_envelope,
}
use rsactor.Lifecycle.State.{Poll, Loop, Flow, continues, ends, breaks}
use rsactor.Lifecycle.Arms.{after_envelope, chain, drain_priority, quiesce}
use rsactor.Lifecycle.Loop.{Ending, finished, broken, suspended}
use rsactor.Lifecycle.Trace.{tally, tally-append}

-- `f` and `g` give the same total over each message and each idle event that is done; `s_end` and
-- `s_cut` bound by how much `f` is ahead at the end of the task and where its code is cut.
pub record IsBalanced {p : Program} (f g : Event p → ℕ) (s_end : ℕ) (s_cut : Cut → ℕ) : Type 0 where
  pub replied_free :
      (c : ReplyChannel) (r : p.Reply) → (f (replied c r) ≡ 0) × (g (replied c r) ≡ 0)
  pub told_free : (r : p.Reply) → (f (told r) ≡ 0) × (g (told r) ≡ 0)
  pub subscriptions_free : (f subscriptions_closed ≡ 0) × (g subscriptions_closed ≡ 0)
  pub priority_free : (f priority_closed ≡ 0) × (g priority_closed ≡ 0)
  pub stopping_free : (k : Bool) → (f (stopping k) ≡ 0) × (g (stopping k) ≡ 0)
  pub message_done :
      (src : Source p) (e : Envelope p)
      → f (handling src e) + (f (recorded (metric_of p src)) + tally f (drop_edge p e.ask_edge))
        ≡ g (handling src e) + (g (recorded (metric_of p src)) + tally g (drop_edge p e.ask_edge))
  pub message_cut :
      (c : Cut) (src : Source p) (e : Envelope p)
      → (g (handling src e) + tally g (release p c e.ask_edge)
          ≤ f (handling src e) + tally f (release p c e.ask_edge))
        × (f (handling src e) + tally f (release p c e.ask_edge)
            ≤ g (handling src e) + tally g (release p c e.ask_edge) + s_cut c)
  pub idle_done :
      (e : p.IdleEvent)
      → f (idling e) + f (recorded idle_event) ≡ g (idling e) + g (recorded idle_event)
  pub idle_cut :
      (e : p.IdleEvent) → (g (idling e) ≤ f (idling e)) × (f (idling e) ≤ g (idling e) + s_end)
  pub slack : (c : Cut) → s_end ≤ s_cut c

module _ {p : Program} (f g : Event p → ℕ) (s_end : ℕ) (s_cut : Cut → ℕ)
    (b : IsBalanced f g s_end s_cut) where
  abbrev pub Within : ℕ → List (Event p) → Type 0
  Within s t = (tally g t ≤ tally f t) × (tally f t ≤ tally g t + s)

  abbrev pub IsFree : Handled p → Type 0
  IsFree (done t a) = (tally f t ≡ 0) × (tally g t ≡ 0)
  IsFree (cut_off c t) = (tally f t ≡ 0) × (tally g t ≡ 0)

  abbrev pub HandledBalanced : Handled p → Type 0
  HandledBalanced (done t a) = tally f t ≡ tally g t
  HandledBalanced (cut_off c t) = Within (s_cut c) t

  abbrev pub FlowBalanced : List (Event p) × Flow p → Type 0
  FlowBalanced (t, continues l) = tally f t ≡ tally g t
  FlowBalanced (t, ends r) = Within s_end t
  FlowBalanced (t, breaks c) = Within (s_cut c) t

  abbrev pub EndingBalanced : List (Event p) × Ending p → Type 0
  EndingBalanced (t, suspended l) = tally f t ≡ tally g t
  EndingBalanced (t, finished r) = Within s_end t
  EndingBalanced (t, broken c) = Within (s_cut c) t

  pub deliver-IsFree :
      (c : Option ReplyChannel) (a : p.Actor) (r : p.Reply) → IsFree (deliver p c a r)
  unfolding deliver tally
  deliver-IsFree (some c) a r = ground (arith, b.replied_free c r)
  deliver-IsFree none a r =
      elim (p.on_tell_result r)
        as (λ o.
          IsFree (elim o [ cut c ↦ cut_off c (told r ∷ []) | returns _ ↦ done (told r ∷ []) a ])) [
            | cut c ↦ ground (arith, b.told_free r)
            | returns _ ↦ ground (arith, b.told_free r)
          ]

  pub handle_message-IsFree : (a : p.Actor) (e : Envelope p) → IsFree (handle_message p a e)
  unfolding handle_message tally
  handle_message-IsFree a e =
      elim (p.handle a e.payload)
        as (λ o. IsFree (elim o [
          | cut c ↦ cut_off c []
          | returns result ↦ deliver p e.reply_channel result.0 result.1
        ])) [
          | cut c ↦ (refl, refl)
          | returns result ↦ deliver-IsFree e.reply_channel result.0 result.1
        ]

  pub finish_envelope-Balanced :
      (src : Source p) (e : Envelope p) (h : Handled p)
      → IsFree h
      → HandledBalanced (finish_envelope p src e h)
  unfolding finish_envelope tally
  finish_envelope-Balanced src e (done t a) free = omega (
    arith,
    tally-append f t (recorded (metric_of p src) ∷ drop_edge p e.ask_edge),
    tally-append g t (recorded (metric_of p src) ∷ drop_edge p e.ask_edge),
    b.message_done src e,
  )
  finish_envelope-Balanced src e (cut_off c t) free = omega (
    arith,
    tally-append f t (release p c e.ask_edge),
    tally-append g t (release p c e.ask_edge),
    b.message_cut c src e,
  )

  pub process_envelope-Balanced :
      (src : Source p) (a : p.Actor) (e : Envelope p) → HandledBalanced (process_envelope p src a e)
  unfolding process_envelope
  process_envelope-Balanced src a e =
      finish_envelope-Balanced src e (handle_message p a e) (handle_message-IsFree a e)

  pub after_envelope-Balanced :
      (l : Loop p) (h : Handled p) → HandledBalanced h → FlowBalanced (after_envelope p l h)
  after_envelope-Balanced l (done t a) e = e
  after_envelope-Balanced l (cut_off c t) e = e

  pub chain-Balanced :
      (h : Handled p) (next : p.Actor → Handled p)
      → HandledBalanced h
      → ((a : p.Actor) → HandledBalanced (next a))
      → HandledBalanced (chain p h next)
  chain-Balanced (cut_off c t) next e n = e
  chain-Balanced (done t a) next e n = rest (next a) (n a)
    where
      rest : (h : Handled p) → HandledBalanced h → HandledBalanced (chain p (done t a) (λ _. h))
      rest (done u c) k = omega (arith, tally-append f t u, tally-append g t u)
      rest (cut_off c u) k = omega (arith, tally-append f t u, tally-append g t u)

  pub drain_priority-Balanced :
      (debug : Bool) (a : p.Actor) (ms : List (MailboxMessage p))
      → HandledBalanced (drain_priority p debug a ms)
  unfolding drain_priority tally
  drain_priority-Balanced debug a [] = refl
  drain_priority-Balanced true a (stop_gracefully ∷ ms) = omega arith
  drain_priority-Balanced false a (stop_gracefully ∷ ms) = drain_priority-Balanced false a ms
  drain_priority-Balanced debug a (envelope e ∷ ms) =
      chain-Balanced (process_envelope p drained a e) (λ c. drain_priority p debug c ms)
        (process_envelope-Balanced drained a e) (λ c. drain_priority-Balanced debug c ms)

  pub quiesce-Balanced :
      (debug : Bool) (l : Loop p) (r : Poll p) → HandledBalanced (quiesce p debug l r)
  unfolding quiesce tally
  quiesce-Balanced debug l r = elim (Bool-cases l.priority_receiver) [
    | inl open_ ↦
        rw (open_, quiesce)
          (chain-Balanced (done (priority_closed ∷ []) l.actor)
            (λ a. drain_priority p debug a r.quiet) (omega (arith, b.priority_free))
            (λ a. drain_priority-Balanced debug a r.quiet))
    | inr cleared ↦ rw (cleared, quiesce) refl
  ]
