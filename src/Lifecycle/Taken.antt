-- ===== src/Lifecycle/Taken.antt =====
-- Which messages a stretch of the task of src/actor.rs takes up, in order.
pub mod Rounds
use mathlib.Core.List.{append_assoc, append-nil}
use rsactor.Base.{
  ℕ, ◌≡◌, refl, sym, ap, ◌∙◌, Bool, true, false, Option, none, some, List, [], ◌∷◌, ◌++◌, map,
  Bool-cases, inl, inr, if◌then◌else◌, arith,
}
use rsactor.Lifecycle.Program.{
  Program, Cut, by_panic, at_await, by_abort, Call, returns, cut, ReplyChannel, Envelope,
  MailboxMessage, envelope, stop_gracefully, Source, prioritized, received, drained, Event,
  handling, replied, told, recorded, edge_dropped, idling, subscriptions_closed, priority_closed,
  stopping,
}
use rsactor.Lifecycle.Envelope.{
  Handled, done, cut_off, deliver, handle_message, metric_of, drop_edge, release, finish_envelope,
  process_envelope,
}
use rsactor.Lifecycle.State.{
  Poll, Loop, Flow, Arm, terminated, priority_arm, subscribed, mailbox_arm, idle_arm, pending,
  select,
}
use rsactor.Lifecycle.Arms.{
  close_subscriptions, on_terminate, after_envelope, on_priority, chain, drain_priority, quiesce,
  after_quiesce, on_mailbox, on_idle_event, on_arm, iterate,
}

module _ {p : Program} where
  abbrev pub from_mailbox : Source p → Bool
  from_mailbox received = true
  from_mailbox prioritized = false
  from_mailbox drained = false

  abbrev pub from_priority : Source p → Bool
  from_priority received = false
  from_priority prioritized = true
  from_priority drained = true

  -- The messages of some sources that the task takes up, in order.
  abbrev pub taken : (Source p → Bool) → List (Event p) → List (Envelope p)
  taken k [] = []
  taken k (handling s e ∷ t) = if k s then e ∷ taken k t else taken k t
  taken k (_ ∷ t) = taken k t

  pub taken-append :
      (k : Source p → Bool) (t u : List (Event p)) → taken k (t ++ u) ≡ taken k t ++ taken k u
  taken-append k [] u = refl
  taken-append k (handling s e ∷ t) u = elim (Bool-cases (k s)) [
    | inl y ↦ rw (y, taken-append k t u)
    | inr n ↦ rw (n, taken-append k t u)
  ]
  taken-append k (replied c r ∷ t) u = taken-append k t u
  taken-append k (told r ∷ t) u = taken-append k t u
  taken-append k (recorded m ∷ t) u = taken-append k t u
  taken-append k (edge_dropped i ∷ t) u = taken-append k t u
  taken-append k (idling e ∷ t) u = taken-append k t u
  taken-append k (subscriptions_closed ∷ t) u = taken-append k t u
  taken-append k (priority_closed ∷ t) u = taken-append k t u
  taken-append k (stopping s ∷ t) u = taken-append k t u

  abbrev pub trace : Handled p → List (Event p)
  trace (done t a) = t
  trace (cut_off c t) = t

module _ (p : Program) (k : Source p → Bool) where
  taken-drop_edge : (o : Option ℕ) → taken k (drop_edge p o) ≡ []
  unfolding drop_edge
  taken-drop_edge none = refl
  taken-drop_edge (some i) = refl

  taken-deliver :
      (c : Option ReplyChannel) (a : p.Actor) (r : p.Reply) → taken k (trace (deliver p c a r)) ≡ []
  unfolding deliver
  taken-deliver (some c) a r = refl
  taken-deliver none a r = by_result (p.on_tell_result r)
    where
      by_result :
          (o : Call (Unit {0}))
          → taken k (
              trace (elim o as (λ _. Handled p) [
                | cut c ↦ cut_off c (told r ∷ [])
                | returns _ ↦ done (told r ∷ []) a
              ]))
            ≡ []
      by_result (cut c) = refl
      by_result (returns x) = refl

  taken-handle_message :
      (a : p.Actor) (e : Envelope p) → taken k (trace (handle_message p a e)) ≡ []
  unfolding handle_message
  taken-handle_message a e = by_result (p.handle a e.payload)
    where
      by_result :
          (o : Call (p.Actor × p.Reply))
          → taken k (
              trace (elim o as (λ _. Handled p) [
                | cut c ↦ cut_off c []
                | returns result ↦ deliver p e.reply_channel result.0 result.1
              ]))
            ≡ []
      by_result (cut c) = refl
      by_result (returns x) = taken-deliver e.reply_channel x.0 x.1

  -- one message, of the source it is handled from
  abbrev pub of_source : Source p → Envelope p → List (Envelope p)
  of_source s e = if k s then e ∷ [] else []

  taken-release : (c : Cut) (o : Option ℕ) → taken k (release p c o) ≡ []
  unfolding release
  taken-release by_panic o = taken-drop_edge o
  taken-release by_abort o = taken-drop_edge o
  taken-release at_await o = refl

  taken-finish_envelope :
      (s : Source p) (e : Envelope p) (h : Handled p)
      → taken k (trace h) ≡ []
      → taken k (trace (finish_envelope p s e h)) ≡ of_source s e
  unfolding finish_envelope
  taken-finish_envelope s e (done t a) z =
      let q : taken k (t ++ recorded (metric_of p s) ∷ drop_edge p e.ask_edge) ≡ [] =
        taken-append k t _ ∙ rw (z, taken-drop_edge e.ask_edge) in
      elim (Bool-cases (k s)) [ inl y ↦ rw (y, q) | inr n ↦ rw (n, q) ]
  taken-finish_envelope s e (cut_off c t) z =
      let q : taken k (t ++ release p c e.ask_edge) ≡ [] =
        taken-append k t _ ∙ rw (z, taken-release c e.ask_edge) in
      elim (Bool-cases (k s)) [ inl y ↦ rw (y, q) | inr n ↦ rw (n, q) ]

  pub taken-process_envelope :
      (s : Source p) (a : p.Actor) (e : Envelope p)
      → taken k (trace (process_envelope p s a e)) ≡ of_source s e
  unfolding process_envelope
  taken-process_envelope s a e =
      taken-finish_envelope s e (handle_message p a e) (taken-handle_message a e)
