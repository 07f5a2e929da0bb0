-- ===== src/Lifecycle/Taken/Rounds.antt =====
-- Which messages a round of the loop of src/actor.rs takes up.
use mathlib.Core.List.{append-nil}
use rsactor.Base.{
  ◌≡◌, refl, ap, ◌∙◌, Bool, false, Option, none, some, List, [], ◌∷◌, ◌++◌, map, Bool-cases, inl,
  inr, if◌then◌else◌,
}
use rsactor.Lifecycle.Program.{
  Program, Call, returns, cut, Envelope, MailboxMessage, envelope, stop_gracefully, Source,
  prioritized, received, drained, Event, recorded, idling, idle_event, priority_closed, stopping,
}
use rsactor.Lifecycle.Envelope.{Handled, done, cut_off, process_envelope}
use rsactor.Lifecycle.State.{Poll, Loop, Flow, continues, breaks}
use rsactor.Lifecycle.Arms.{
  close_subscriptions, on_terminate, after_envelope, on_priority, chain, drain_priority, quiesce,
  after_quiesce, on_mailbox, finish_idle, on_idle_event,
}
use rsactor.Lifecycle.Taken.{
  from_mailbox, from_priority, taken, taken-append, trace, of_source, taken-process_envelope,
}

module _ (p : Program) (k : Source p → Bool) where
  pub taken-chain :
      (t : List (Event p)) (a : p.Actor) (next : p.Actor → Handled p)
      → taken k (trace (chain p (done t a) next)) ≡ taken k t ++ taken k (trace (next a))
  taken-chain t a next = by_rest (next a)
    where
      by_rest :
          (h : Handled p)
          → taken k (trace (chain p (done t a) (λ _. h))) ≡ taken k t ++ taken k (trace h)
      by_rest (done u b) = taken-append k t u
      by_rest (cut_off c u) = taken-append k t u

  taken-close_subscriptions : (l : Loop p) → taken k (close_subscriptions p l) ≡ []
  taken-close_subscriptions l = elim (Bool-cases l.idle_subscribe_receiver) [
    | inl y ↦ rw y
    | inr n ↦ rw n
  ]

  taken-after_envelope :
      (l : Loop p) (h : Handled p) → taken k (after_envelope p l h).0 ≡ taken k (trace h)
  taken-after_envelope l (done t a) = refl
  taken-after_envelope l (cut_off c t) = refl

  taken-after_quiesce :
      (l : Loop p) (h : Handled p) → taken k (after_quiesce p l h).0 ≡ taken k (trace h)
  taken-after_quiesce l (done t a) =
      taken-append k (close_subscriptions p l) _
      ∙ rw (taken-close_subscriptions l, taken-append k t (stopping false ∷ [])) (append-nil _)
  taken-after_quiesce l (cut_off c t) =
      taken-append k (close_subscriptions p l) t ∙ rw (taken-close_subscriptions l) refl

  pub taken-on_terminate :
      (l : Loop p) (x : Option (Unit {0})) → taken k (on_terminate p l x).0 ≡ []
  unfolding on_terminate
  taken-on_terminate l (some u) =
      taken-append k (close_subscriptions p l) _ ∙ rw (taken-close_subscriptions l) refl
  taken-on_terminate l none =
      taken-append k (close_subscriptions p l) _ ∙ rw (taken-close_subscriptions l) refl

  -- what a message in an arm gives
  abbrev pub of_message : Source p → Option (MailboxMessage p) → List (Envelope p)
  of_message s (some (envelope e)) = of_source p k s e
  of_message s (some stop_gracefully) = []
  of_message s none = []

  pub taken-on_priority :
      (debug : Bool) (l : Loop p) (m : Option (MailboxMessage p))
      → taken k (on_priority p debug l m).0 ≡ of_message prioritized m
  unfolding on_priority
  taken-on_priority debug l none = refl
  taken-on_priority debug l (some stop_gracefully) = refl
  taken-on_priority debug l (some (envelope e)) =
      taken-after_envelope l (process_envelope p prioritized l.actor e)
      ∙ taken-process_envelope p k prioritized l.actor e

  pub taken-on_idle_event :
      (l : Loop p) (ss : p.Streams) (e : p.IdleEvent) → taken k (on_idle_event p l ss e).0 ≡ []
  unfolding on_idle_event
  taken-on_idle_event l ss e = by_result (p.on_idle l.actor e)
    where
      by_error :
          (a : p.Actor) (o : Option p.Error)
          → taken k
              (elim o as (λ _. List (Event p) × Flow p) [
                | none ↦ (
                  idling e ∷ recorded idle_event ∷ [],
                  continues (record l { actor = a; idle_streams = ss }),
                )
                | some x ↦
                    (idling e ∷ (close_subscriptions p l ++ stopping false ∷ []), finish_idle p a x)
              ]).0
            ≡ []
      by_error a none = refl
      by_error a (some x) =
          taken-append k (close_subscriptions p l) _ ∙ rw (taken-close_subscriptions l) refl

      by_result :
          (o : Call (p.Actor × Option p.Error))
          → taken k
              (elim o as (λ _. List (Event p) × Flow p) [
                | cut c ↦ (idling e ∷ [], breaks c)
                | returns result ↦ elim result.1 [
                  | none ↦ (
                    idling e ∷ recorded idle_event ∷ [],
                    continues (record l { actor = result.0; idle_streams = ss }),
                  )
                  | some x ↦ (
                    idling e ∷ (close_subscriptions p l ++ stopping false ∷ []),
                    finish_idle p result.0 x,
                  )
                ]
              ]).0
            ≡ []
      by_result (cut c) = refl
      by_result (returns x) = by_error x.0 x.1

  pub taken-on_mailbox :
      (debug : Bool) (l : Loop p) (r : Poll p) (e : Envelope p)
      → taken k (on_mailbox p debug l r (some (envelope e))).0 ≡ of_source p k received e
  unfolding on_mailbox
  taken-on_mailbox debug l r e =
      taken-after_envelope l (process_envelope p received l.actor e)
      ∙ taken-process_envelope p k received l.actor e

  -- a graceful stop takes up what the drain of the priority channel does
  pub taken-quiesce :
      (debug : Bool) (l : Loop p) (r : Poll p)
      → taken k (after_quiesce p l (quiesce p debug l r)).0 ≡ (
          if l.priority_receiver
          then taken k (trace (drain_priority p debug l.actor r.quiet))
          else [])
  unfolding quiesce
  taken-quiesce debug l r = taken-after_quiesce l (quiesce p debug l r) ∙ drained_part
    where
      drained_part : taken k (trace (quiesce p debug l r)) ≡ (
          if l.priority_receiver
          then taken k (trace (drain_priority p debug l.actor r.quiet))
          else [])
      drained_part = elim (Bool-cases l.priority_receiver) [
        | inl y ↦
            rw (y, quiesce)
              (taken-chain (priority_closed ∷ []) l.actor (λ a. drain_priority p debug a r.quiet))
        | inr n ↦ rw (n, quiesce) refl
      ]

module _ (p : Program) where
  -- the drain takes up nothing from the mailbox
  pub drain_priority-from_mailbox :
      (debug : Bool) (a : p.Actor) (es : List (Envelope p))
      → taken from_mailbox (trace (drain_priority p debug a (map envelope es))) ≡ []
  unfolding drain_priority
  drain_priority-from_mailbox debug a [] = refl
  drain_priority-from_mailbox debug a (e ∷ es) =
      by_first (process_envelope p drained a e) (taken-process_envelope p from_mailbox drained a e)
        (λ b. drain_priority-from_mailbox debug b es)
    where
      by_first :
          (h : Handled p)
          → taken from_mailbox (trace h) ≡ []
          → ((b : p.Actor)
              → taken from_mailbox (trace (drain_priority p debug b (map envelope es))) ≡ [])
          → taken from_mailbox (trace (chain p h (λ b. drain_priority p debug b (map envelope es))))
            ≡ []
      by_first (done t b) z ih =
          taken-chain p from_mailbox t b (λ c. drain_priority p debug c (map envelope es))
          ∙ rw (z, ih b)
      by_first (cut_off c t) z ih = z

  abbrev pub IsPrefix : List (Envelope p) → List (Envelope p) → Type 0
  IsPrefix xs ys = (rest : List (Envelope p)) × (ys ≡ xs ++ rest)

  -- the drain takes up the messages of the priority channel in order, all but what is left where it is cut off
  pub drain_priority-from_priority :
      (debug : Bool) (a : p.Actor) (es : List (Envelope p))
      → IsPrefix (taken from_priority (trace (drain_priority p debug a (map envelope es)))) es
  unfolding drain_priority
  drain_priority-from_priority debug a [] = ([], refl)
  drain_priority-from_priority debug a (e ∷ es) =
      by_first (process_envelope p drained a e) (taken-process_envelope p from_priority drained a e)
        (λ b. drain_priority-from_priority debug b es)
    where
      by_first :
          (h : Handled p)
          → taken from_priority (trace h) ≡ e ∷ []
          → ((b : p.Actor)
              → IsPrefix
                  (taken from_priority (trace (drain_priority p debug b (map envelope es))))
                  es)
          → IsPrefix
              (taken from_priority
                (trace (chain p h (λ b. drain_priority p debug b (map envelope es)))))
              (e ∷ es)
      by_first (done t b) z ih =
          let (rest, q) = ih b in
          (
            rest,
            rw
                (
                  taken-chain p from_priority t b (λ c. drain_priority p debug c (map envelope es)),
                  z,
                )
                (ap (◌∷◌ e) q),
          )
      by_first (cut_off c t) z ih = (es, rw z refl)
