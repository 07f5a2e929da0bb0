-- ===== src/Lifecycle/Graceful.antt =====
-- A graceful stop and the priority channel.
use rsactor.Base.{◌≡◌, Option, none, some, List, [], ◌∷◌}
use rsactor.Lifecycle.Program.{
  Program, returns, Envelope, MailboxMessage, envelope, stop_gracefully, drained, Event, handling,
}
use rsactor.Lifecycle.Envelope.{Handled, done, cut_off}

module _ (p : Program) where
  -- The actor's handlers and `on_tell_result` return.
  abbrev pub NeverPanics : Type 0
  NeverPanics =
      ((a : p.Actor) (m : p.Payload) → (x : p.Actor × p.Reply) × (p.handle a m ≡ returns x))
      × ((r : p.Reply) → p.on_tell_result r ≡ returns tt)

  -- The messages that were taken up from the priority channel in its final drain, in order.
  abbrev pub drained_messages : List (Event p) → List (Envelope p)
  drained_messages [] = []
  drained_messages (handling drained e ∷ t) = e ∷ drained_messages t
  drained_messages (_ ∷ t) = drained_messages t

  abbrev pub envelopes : List (MailboxMessage p) → List (Envelope p)
  envelopes [] = []
  envelopes (envelope e ∷ ms) = e ∷ envelopes ms
  envelopes (stop_gracefully ∷ ms) = envelopes ms

  -- What was done drained the messages `es`, and no call panicked.
  abbrev Drains : Handled p → List (Envelope p) → Type 0
  Drains (done t a) es = drained_messages t ≡ es
  Drains (cut_off c t) es = ⊥

  -- A message that stops the actor gracefully, or the end of the mailbox.
  abbrev pub IsStop : Option (MailboxMessage p) → Type 0
  IsStop none = Unit {0}
  IsStop (some stop_gracefully) = Unit {0}
  IsStop (some (envelope e)) = ⊥
