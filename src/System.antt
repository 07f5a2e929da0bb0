-- ===== src/System.antt =====
-- An actor's task of src/actor.rs behind its channels, with the senders of src/actor_ref.rs: which
-- message the task gets is not chosen freely any more but comes from the channels. What tokio's
-- `mpsc` channels do is the interface `Channel`.
pub mod Queues
pub mod Arms
pub mod Accounting
pub mod Delivery
use rsactor.Base.{
  ℕ, zero, suc, ◌≡◌, Bool, true, false, Option, none, some, List, [], ◌∷◌, ◌++◌, map, length,
  if◌then◌else◌,
}
use rsactor.Identity.{Identity}
use rsactor.DeadLetter.{DeadLetter}
use rsactor.Lifecycle.Program.{
  Program, Envelope, MailboxMessage, envelope, stop_gracefully, drained, Event,
}
use rsactor.Lifecycle.Envelope.{Handled, done, cut_off, process_envelope}
use rsactor.Lifecycle.Channels.{Queued, discard_queued_messages}
use rsactor.Lifecycle.State.{
  Poll, Loop, Flow, continues, ends, breaks, Arm, priority_arm, mailbox_arm, select,
}
use rsactor.Lifecycle.Arms.{iterate}
use rsactor.Lifecycle.Loop.{Ending, finished, broken, suspended}

-- A bounded channel is a queue: a send that it takes puts the message at the end, and the receiver
-- gets the first message, or none exactly where there is none.
pub record Channel (A : Type 0) : Type 1 where
  pub Queue : Type 0
  pub new : ℕ → Queue
  pub contents : Queue → List A
  pub try_send : A → Queue → Option Queue
  pub recv : Queue → Option (A × Queue)
  pub contents-new : (n : ℕ) → contents (new n) ≡ []
  pub contents-try_send :
      (a : A) (q r : Queue) → try_send a q ≡ some r → contents r ≡ contents q ++ a ∷ []
  pub recv-none : (q : Queue) → recv q ≡ none → contents q ≡ []
  pub recv-some : (q r : Queue) (a : A) → recv q ≡ some (a, r) → contents q ≡ a ∷ contents r

module _ (p : Program) where
  -- the drain goes on only where the handling of a message returned
  unfoldable pub recvs_after : Handled p → (p.Actor → ℕ) → ℕ
  recvs_after (done t a) next = next a
  recvs_after (cut_off c t) next = 0

  -- How many messages the drain of a graceful stop takes out of the priority channel: each turn of
  -- its loop starts with one `recv`.
  unfoldable pub drain_recvs : Bool → p.Actor → List (MailboxMessage p) → ℕ
  unfolding recvs_after
  drain_recvs debug a [] = 0
  drain_recvs debug a (stop_gracefully ∷ ms) =
      let rest = drain_recvs debug a ms in suc (if debug then 0 else rest)
  drain_recvs debug a (envelope e ∷ ms) =
      suc (recvs_after (process_envelope p drained a e) (λ b. drain_recvs debug b ms))

  unfoldable pub quiesce_recvs : Bool → Loop p → Poll p → ℕ
  unfolding drain_recvs
  quiesce_recvs debug l r = if l.priority_receiver then drain_recvs debug l.actor r.quiet else 0

module _ {A : Type 0} (c : Channel A) where
  -- what the receiver's `recv` leaves in the channel
  unfoldable pub pop : c.Queue → c.Queue
  pop q = elim (c.recv q) [ none ↦ q | some x ↦ x.1 ]

  unfoldable pub skip : ℕ → c.Queue → c.Queue
  unfolding pop
  skip zero q = q
  skip (suc n) q = skip n (pop q)

  -- the answer of a poll of the receiver; `gone` says whether all senders were dropped
  unfoldable pub answer : {B : Type 0} → (A → B) → Bool → c.Queue → Option (Option B)
  answer f gone q = elim (c.recv q) [
    | none ↦ if gone then some none else none
    | some x ↦ some (some (f x.0))
  ]

module _ (p : Program) (mc : Channel (MailboxMessage p)) (pc : Channel (Envelope p)) where
  -- What the environment adds to a poll of the task.
  pub record External : Type 0 where
    pub terminate : Option (Option (Unit {0}))
    pub subscription : Option (Option p.Stream)
    pub streams : p.Streams → Option p.IdleEvent × p.Streams
    pub senders_gone : Bool

  pub data Action : Type 0 where
    sends : MailboxMessage p → Action
    -- `stop` never writes to the priority channel
    sends_priority : Envelope p → Action
    polls : External → Action

  -- The channels and the task. `sent` and `sent_priority` are all messages that the channels took,
  -- and `trace` all that the task did.
  pub record System : Type 0 where
    pub mailbox : mc.Queue
    pub priority : pc.Queue
    pub task : Ending p
    pub sent : List (MailboxMessage p)
    pub sent_priority : List (Envelope p)
    pub trace : List (Event p)

  unfoldable pub start : ℕ → ℕ → Loop p → System
  start capacity priority_capacity l = record {
    mailbox = mc.new capacity;
    priority = pc.new priority_capacity;
    task = suspended l;
    sent = [];
    sent_priority = [];
    trace = [];
  }

  -- what the receivers answer in one poll of the task
  unfoldable pub poll_of : System → External → Poll p
  unfolding answer
  poll_of s x = record {
    terminate = x.terminate;
    priority = answer pc envelope x.senders_gone s.priority;
    subscription = x.subscription;
    mailbox = answer mc (λ m. m) x.senders_gone s.mailbox;
    streams = x.streams;
    quiet = map envelope (pc.contents s.priority);
  }

  unfoldable pub ending_of : Flow p → Ending p
  ending_of (continues l) = suspended l
  ending_of (ends r) = finished r
  ending_of (breaks c) = broken c

  -- the mailbox after a round that took the arm
  unfoldable pub mailbox_after : Arm p → mc.Queue → mc.Queue
  unfolding pop
  mailbox_after (mailbox_arm (some m)) q = pop mc q
  mailbox_after _ q = q

  -- the priority channel after it
  unfoldable pub priority_after : Bool → Loop p → Poll p → Arm p → pc.Queue → pc.Queue
  unfolding pop skip quiesce_recvs
  priority_after debug l r (priority_arm (some m)) q = pop pc q
  priority_after debug l r (mailbox_arm none) q = skip pc (quiesce_recvs p debug l r) q
  priority_after debug l r (mailbox_arm (some stop_gracefully)) q =
      skip pc (quiesce_recvs p debug l r) q
  priority_after debug l r _ q = q

  unfoldable pub round : Bool → System → Loop p → Poll p → System
  unfolding ending_of mailbox_after priority_after
  round debug s l r =
      let x = iterate p debug l r in
      record s {
        mailbox = mailbox_after (select p l r) s.mailbox;
        priority = priority_after debug l r (select p l r) s.priority;
        task = ending_of x.1;
        trace = s.trace ++ x.0;
      }

  -- a send to a task that has ended finds the channel closed
  unfoldable pub send_mailbox : System → MailboxMessage p → System
  send_mailbox s m = elim (mc.try_send m s.mailbox) [
    | none ↦ s
    | some q ↦ record s { mailbox = q; sent = s.sent ++ m ∷ [] }
  ]

  unfoldable pub send_priority : System → Envelope p → System
  send_priority s e = elim (pc.try_send e s.priority) [
    | none ↦ s
    | some q ↦ record s { priority = q; sent_priority = s.sent_priority ++ e ∷ [] }
  ]

  unfoldable pub act : Bool → System → Loop p → Action → System
  unfolding round poll_of send_mailbox send_priority
  act debug s l (sends m) = send_mailbox s m
  act debug s l (sends_priority e) = send_priority s e
  act debug s l (polls x) = round debug s l (poll_of s x)

  unfoldable pub step : Bool → System → Action → System
  unfolding act
  step debug s a = elim s.task [ suspended l ↦ act debug s l a | finished r ↦ s | broken c ↦ s ]

  unfoldable pub run : Bool → System → List Action → System
  unfolding step
  run debug s [] = s
  run debug s (a ∷ actions) = run debug (step debug s a) actions

  -- what the drop of the channels records at the end of the task
  unfoldable pub discarded : Identity → System → List DeadLetter
  discarded i s =
      (discard_queued_messages p i (record {
        mailbox = mc.contents s.mailbox;
        priority = some (map envelope (pc.contents s.priority));
        subscriptions = none;
      })).letters
