-- ===== src/Lifecycle/Program.antt =====
-- The actor, which the library's user writes, and the messages and events of its task.
use rsactor.Base.{ℕ, String, Bool, Option}

-- Why a call of the actor's code has not returned: it panicked, it is suspended at an `.await`, or
-- its task was aborted there.
pub data Cut : Type 0 where
  by_panic at_await by_abort : Cut

-- A call of the actor's code returns, or is cut.
pub data Call (X : Type 0) : Type 0 where
  returns : X → Call X
  cut : Cut → Call X

-- What `on_start` returns, a `Result`.
pub data Started (A E : Type 0) : Type 0 where
  started : A → Started A E
  not_started : E → Started A E

-- An implementation of `Actor` with its `Message`s, and the set of its subscribed idle streams
-- (`SelectAll`). A hook on `&mut self` gives the actor after it; `none` is `Ok(())`.
pub record Program : Type 1 where
  pub Args : Type 0
  pub Actor : Type 0
  pub Error : Type 0
  pub IdleEvent : Type 0
  pub Payload : Type 0
  pub Reply : Type 0
  pub Stream : Type 0
  pub Streams : Type 0
  pub on_start : Args → Call (Started Actor Error)
  pub handle : Actor → Payload → Call (Actor × Reply)
  pub on_tell_result : Reply → Call (Unit {0})
  pub on_idle : Actor → IdleEvent → Call (Actor × Option Error)
  pub on_stop : Actor → Bool → Call (Actor × Option Error)
  pub message_type_name : Payload → String
  pub no_streams : Streams
  pub push : Stream → Streams → Streams
  pub is_empty : Streams → Bool

-- A reply channel by its number, and whether its receiver is gone when the task looks.
pub record ReplyChannel : Type 0 where
  pub number : ℕ
  pub is_closed : Bool

module _ (p : Program) where
  open p use {Payload, Reply, IdleEvent}

  -- The fields of `MailboxMessage::Envelope` that the task uses; `ask_edge` is the token of the
  -- wait-for edge, by its index.
  pub record Envelope : Type 0 where
    pub payload : Payload
    pub reply_channel : Option ReplyChannel
    pub ask_edge : Option ℕ

  pub data MailboxMessage : Type 0 where
    envelope : Envelope → MailboxMessage
    stop_gracefully : MailboxMessage

  -- Where a message that is handled comes from: the priority arm, the mailbox arm, or the drain of
  -- the priority channel at a graceful stop.
  pub data Source : Type 0 where
    prioritized received drained : Source

  -- The counters of `MetricsCollector` that the task feeds.
  pub data Metric : Type 0 where
    message priority_message idle_event : Metric

  -- What a task does, in order.
  pub data Event : Type 0 where
    handling : Source → Envelope → Event
    replied : ReplyChannel → Reply → Event
    told : Reply → Event
    recorded : Metric → Event
    edge_dropped : ℕ → Event
    idling : IdleEvent → Event
    subscriptions_closed : Event
    priority_closed : Event
    stopping : Bool → Event
