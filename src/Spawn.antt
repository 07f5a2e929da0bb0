-- ===== src/Spawn.antt =====
-- src/lib.rs: the mailbox capacities, `SpawnOptions` and `spawn_with_options`. `max_permits` is
-- tokio's `Semaphore::MAX_PERMITS`.
pub mod Laws
use rsactor.Base.{
  ℕ, zero, suc, ◌+◌, ◌%◌, ◌^◌, String, ◌<>◌, Bool, true, false, Option, none, some, List, [], ◌∷◌,
  ltb, ◌==◌, if◌then◌else◌,
}
use rsactor.Identity.{Identity}

-- `DEFAULT_MAILBOX_CAPACITY`
abbrev pub default_mailbox_capacity : ℕ
default_mailbox_capacity = 32

-- `IDLE_SUBSCRIBE_CHANNEL_CAPACITY`
abbrev pub idle_subscribe_channel_capacity : ℕ
idle_subscribe_channel_capacity = 32

-- What a call that may panic gives.
pub data Checked (X : Type 0) : Type 0 where
  given : X → Checked X
  panics : String → Checked X
  -- a panic of tokio's, whose text is its own
  panics_in_tokio : Checked X

pub record SpawnOptions : Type 0 where
  pub mailbox_capacity : Option ℕ
  pub priority_enabled : Bool
  pub idle_enabled : Bool
  pub idle_capacity : ℕ

-- `SpawnOptions::new`
abbrev pub default_options : SpawnOptions
default_options = record {
  mailbox_capacity = none;
  priority_enabled = false;
  idle_enabled = false;
  idle_capacity = idle_subscribe_channel_capacity;
}

-- `Result<(), Error::MailboxCapacity>`
pub data SetResult : Type 0 where
  ok : SetResult
  mailbox_capacity_error : String → SetResult

-- The actor type's part: its name and `Actor::MAILBOX_CAPACITY`.
pub record ActorType : Type 0 where
  pub type_name : String
  pub mailbox_capacity_const : Option ℕ

-- The statics: `CONFIGURED_DEFAULT_MAILBOX_CAPACITY` and `ACTOR_IDS`.
pub record Statics : Type 0 where
  pub configured_default : Option ℕ
  pub actor_ids : ℕ

-- What `spawn_with_options` starts: the actor's identity, and the capacities of its channels.
pub record Spawned : Type 0 where
  pub identity : Identity
  pub mailbox : ℕ
  pub has_priority : Bool
  pub idle : Option ℕ

pub with_priority : SpawnOptions → SpawnOptions
with_priority o = record o { priority_enabled = true }

pub with_idle : SpawnOptions → SpawnOptions
with_idle o = record o { idle_enabled = true }

-- `opts.mailbox_capacity.or(T::MAILBOX_CAPACITY).or_else(…).unwrap_or(DEFAULT_MAILBOX_CAPACITY)`
pub resolve_capacity : Option ℕ → Option ℕ → Option ℕ → ℕ
resolve_capacity (some n) c d = n
resolve_capacity none (some n) d = n
resolve_capacity none none (some n) = n
resolve_capacity none none none = default_mailbox_capacity

module _ (max_permits : ℕ) where
  unfoldable pub set_mailbox_capacity : SpawnOptions → ℕ → Checked SpawnOptions
  set_mailbox_capacity o n =
      if n == 0
      then panics "Mailbox capacity must be greater than 0"
      else if ltb max_permits n
      then panics "Mailbox capacity must not exceed tokio::sync::Semaphore::MAX_PERMITS"
      else given (record o { mailbox_capacity = some n })

  pub with_idle_capacity : SpawnOptions → ℕ → Checked SpawnOptions
  with_idle_capacity o n =
      if n == 0
      then panics "Idle-subscribe capacity must be greater than 0"
      else if ltb max_permits n
      then panics "Idle-subscribe capacity must not exceed tokio::sync::Semaphore::MAX_PERMITS"
      else given (record o { idle_enabled = true; idle_capacity = n })

  -- the `OnceLock` keeps its first value
  pub set_default_mailbox_capacity : Option ℕ → ℕ → Option ℕ × SetResult
  set_default_mailbox_capacity d size =
      if size == 0
      then (d, mailbox_capacity_error "Global default mailbox capacity must be greater than 0")
      else if ltb max_permits size
      then (
        d,
        mailbox_capacity_error
            "Global default mailbox capacity must not exceed tokio::sync::Semaphore::MAX_PERMITS",
      )
      else elim d [
        | none ↦ (some size, ok)
        | some n ↦
            (some n, mailbox_capacity_error "Global default mailbox capacity has already been set")
      ]

  -- `mpsc::channel` panics on a capacity that it does not take
  channel_panics : ℕ → Bool
  channel_panics n = if n == 0 then true else ltb max_permits n

  idle_panics : SpawnOptions → Bool
  unfolding channel_panics
  idle_panics o = if o.idle_enabled then channel_panics o.idle_capacity else false

  pub spawned_idle : SpawnOptions → Option ℕ
  spawned_idle o = if o.idle_enabled then some o.idle_capacity else none

  -- what follows the choice of the mailbox capacity; the identity is taken before the channels are
  -- made and before the check for a runtime
  spawn_sized : Statics → ActorType → SpawnOptions → Bool → ℕ → Statics × Checked Spawned
  unfolding channel_panics idle_panics spawned_idle
  spawn_sized s t o in_runtime capacity =
      if capacity == 0
      then (
        s,
        panics (
            "Mailbox capacity must be greater than 0 (check "
            <> (t.type_name <> "::MAILBOX_CAPACITY)")),
      )
      else (
        record s { actor_ids = (s.actor_ids + 1) % 2 ^ 64 },
        (if channel_panics capacity
            then panics_in_tokio
            else if idle_panics o
            then panics_in_tokio
            else if in_runtime
            then given (record {
              identity = record { id = s.actor_ids; type_name = t.type_name };
              mailbox = capacity;
              has_priority = o.priority_enabled;
              idle = spawned_idle o;
            })
            else panics_in_tokio),
      )

  -- `spawn_with_options`; the Boolean says whether a runtime is there
  pub spawn_with_options : Statics → ActorType → SpawnOptions → Bool → Statics × Checked Spawned
  unfolding spawn_sized resolve_capacity
  spawn_with_options s t o in_runtime =
      spawn_sized s t o in_runtime
        (resolve_capacity o.mailbox_capacity t.mailbox_capacity_const s.configured_default)
