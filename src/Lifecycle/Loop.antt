-- ===== src/Lifecycle/Loop.antt =====
-- `run_actor_lifecycle` of src/actor.rs: `on_start`, the loop, driven by a list of polls, and the
-- `Drop` of the channels at the end of the task.
use rsactor.Base.{Bool, true, false, Option, none, some, List, [], ◌∷◌, ◌++◌}
use rsactor.Identity.{Identity}
use rsactor.ActorResult.{ActorResult, failed, start_failure}
use rsactor.Lifecycle.Program.{Program, Cut, returns, cut, started, not_started, Event}
use rsactor.Lifecycle.Channels.{Queued, Drained, discard_queued_messages}
use rsactor.Lifecycle.State.{Poll, Loop, Flow, continues, ends, breaks}
use rsactor.Lifecycle.Arms.{iterate}

module _ (p : Program) where
  open p use {
    Args, Actor, Error, IdleEvent, Stream, Streams, on_idle, on_stop, no_streams, push, is_empty,
  }

  -- How the body of the task ended, or where it is: `suspended` is a task that waits at the select
  -- for its next poll, and `broken` one whose code was cut.
  pub data Ending : Type 0 where
    finished : ActorResult Actor Error → Ending
    broken : Cut → Ending
    suspended : Loop p → Ending

  -- the rest of the loop after a round
  unfoldable pub and_then :
      List (Event p) × Flow p → (Loop p → List (Event p) × Ending) → List (Event p) × Ending
  and_then (t, breaks c) next = (t, broken c)
  and_then (t, ends result) next = (t, finished result)
  and_then (t, continues l) next = (t ++ (next l).0, (next l).1)

  unfoldable pub run_loop : Bool → List (Poll p) → Loop p → List (Event p) × Ending
  unfolding iterate and_then
  run_loop debug [] l = ([], suspended l)
  run_loop debug (r ∷ rs) l = and_then (iterate p debug l r) (run_loop debug rs)

  -- the subscriptions that `on_start` queued
  unfoldable pub push_all : List Stream → Streams → Streams
  push_all [] ss = ss
  push_all (s ∷ more) ss = push_all more (push s ss)

  -- What the task is given: the optional channels, the streams that `on_start` subscribes, the
  -- polls, and what its receivers hold when it ends.
  pub record Script : Type 0 where
    pub debug_assertions : Bool
    pub with_priority : Bool
    pub subscribed_at_start : Option (List Stream)
    pub polls : List (Poll p)
    pub left : Queued p

  -- the state in which the loop starts
  unfoldable pub initial_loop : Script → Actor → Loop p
  unfolding push_all
  initial_loop s a = record {
    actor = a;
    priority_receiver = s.with_priority;
    idle_subscribe_receiver = elim s.subscribed_at_start [ none ↦ false | some _ ↦ true ];
    idle_streams = elim s.subscribed_at_start [
      | none ↦ no_streams
      | some ss ↦ push_all ss no_streams
    ];
  }

  unfoldable pub run_actor_lifecycle : Args → Script → List (Event p) × Ending
  unfolding run_loop initial_loop
  run_actor_lifecycle args s = elim (p.on_start args) [
    | cut c ↦ ([], broken c)
    | returns outcome ↦ elim outcome [
      | not_started e ↦ ([], finished (failed (start_failure e) false))
      | started a ↦ run_loop s.debug_assertions s.polls (initial_loop s a)
    ]
  ]

  -- The task: its body, then the `Drop` of the channels, which also a panic and a cancellation reach.
  unfoldable pub run_task : Identity → Args → Script → (List (Event p) × Ending) × Drained p
  unfolding run_actor_lifecycle
  run_task actor_id args s = (run_actor_lifecycle args s, discard_queued_messages p actor_id s.left)
