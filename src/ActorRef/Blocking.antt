-- ===== src/ActorRef/Blocking.antt =====
-- The blocking calls of src/actor_ref.rs, and the dispatch to the caller's runtime or to a thread of
-- its own that they share.
use rsactor.Base.{String, ◌<>◌, Bool, true, false, not, ◌&&◌, Option, none, some, [], if◌then◌else◌}
use text.Mathlib.Text.{starts_with}
use rsactor.Error.{
  Operation, blocking_tell, blocking_tell_priority, blocking_ask, blocking_ask_priority, runtime,
}
use rsactor.DeadLetter.{runtime_unavailable}
use rsactor.Deadlock.Edges.{deadlock_panic_prefix}
use rsactor.ActorRef.Call.{
  accepted, full, closed, Runtime, multi_thread, no_runtime, Answers, Target, ok, err, Call,
  completed, panicked, letter, fails, not_sent, with_timeout, on_worker,
}
use rsactor.ActorRef.Send.{
  mailbox_closed, priority_closed, panic_if_self_send_on_full, await_reply, ask_inner,
  ask_timeout_inner, require_priority, ask_priority_inner,
}

-- `Handle::try_current().is_ok()`
has_runtime : Runtime → Bool
has_runtime no_runtime = false
has_runtime _ = true

-- `current_multi_thread_handle().is_some()`
is_multi_thread : Runtime → Bool
is_multi_thread multi_thread = true
is_multi_thread _ = false

-- the panic text that promises a deadlock
is_deadlock_text : Option String → Bool
is_deadlock_text none = false
is_deadlock_text (some text) = starts_with text deadlock_panic_prefix

panic_details : String → Option String → String
panic_details panic_msg none = panic_msg
panic_details panic_msg (some text) = panic_msg <> (": " <> text)

module _ {Time Cause X : Type 0} where
  -- `join.join()`: the panic of the thread is resumed or becomes an error
  unfoldable pub join_thread :
      Answers Cause X → Target → String → Call Time Cause X → Call Time Cause X
  unfolding is_deadlock_text panic_details
  join_thread a t panic_msg (completed r letters admitted) = completed r letters admitted
  join_thread a t panic_msg (panicked text letters admitted) =
      if a.detection && is_deadlock_text text
      then panicked text letters admitted
      else completed (err (runtime t.identity (panic_details panic_msg text) none)) letters admitted

  -- the call on the thread, which may panic otherwise before or after the message is admitted
  unfoldable pub on_thread : Answers Cause X → Call Time Cause X → Call Time Cause X
  on_thread a call = elim a.worker_panic [
    | none ↦ call
    | some w ↦ panicked w.text [] (if w.admitted then 1 else 0)
  ]

  -- `tokio::task::block_in_place` panics in a `LocalSet`
  unfoldable pub in_place : Answers Cause X → Call Time Cause X → Call Time Cause X
  in_place a call = if a.can_block_in_place then call else panicked a.panic_text [] 0

  -- `run_blocking_on`; `assert_current_thread_can_block` comes first
  unfoldable pub run_blocking_on :
      Answers Cause X → Target → Operation → String → Call Time Cause X → Call Time Cause X
  unfolding has_runtime join_thread on_thread
  run_blocking_on a t operation panic_msg call =
      if has_runtime a.runtime && not a.can_block
      then panicked a.panic_text [] 0
      else elim a.spawn_error [
        | some e ↦
            fails (runtime t.identity "Failed to spawn blocking thread" (some e))
              (letter t runtime_unavailable operation) 0
        | none ↦ elim a.build_error [
          | some e ↦
              fails (runtime t.identity "Failed to build blocking runtime" (some e))
                (letter t runtime_unavailable operation) 0
          | none ↦ join_thread a t panic_msg (on_thread a call)
        ]
      ]

  -- `current_multi_thread_handle` and its two branches
  unfoldable pub block_on :
      Answers Cause X
      → Target
      → Operation
      → String
      → (Answers Cause X → Call Time Cause X)
      → Call Time Cause X
  unfolding is_multi_thread in_place run_blocking_on
  block_on a t operation panic_msg call =
      if is_multi_thread a.runtime
      then in_place a (call a)
      else run_blocking_on a t operation panic_msg (call (on_worker a))

  -- tokio's own guard in `blocking_send`
  unfoldable pub guard_blocking : Answers Cause X → Call Time Cause X → Call Time Cause X
  guard_blocking a call = if a.can_block then call else panicked a.panic_text [] 0

  unfoldable pub blocking_ask_no_timeout : Answers Cause X → Target → Call Time Cause X
  unfolding guard_blocking await_reply not_sent
  blocking_ask_no_timeout a t = guard_blocking a (
      if a.send_delivers
      then await_reply a t blocking_ask
      else not_sent t blocking_ask mailbox_closed)

  unfoldable pub blocking_ask_with_timeout_impl :
      Answers Cause X → Target → Time → Call Time Cause X
  unfolding run_blocking_on ask_timeout_inner
  blocking_ask_with_timeout_impl a t time =
      run_blocking_on a t blocking_ask "Timeout thread terminated unexpectedly"
        (ask_timeout_inner (on_worker a) t time blocking_ask)

  unfoldable pub blocking_ask_call : Answers Cause X → Target → Option Time → Call Time Cause X
  unfolding is_multi_thread in_place ask_timeout_inner ask_inner blocking_ask_with_timeout_impl
      blocking_ask_no_timeout
  blocking_ask_call a t (some time) =
      if is_multi_thread a.runtime
      then in_place a (ask_timeout_inner a t time blocking_ask)
      else blocking_ask_with_timeout_impl a t time
  blocking_ask_call a t none =
      if is_multi_thread a.runtime
      then in_place a (ask_inner a t blocking_ask)
      else blocking_ask_no_timeout a t

  unfoldable pub blocking_ask_priority_call : Answers Cause X → Target → Time → Call Time Cause X
  unfolding require_priority block_on ask_priority_inner
  blocking_ask_priority_call a t time = require_priority a t (
      block_on a t blocking_ask_priority "Priority blocking thread terminated unexpectedly"
        (λ b. ask_priority_inner b t time blocking_ask_priority))

module _ {Time Cause : Type 0} where
  -- the send that waits for room
  unfoldable pub admit :
      Answers Cause (Unit {0}) → Target → Operation → String → Call Time Cause (Unit {0})
  unfolding not_sent
  admit a t operation details =
      if a.send_delivers then completed (ok tt) [] 1 else not_sent t operation details

  -- a blocking tell to a full mailbox
  unfoldable pub admit_blocking :
      Answers Cause (Unit {0}) → Target → Option Time → Call Time Cause (Unit {0})
  unfolding is_multi_thread in_place block_on with_timeout admit guard_blocking
  admit_blocking a t (some time) =
      block_on a t blocking_tell "Timeout thread terminated unexpectedly"
        (λ b. with_timeout b t time blocking_tell (admit b t blocking_tell mailbox_closed))
  admit_blocking a t none =
      if is_multi_thread a.runtime
      then in_place a (admit a t blocking_tell mailbox_closed)
      else guard_blocking a (admit a t blocking_tell mailbox_closed)

  -- the detection of a blocking self-send without a timeout
  unfoldable pub blocking_tell_full :
      Answers Cause (Unit {0}) → Target → Option Time → Call Time Cause (Unit {0})
  unfolding admit_blocking panic_if_self_send_on_full
  blocking_tell_full a t (some time) = admit_blocking a t (some time)
  blocking_tell_full a t none =
      if a.detection
      then panic_if_self_send_on_full a t "blocking_tell" (admit_blocking a t none)
      else admit_blocking a t none

  unfoldable pub blocking_tell_call :
      Answers Cause (Unit {0}) → Target → Option Time → Call Time Cause (Unit {0})
  unfolding not_sent blocking_tell_full
  blocking_tell_call a t timeout = elim a.try_send [
    | accepted ↦ completed (ok tt) [] 1
    | closed ↦ not_sent t blocking_tell mailbox_closed
    | full ↦ blocking_tell_full a t timeout
  ]

  unfoldable pub blocking_tell_priority_call :
      Answers Cause (Unit {0}) → Target → Time → Call Time Cause (Unit {0})
  unfolding require_priority not_sent block_on with_timeout admit
  blocking_tell_priority_call a t time = require_priority a t (elim a.try_send [
    | accepted ↦ completed (ok tt) [] 1
    | closed ↦ not_sent t blocking_tell_priority priority_closed
    | full ↦
        block_on a t blocking_tell_priority "Priority blocking thread terminated unexpectedly" (λ b.
          with_timeout b t time blocking_tell_priority
            (admit b t blocking_tell_priority priority_closed))
  ])
