-- ===== src/ActorResult.antt =====
-- src/actor_result.rs: how an actor's life ended, and what can be read from it. `A` is the actor's
-- type and `E` its `Error`.
pub mod Accessors
use rsactor.Base.{String, Bool, true, false, not, Option, none, some}

pub data FailurePhase : Type 0 where
  on_start on_idle on_stop on_idle_then_on_stop : FailurePhase

-- `FailurePhase::as_str`
pub phase_as_str : FailurePhase → String
phase_as_str on_start = "OnStart"
phase_as_str on_idle = "OnIdle"
phase_as_str on_stop = "OnStop"
phase_as_str on_idle_then_on_stop = "OnIdleThenOnStop"

pub data ActorFailure (A E : Type 0) : Type 0 where
  start_failure : E → ActorFailure A E
  idle_failure : A → E → ActorFailure A E
  stop_failure : A → E → ActorFailure A E
  -- the error of `on_idle`, then that of the `on_stop` that follows
  idle_then_stop_failure : A → E → E → ActorFailure A E

pub data ActorResult (A E : Type 0) : Type 0 where
  completed : A → Bool → ActorResult A E
  failed : ActorFailure A E → Bool → ActorResult A E

-- What `into_result` returns, a `Result`.
pub data Outcome (A E : Type 0) : Type 0 where
  ok : A → Outcome A E
  err : E → Outcome A E

module _ {A E : Type 0} where
  unfoldable pub failure_phase : ActorFailure A E → FailurePhase
  failure_phase (start_failure e) = on_start
  failure_phase (idle_failure a e) = on_idle
  failure_phase (stop_failure a e) = on_stop
  failure_phase (idle_then_stop_failure a e s) = on_idle_then_on_stop

  pub failure_error : ActorFailure A E → E
  failure_error (start_failure e) = e
  failure_error (idle_failure a e) = e
  failure_error (stop_failure a e) = e
  failure_error (idle_then_stop_failure a e s) = e

  pub failure_into_error : ActorFailure A E → E
  failure_into_error (start_failure e) = e
  failure_into_error (idle_failure a e) = e
  failure_into_error (stop_failure a e) = e
  failure_into_error (idle_then_stop_failure a e s) = e

  pub failure_actor : ActorFailure A E → Option A
  failure_actor (start_failure e) = none
  failure_actor (idle_failure a e) = some a
  failure_actor (stop_failure a e) = some a
  failure_actor (idle_then_stop_failure a e s) = some a

  pub failure_into_actor : ActorFailure A E → Option A
  failure_into_actor (start_failure e) = none
  failure_into_actor (idle_failure a e) = some a
  failure_into_actor (stop_failure a e) = some a
  failure_into_actor (idle_then_stop_failure a e s) = some a

  pub stop_error : ActorFailure A E → Option E
  stop_error (idle_then_stop_failure a e s) = some s
  stop_error _ = none

  pub into_stop_error : ActorFailure A E → Option E
  into_stop_error (idle_then_stop_failure a e s) = some s
  into_stop_error _ = none

  unfoldable pub is_completed : ActorResult A E → Bool
  is_completed (completed a k) = true
  is_completed (failed f k) = false

  unfoldable pub was_killed : ActorResult A E → Bool
  was_killed (completed a true) = true
  was_killed (failed f true) = true
  was_killed _ = false

  pub stopped_normally : ActorResult A E → Bool
  stopped_normally (completed a false) = true
  stopped_normally _ = false

  unfoldable pub phase : ActorResult A E → Option FailurePhase
  unfolding failure_phase
  phase (completed a k) = none
  phase (failed f k) = some (failure_phase f)

  pub is_startup_failed : ActorResult A E → Bool
  is_startup_failed (failed (start_failure e) k) = true
  is_startup_failed _ = false

  pub is_runtime_failed : ActorResult A E → Bool
  is_runtime_failed (failed (idle_failure a e) k) = true
  is_runtime_failed (failed (idle_then_stop_failure a e s) k) = true
  is_runtime_failed _ = false

  pub is_cleanup_failed : ActorResult A E → Bool
  is_cleanup_failed (failed (idle_then_stop_failure a e s) k) = true
  is_cleanup_failed _ = false

  pub is_stop_failed : ActorResult A E → Bool
  is_stop_failed (failed (stop_failure a e) k) = true
  is_stop_failed (failed (idle_then_stop_failure a e s) k) = true
  is_stop_failed _ = false

  pub actor : ActorResult A E → Option A
  unfolding failure_actor
  actor (completed a k) = some a
  actor (failed f k) = failure_actor f

  pub into_actor : ActorResult A E → Option A
  unfolding failure_into_actor
  into_actor (completed a k) = some a
  into_actor (failed f k) = failure_into_actor f

  pub error : ActorResult A E → Option E
  unfolding failure_error
  error (completed a k) = none
  error (failed f k) = some (failure_error f)

  pub into_error : ActorResult A E → Option E
  unfolding failure_into_error
  into_error (completed a k) = none
  into_error (failed f k) = some (failure_into_error f)

  pub secondary_error : ActorResult A E → Option E
  unfolding stop_error
  secondary_error (completed a k) = none
  secondary_error (failed f k) = stop_error f

  pub into_secondary_error : ActorResult A E → Option E
  unfolding into_stop_error
  into_secondary_error (completed a k) = none
  into_secondary_error (failed f k) = into_stop_error f

  pub is_failed : ActorResult A E → Bool
  unfolding is_completed
  is_failed r = not (is_completed r)

  pub has_actor : ActorResult A E → Bool
  unfolding actor
  has_actor r = elim (actor r) [ none ↦ false | some a ↦ true ]

  pub into_result : ActorResult A E → Outcome A E
  unfolding failure_into_error
  into_result (completed a k) = ok a
  into_result (failed f k) = err (failure_into_error f)

  pub into_parts : ActorResult A E → Option A × Option E
  into_parts (completed a k) = (some a, none)
  into_parts (failed (start_failure e) k) = (none, some e)
  into_parts (failed (idle_failure a e) k) = (some a, some e)
  into_parts (failed (stop_failure a e) k) = (some a, some e)
  into_parts (failed (idle_then_stop_failure a e s) k) = (some a, some e)
