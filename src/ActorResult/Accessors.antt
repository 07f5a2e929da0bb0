-- ===== src/ActorResult/Accessors.antt =====
-- The accessors of an `ActorResult` agree with one another.
use rsactor.Base.{◌≡◌, ◌≢◌, ◌↔◌, ◌⊎◌, refl, inl, inr, true, false, none, some, arith}
use rsactor.ActorResult.{
  on_start, on_idle, on_stop, on_idle_then_on_stop, start_failure, idle_failure, stop_failure,
  idle_then_stop_failure, ActorResult, completed, failed, ok, err, is_completed, was_killed,
  stopped_normally, phase, is_startup_failed, is_runtime_failed, is_cleanup_failed, is_stop_failed,
  actor, error, secondary_error, is_failed, has_actor, into_result, into_parts, into_actor,
  into_error, into_secondary_error,
}

module _ {A E : Type 0} where
  -- The Boolean predicates and the optional parts of a result are determined by its phase: a
  -- result is completed with no phase; startup, runtime, cleanup and stop failures are the phases
  -- that their names say, a failure of `on_stop` after one of `on_idle` counting for all three of
  -- the latter; the actor is missing exactly after a failed `on_start`; a second error is there
  -- exactly for a cleanup failure.
  pub phase_determines :
      (r : ActorResult A E)
      → ((is_failed r ≡ true) ↔ (phase r ≢ none))
        × ((is_startup_failed r ≡ true) ↔ (phase r ≡ some on_start))
        × ((is_runtime_failed r ≡ true)
            ↔ ((phase r ≡ some on_idle) ⊎ (phase r ≡ some on_idle_then_on_stop)))
        × ((is_cleanup_failed r ≡ true) ↔ (phase r ≡ some on_idle_then_on_stop))
        × ((is_stop_failed r ≡ true)
            ↔ ((phase r ≡ some on_stop) ⊎ (phase r ≡ some on_idle_then_on_stop)))
        × ((has_actor r ≡ false) ↔ (phase r ≡ some on_start))
        × ((secondary_error r ≢ none) ↔ (phase r ≡ some on_idle_then_on_stop))
  unfolding is_failed is_startup_failed is_runtime_failed is_cleanup_failed is_stop_failed has_actor
      secondary_error phase
  phase_determines (completed a k) = grind arith
  phase_determines (failed (start_failure e) k) = grind arith
  phase_determines (failed (idle_failure a e) k) = grind arith
  phase_determines (failed (stop_failure a e) k) = grind arith
  phase_determines (failed (idle_then_stop_failure a e s) k) = grind arith

  -- The three ways to take a result apart agree: `into_parts` is the pair of `into_actor` and
  -- `into_error`, an accessor that consumes the result gives what its twin that borrows gives,
  -- `into_result` is `Ok` of the actor where there is no error and `Err` of the error otherwise, and
  -- the result stopped normally exactly if it is completed and not killed.
  pub parts_agree :
      (r : ActorResult A E)
      → (into_parts r ≡ (into_actor r, into_error r))
        × (into_actor r ≡ actor r)
        × (into_error r ≡ error r)
        × (into_secondary_error r ≡ secondary_error r)
        × (((a : A) × (into_result r ≡ ok a) × (actor r ≡ some a) × (error r ≡ none))
            ⊎ ((e : E) × (into_result r ≡ err e) × (error r ≡ some e)))
        × ((stopped_normally r ≡ true) ↔ ((is_completed r ≡ true) × (was_killed r ≡ false)))
  unfolding into_parts into_actor into_error into_secondary_error actor error secondary_error
      into_result stopped_normally is_completed was_killed
  parts_agree (completed a true) = (refl, refl, refl, refl, inl (a, refl, refl, refl), ground arith)
  parts_agree (completed a false) =
      (refl, refl, refl, refl, inl (a, refl, refl, refl), ground arith)
  parts_agree (failed (start_failure e) true) =
      (refl, refl, refl, refl, inr (e, refl, refl), ground arith)
  parts_agree (failed (idle_failure a e) true) =
      (refl, refl, refl, refl, inr (e, refl, refl), ground arith)
  parts_agree (failed (stop_failure a e) true) =
      (refl, refl, refl, refl, inr (e, refl, refl), ground arith)
  parts_agree (failed (idle_then_stop_failure a e s) true) =
      (refl, refl, refl, refl, inr (e, refl, refl), ground arith)
  parts_agree (failed (start_failure e) false) =
      (refl, refl, refl, refl, inr (e, refl, refl), ground arith)
  parts_agree (failed (idle_failure a e) false) =
      (refl, refl, refl, refl, inr (e, refl, refl), ground arith)
  parts_agree (failed (stop_failure a e) false) =
      (refl, refl, refl, refl, inr (e, refl, refl), ground arith)
  parts_agree (failed (idle_then_stop_failure a e s) false) =
      (refl, refl, refl, refl, inr (e, refl, refl), ground arith)
