-- ===== src/Tests/ActorResult.antt =====
-- The accessors of src/actor_result.rs at results.
use rsactor.Base.{ℕ, ◌≡◌, ◌≢◌, ◌↔◌, ◌⊎◌, Bool, true, false, none, some}
use rsactor.ActorResult.{
  on_start, on_idle, on_stop, on_idle_then_on_stop, ActorResult, failed, idle_then_stop_failure,
  phase, is_startup_failed, is_runtime_failed, is_cleanup_failed, is_stop_failed, secondary_error,
  is_failed, has_actor,
}
use rsactor.ActorResult.Accessors.{phase_determines}

-- an actor whose `on_idle` failed, then also its `on_stop`
abbrev twice_failed : ActorResult ℕ Bool
twice_failed = failed (idle_then_stop_failure 3 true false) false

phase_determines_example :
    ((is_failed twice_failed ≡ true) ↔ (phase twice_failed ≢ none))
    × ((is_startup_failed twice_failed ≡ true) ↔ (phase twice_failed ≡ some on_start))
    × ((is_runtime_failed twice_failed ≡ true)
        ↔ ((phase twice_failed ≡ some on_idle) ⊎ (phase twice_failed ≡ some on_idle_then_on_stop)))
    × ((is_cleanup_failed twice_failed ≡ true) ↔ (phase twice_failed ≡ some on_idle_then_on_stop))
    × ((is_stop_failed twice_failed ≡ true)
        ↔ ((phase twice_failed ≡ some on_stop) ⊎ (phase twice_failed ≡ some on_idle_then_on_stop)))
    × ((has_actor twice_failed ≡ false) ↔ (phase twice_failed ≡ some on_start))
    × ((secondary_error twice_failed ≢ none) ↔ (phase twice_failed ≡ some on_idle_then_on_stop))
phase_determines_example = phase_determines twice_failed
