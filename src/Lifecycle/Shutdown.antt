-- ===== src/Lifecycle/Shutdown.antt =====
-- The end of a running actor by `kill`.
use rsactor.Base.{◌≡◌, refl, ap, Bool, true, Option, none, some, List, [], ◌∷◌, ◌++◌}
use mathlib.Core.List.{append_assoc}
use rsactor.ActorResult.{completed, failed, stop_failure}
use rsactor.Lifecycle.Program.{Program, Call, returns, cut, Event, stopping}
use rsactor.Lifecycle.State.{Poll, Loop, Flow, continues, ends, breaks, select}
use rsactor.Lifecycle.Arms.{close_subscriptions, finish_stop, on_terminate, on_arm, iterate}
use rsactor.Lifecycle.Loop.{Ending, finished, broken, suspended, and_then, run_loop}

module _ (p : Program) where
  -- How a task that is killed ends, by what the actor's `on_stop` does.
  abbrev pub killed_by : Call (p.Actor × Option p.Error) → Ending p
  killed_by (cut c) = broken c
  killed_by (returns (a, none)) = finished (completed a true)
  killed_by (returns (a, some e)) = finished (failed (stop_failure a e) true)

  -- A loop that is suspended goes on with the polls that follow.
  resume : Bool → List (Poll p) → List (Event p) × Ending p → List (Event p) × Ending p
  resume debug more (t, finished r) = (t, finished r)
  resume debug more (t, broken c) = (t, broken c)
  resume debug more (t, suspended m) =
      (t ++ (run_loop p debug more m).0, (run_loop p debug more m).1)

  resume-and_then :
      (debug : Bool) (more : List (Poll p)) (x : List (Event p) × Flow p)
      (next next' : Loop p → List (Event p) × Ending p)
      → ((l : Loop p) → next' l ≡ resume debug more (next l))
      → and_then p x next' ≡ resume debug more (and_then p x next)
  unfolding and_then resume
  resume-and_then debug more (t, breaks c) next next' n = refl
  resume-and_then debug more (t, ends r) next next' n = refl
  resume-and_then debug more (t, continues l) next next' n = rw (n l) (rest (next l))
    where
      rest :
          (y : List (Event p) × Ending p)
          → ◌≡◌ {A = List (Event p) × Ending p}
              (t ++ (resume debug more y).0, (resume debug more y).1)
              (resume debug more (t ++ y.0, y.1))
      rest (u, finished r) = refl
      rest (u, broken c) = refl
      rest (u, suspended m) = rw (append_assoc t u (run_loop p debug more m).0)

  run_loop-append :
      (debug : Bool) (rs more : List (Poll p)) (l : Loop p)
      → run_loop p debug (rs ++ more) l ≡ resume debug more (run_loop p debug rs l)
  unfolding run_loop resume
  run_loop-append debug [] more l = refl
  run_loop-append debug (r ∷ rs) more l =
      resume-and_then debug more (iterate p debug l r) (run_loop p debug rs)
        (run_loop p debug (rs ++ more)) (λ m. run_loop-append debug rs more m)

  finish_stop-killed_by :
      (t : List (Event p)) (a : p.Actor) (o : Call (p.Actor × Option p.Error))
      (next : Loop p → List (Event p) × Ending p)
      → p.on_stop a true ≡ o
      → ((and_then p (t, finish_stop p a true) next).0 ≡ t)
        × ((and_then p (t, finish_stop p a true) next).1 ≡ killed_by o)
  unfolding finish_stop and_then
  finish_stop-killed_by t a (cut c) next e = rw (e, finish_stop) (refl, refl)
  finish_stop-killed_by t a (returns (b, none)) next e = rw (e, finish_stop) (refl, refl)
  finish_stop-killed_by t a (returns (b, some x)) next e = rw (e, finish_stop) (refl, refl)

  terminate-killed_by :
      (debug : Bool) (r : Poll p) (more : List (Poll p)) (m : Loop p)
      → r.terminate ≡ some (some tt)
      → ((run_loop p debug (r ∷ more) m).0 ≡ close_subscriptions p m ++ stopping true ∷ [])
        × ((run_loop p debug (r ∷ more) m).1 ≡ killed_by (p.on_stop m.actor true))
  unfolding run_loop iterate select on_arm on_terminate
  terminate-killed_by debug r more m e =
      rw (e, select)
        (finish_stop-killed_by (close_subscriptions p m ++ stopping true ∷ []) m.actor _
          (run_loop p debug more) refl)

-- `kill` takes effect at the next poll, whatever else is ready then: after any run that leaves the
-- loop waiting, a terminate signal makes the task close the subscriptions and call `on_stop` with
-- `killed = true`, and nothing else. No message and no idle event is taken up any more, the polls
-- after it are not looked at. Once `on_stop` returned, the task has finished with a result that says
-- that the actor was killed and holds its error, if it gave one; it is broken off only where
-- `on_stop` itself is.
pub kill_wins :
    (p : Program) (debug : Bool) (rs more : List (Poll p)) (r : Poll p) (l m : Loop p)
    (t : List (Event p))
    → run_loop p debug rs l ≡ (t, suspended m)
    → r.terminate ≡ some (some tt)
    → ((run_loop p debug (rs ++ r ∷ more) l).0
        ≡ t ++ (close_subscriptions p m ++ stopping true ∷ []))
      × ((run_loop p debug (rs ++ r ∷ more) l).1 ≡ killed_by p (p.on_stop m.actor true))
unfolding resume
kill_wins p debug rs more r l m t before signal =
    let (trace, killed) = terminate-killed_by p debug r more m signal in
    rw (run_loop-append p debug rs (r ∷ more) l, before) (ap (◌++◌ t) trace, killed)
