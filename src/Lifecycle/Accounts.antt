-- ===== src/Lifecycle/Accounts.antt =====
-- What a task counts, and the wait-for tokens that it gives back.
use rsactor.Base.{ℕ, ◌+◌, ◌≤◌, refl, List, arith}
use rsactor.Lifecycle.Program.{
  Program, Cut, by_panic, at_await, by_abort, Metric, idle_event, Event,
}
use rsactor.Lifecycle.Envelope.{drop_edge, release}
use rsactor.Lifecycle.Loop.{Ending, finished, broken, suspended, Script, run_actor_lifecycle}
use rsactor.Lifecycle.Trace.{tally, carries, is_drop, same_metric}
use rsactor.Lifecycle.Balance.{lifecycle-Balanced}
use rsactor.Lifecycle.Balance.Messages.{IsBalanced, EndingBalanced}

-- A handler that is suspended holds its token.
abbrev held : Cut → ℕ
held at_await = 1
held _ = 0

abbrev one_behind : Cut → ℕ
one_behind c = 1

module _ {p : Program} where
  tokens-IsBalanced : (i : ℕ) → IsBalanced {p = p} (carries i) (is_drop i) 0 held
  unfolding drop_edge release tally
  tokens-IsBalanced i = record {
    replied_free = λ c r. (refl, refl);
    told_free = λ r. (refl, refl);
    subscriptions_free = (refl, refl);
    priority_free = (refl, refl);
    stopping_free = λ k. (refl, refl);
    message_done = λ src e. ground arith;
    message_cut = λ c src e. ground arith;
    idle_done = λ e. refl;
    idle_cut = λ e. omega arith;
    slack = λ c. omega arith;
  }

-- How many tokens the task still holds.
abbrev pub held_by : {p : Program} → Ending p → ℕ
held_by (broken at_await) = 1
held_by _ = 0

-- A wait-for token that the task takes up in a message is dropped again: as often as it was taken up
-- once the task finished, panicked or was aborted at an await of the actor's code, and also while it
-- waits at the select. While the actor's code is suspended at an await, at most one is still held,
-- and never is one dropped that was not taken up.
pub tokens_dropped :
    (p : Program) (args : p.Args) (s : Script p) (i : ℕ)
    → let (t, ending) = run_actor_lifecycle p args s in
      (tally (is_drop i) t ≤ tally (carries i) t)
      × (tally (carries i) t ≤ tally (is_drop i) t + held_by ending)
tokens_dropped p args s i =
    read (run_actor_lifecycle p args s)
      (lifecycle-Balanced (carries i) (is_drop i) 0 held (tokens-IsBalanced i) args s)
  where
    read :
        (x : List (Event p) × Ending p)
        → EndingBalanced (carries i) (is_drop i) 0 held (tokens-IsBalanced i) x
        → (tally (is_drop i) x.0 ≤ tally (carries i) x.0)
          × (tally (carries i) x.0 ≤ tally (is_drop i) x.0 + held_by x.1)
    read (t, finished r) e = omega arith
    read (t, broken by_panic) e = omega arith
    read (t, broken at_await) e = omega arith
    read (t, broken by_abort) e = omega arith
    read (t, suspended l) e = omega arith

-- By how many calls a counter may be behind: the call that was cut, or the `on_idle` whose error
-- ended the task.
abbrev pub unrecorded : {p : Program} → Metric p → Ending p → ℕ
unrecorded m (suspended l) = 0
unrecorded m (finished r) = same_metric idle_event m
unrecorded m (broken c) = 1
