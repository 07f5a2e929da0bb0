-- ===== src/ActorRef/Letters.antt =====
-- The dead letters of the calls of src/actor_ref.rs.
use rsactor.Base.{
  ℕ, ◌≤◌, if◌then◌else◌, ◌≡◌, refl, String, Bool, true, false, none, some, List, [], ◌∷◌, arith,
}
use rsactor.Error.{Operation, send, receive, timeout, downcast, runtime}
use rsactor.DeadLetter.{DeadLetter, actor_stopped, timed_out, reply_dropped, runtime_unavailable}
use rsactor.ActorRef.Call.{
  Answers, Target, Result, ok, err, Call, completed, panicked, letter, not_sent, arm_timeout,
  by_deadline, with_timeout, on_worker,
}
use rsactor.ActorRef.Send.{panic_if_self_send_on_full, require_priority}
use rsactor.ActorRef.Blocking.{
  on_thread, in_place, join_thread, run_blocking_on, block_on, guard_blocking,
}

module _ {Time Cause X : Type 0} where
  -- The dead letters that a result calls for. A runtime error with a cause is a thread or a runtime
  -- that did not start.
  pub expected_letters : Target → Operation → Result Time Cause X → List DeadLetter
  expected_letters t o (ok x) = []
  expected_letters t o (err (send i d)) = letter t actor_stopped o ∷ []
  expected_letters t o (err (receive i d)) = letter t reply_dropped o ∷ []
  expected_letters t o (err (timeout i d p)) = letter t timed_out o ∷ []
  expected_letters t o (err (runtime i d (some c))) = letter t runtime_unavailable o ∷ []
  expected_letters t o (err _) = []

  -- How often the message may be in a channel: once for a reply, a lost reply or one of another
  -- type, at most once at a timeout, at most `k` times where a thread panicked, and else never.
  pub IsAdmission : ℕ → Result Time Cause X → ℕ → Type 0
  IsAdmission k (ok x) n = n ≡ 1
  IsAdmission k (err (receive i d)) n = n ≡ 1
  IsAdmission k (err (downcast i d)) n = n ≡ 1
  IsAdmission k (err (timeout i d p)) n = n ≤ 1
  IsAdmission k (err (runtime i d none)) n = n ≤ k
  IsAdmission k (err _) n = n ≡ 0

  -- The dead letters and the admissions are those of the result; a panic has no dead letter, and at
  -- most `k` admissions.
  pub IsAccounted : ℕ → Target → Operation → Call Time Cause X → Type 0
  unfolding expected_letters IsAdmission
  IsAccounted k t o (completed r ds n) = (ds ≡ expected_letters t o r) × IsAdmission k r n
  IsAccounted k t o (panicked text ds n) = (ds ≡ []) × (n ≤ k)

module _ {Cause X : Type 0} where
  -- the admissions that the panic of a thread may leave
  abbrev pub worker_admits : Answers Cause X → ℕ
  worker_admits a = elim a.worker_panic [ none ↦ 0 | some w ↦ if w.admitted then 1 else 0 ]

module _ (k : ℕ) {Time Cause X : Type 0} where
  arm_timeout-IsAccounted :
      (a : Answers Cause X) (t : Target) (o : Operation) (c : Call Time Cause X)
      → IsAccounted k t o c
      → IsAccounted k t o (arm_timeout a c)
  unfolding arm_timeout IsAccounted
  arm_timeout-IsAccounted a t o c h = ground arith

  by_deadline-IsAccounted :
      (a : Answers Cause X) (t : Target) (time : Time) (o : Operation) (c : Call Time Cause X)
      → IsAccounted k t o c
      → IsAccounted k t o (by_deadline a t time o c)
  unfolding by_deadline IsAccounted expected_letters IsAdmission
  by_deadline-IsAccounted a t time o c h = ground arith

  pub with_timeout-IsAccounted :
      (a : Answers Cause X) (t : Target) (time : Time) (o : Operation) (c : Call Time Cause X)
      → IsAccounted k t o c
      → IsAccounted k t o (with_timeout a t time o c)
  unfolding with_timeout
  with_timeout-IsAccounted a t time o c h =
      arm_timeout-IsAccounted a t o _ (by_deadline-IsAccounted a t time o c h)

  pub if_sent-IsAccounted :
      (b : Bool) (t : Target) (o : Operation) (d : String) (c : Call Time Cause X)
      → IsAccounted k t o c
      → IsAccounted k t o (if b then c else not_sent t o d)
  unfolding not_sent IsAccounted expected_letters IsAdmission
  if_sent-IsAccounted true t o d c h = h
  if_sent-IsAccounted false t o d c h = (refl, refl)

  pub require_priority-IsAccounted :
      (a : Answers Cause X) (t : Target) (o : Operation) (c : Call Time Cause X)
      → IsAccounted k t o c
      → IsAccounted k t o (require_priority a t c)
  unfolding require_priority IsAccounted expected_letters IsAdmission
  require_priority-IsAccounted a t o c h = ground arith

  pub guard_blocking-IsAccounted :
      (a : Answers Cause X) (t : Target) (o : Operation) (c : Call Time Cause X)
      → IsAccounted k t o c
      → IsAccounted k t o (guard_blocking a c)
  unfolding guard_blocking IsAccounted
  guard_blocking-IsAccounted a t o c h = ground arith

  -- a panic of the future becomes an error without a cause, and the future then left no dead letter
  join_thread-IsAccounted :
      (a : Answers Cause X) (t : Target) (o : Operation) (m : String) (c : Call Time Cause X)
      → IsAccounted k t o c
      → IsAccounted k t o (join_thread a t m c)
  unfolding join_thread IsAccounted expected_letters IsAdmission
  join_thread-IsAccounted a t o m (completed r ds n) h = h
  join_thread-IsAccounted a t o m (panicked text ds n) h = ground arith

  -- the thread's own panic leaves what it says
  on_thread-IsAccounted :
      (a : Answers Cause X) (t : Target) (o : Operation) (c : Call Time Cause X)
      → worker_admits a ≤ k
      → IsAccounted k t o c
      → IsAccounted k t o (on_thread a c)
  unfolding on_thread IsAccounted
  on_thread-IsAccounted a t o c b h = ground arith

  pub in_place-IsAccounted :
      (a : Answers Cause X) (t : Target) (o : Operation) (c : Call Time Cause X)
      → IsAccounted k t o c
      → IsAccounted k t o (in_place a c)
  unfolding in_place IsAccounted
  in_place-IsAccounted a t o c h = ground arith

  run_blocking_on-IsAccounted :
      (a : Answers Cause X) (t : Target) (o : Operation) (m : String) (c : Call Time Cause X)
      → worker_admits a ≤ k
      → IsAccounted k t o c
      → IsAccounted k t o (run_blocking_on a t o m c)
  unfolding run_blocking_on IsAccounted expected_letters IsAdmission
  run_blocking_on-IsAccounted a t o m c b h =
      let j : IsAccounted k t o (join_thread a t m (on_thread a c)) =
        join_thread-IsAccounted a t o m _ (on_thread-IsAccounted a t o c b h) in
      ground arith

  pub block_on-IsAccounted :
      (a : Answers Cause X) (t : Target) (o : Operation) (m : String)
      (c : Answers Cause X → Call Time Cause X)
      → worker_admits a ≤ k
      → IsAccounted k t o (c a)
      → IsAccounted k t o (c (on_worker a))
      → IsAccounted k t o (block_on a t o m c)
  unfolding block_on
  block_on-IsAccounted a t o m c b g h =
      let i : IsAccounted k t o (in_place a (c a)) = in_place-IsAccounted a t o (c a) g in
      let j : IsAccounted k t o (run_blocking_on a t o m (c (on_worker a))) =
        run_blocking_on-IsAccounted a t o m _ b h in
      ground arith

  pub panic_if_self_send_on_full-IsAccounted :
      (a : Answers Cause X) (t : Target) (o : Operation) (m : String) (c : Call Time Cause X)
      → IsAccounted k t o c
      → IsAccounted k t o (panic_if_self_send_on_full a t m c)
  unfolding panic_if_self_send_on_full IsAccounted
  panic_if_self_send_on_full-IsAccounted a t o m c h = ground arith

module _ (k : ℕ) (Time Cause : Type 0) {X : Type 0} (t : Target) (o : Operation) where
  -- a message that is accepted at once
  pub accepted-IsAccounted :
      (x : X) → IsAccounted {Time = Time} {Cause = Cause} k t o (completed (ok x) [] 1)
  unfolding IsAccounted expected_letters IsAdmission
  accepted-IsAccounted x = (refl, refl)

module _ (k : ℕ) (Time Cause X : Type 0) (t : Target) (o : Operation) where
  -- a message that the channel refuses
  pub not_sent-IsAccounted :
      (d : String) → IsAccounted {Time = Time} {Cause = Cause} {X = X} k t o (not_sent t o d)
  unfolding not_sent IsAccounted expected_letters IsAdmission
  not_sent-IsAccounted d = (refl, refl)
