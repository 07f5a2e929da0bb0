-- ===== src/ActorRef/Tells.antt =====
-- The dead letters and the panics of the tells of src/actor_ref.rs.
use rsactor.Base.{ℕ, ◌≡◌, String, Bool, true, false, Option, none, some, [], arith}
use rsactor.Identity.{Identity}
use rsactor.Error.{Operation, tell, tell_priority, blocking_tell, blocking_tell_priority}
use rsactor.ActorRef.Call.{Answers, Target, ok, completed, with_timeout, on_worker, not_sent}
use rsactor.ActorRef.Send.{
  mailbox_closed, priority_closed, tell_send, tell_inner, tell_call, tell_with_timeout,
  tell_priority_call,
}
use rsactor.ActorRef.Blocking.{
  in_place, guard_blocking, admit, admit_blocking, blocking_tell_full, blocking_tell_call,
  blocking_tell_priority_call,
}
use rsactor.ActorRef.Letters.{
  worker_admits, in_place-IsAccounted, IsAccounted, accepted-IsAccounted, not_sent-IsAccounted,
  with_timeout-IsAccounted, if_sent-IsAccounted, require_priority-IsAccounted,
  guard_blocking-IsAccounted, block_on-IsAccounted, panic_if_self_send_on_full-IsAccounted,
}

module _ (k : ℕ) (Time : Type 0) {Cause : Type 0} (a : Answers Cause (Unit {0})) (t : Target) where
  tell_send-IsAccounted : IsAccounted k t tell (tell_send {Time = Time} a t)
  unfolding tell_send
  tell_send-IsAccounted =
      if_sent-IsAccounted k a.send_delivers t tell mailbox_closed _
        (accepted-IsAccounted k Time Cause t tell tt)

  admit-IsAccounted : (o : Operation) (d : String) → IsAccounted k t o (admit {Time = Time} a t o d)
  unfolding admit
  admit-IsAccounted o d =
      if_sent-IsAccounted k a.send_delivers t o d _ (accepted-IsAccounted k Time Cause t o tt)

  tell_inner-IsAccounted : (b : Bool) → IsAccounted k t tell (tell_inner {Time = Time} a t b)
  unfolding tell_inner
  tell_inner-IsAccounted b =
      let s = tell_send-IsAccounted in
      let i = accepted-IsAccounted k Time Cause t tell tt in
      let p = panic_if_self_send_on_full-IsAccounted k a t tell "tell" _ s in ground arith

module _ (Time : Type 0) {Cause : Type 0} (a : Answers Cause (Unit {0})) (t : Target) where
  admit_blocking-IsAccounted :
      (limit : Option Time)
      → IsAccounted (worker_admits a) t blocking_tell (admit_blocking a t limit)
  unfolding admit_blocking
  admit_blocking-IsAccounted (some time) =
      block_on-IsAccounted (worker_admits a) a t blocking_tell _
        (λ b. with_timeout b t time blocking_tell (admit b t blocking_tell mailbox_closed))
        (omega arith)
        (with_timeout-IsAccounted (worker_admits a) a t time blocking_tell _
          (admit-IsAccounted (worker_admits a) Time a t blocking_tell mailbox_closed))
        (with_timeout-IsAccounted (worker_admits a) (on_worker a) t time blocking_tell _
          (admit-IsAccounted (worker_admits a) Time (on_worker a) t blocking_tell mailbox_closed))
  admit_blocking-IsAccounted none =
      let i = admit-IsAccounted (worker_admits a) Time a t blocking_tell mailbox_closed in
      let q : IsAccounted (worker_admits a) t blocking_tell
          (in_place a (admit {Time = Time} a t blocking_tell mailbox_closed)) =
        in_place-IsAccounted (worker_admits a) a t blocking_tell _ i in
      let g : IsAccounted (worker_admits a) t blocking_tell
          (guard_blocking a (admit {Time = Time} a t blocking_tell mailbox_closed)) =
        guard_blocking-IsAccounted (worker_admits a) a t blocking_tell _ i in
      ground arith

  blocking_tell_full-IsAccounted :
      (limit : Option Time)
      → IsAccounted (worker_admits a) t blocking_tell (blocking_tell_full a t limit)
  unfolding blocking_tell_full
  blocking_tell_full-IsAccounted (some time) = admit_blocking-IsAccounted (some time)
  blocking_tell_full-IsAccounted none =
      let i = admit_blocking-IsAccounted none in
      let p =
        panic_if_self_send_on_full-IsAccounted (worker_admits a) a t blocking_tell "blocking_tell" _
          i in
      ground arith

  blocking_tell_call-IsAccounted :
      (limit : Option Time)
      → IsAccounted (worker_admits a) t blocking_tell (blocking_tell_call a t limit)
  unfolding blocking_tell_call
  blocking_tell_call-IsAccounted limit =
      let o : IsAccounted (worker_admits a) t blocking_tell (completed (ok tt) [] 1) =
        accepted-IsAccounted (worker_admits a) Time Cause t blocking_tell tt in
      let c : IsAccounted (worker_admits a) t blocking_tell
          (not_sent {Time = Time} {Cause = Cause} {X = Unit {0}} t blocking_tell mailbox_closed) =
        not_sent-IsAccounted (worker_admits a) Time Cause (Unit {0}) t blocking_tell
          mailbox_closed in
      let i = blocking_tell_full-IsAccounted limit in ground arith

  blocking_tell_priority_call-IsAccounted :
      (time : Time)
      → IsAccounted
          (worker_admits a)
          t
          blocking_tell_priority
          (blocking_tell_priority_call a t time)
  unfolding blocking_tell_priority_call
  blocking_tell_priority_call-IsAccounted time =
      require_priority-IsAccounted (worker_admits a) a t blocking_tell_priority _ (
        let o : IsAccounted (worker_admits a) t blocking_tell_priority (completed (ok tt) [] 1) =
          accepted-IsAccounted (worker_admits a) Time Cause t blocking_tell_priority tt in
        let c : IsAccounted (worker_admits a) t blocking_tell_priority (
            not_sent {Time = Time} {Cause = Cause} {X = Unit {0}} t blocking_tell_priority
              priority_closed) =
          not_sent-IsAccounted (worker_admits a) Time Cause (Unit {0}) t blocking_tell_priority
            priority_closed in
        let b =
          block_on-IsAccounted (worker_admits a) a t blocking_tell_priority
            "Priority blocking thread terminated unexpectedly"
            (λ b.
              with_timeout b t time blocking_tell_priority
                (admit b t blocking_tell_priority priority_closed))
            (omega arith)
            (with_timeout-IsAccounted (worker_admits a) a t time blocking_tell_priority _
              (admit-IsAccounted (worker_admits a) Time a t blocking_tell_priority priority_closed))
            (with_timeout-IsAccounted (worker_admits a) (on_worker a) t time blocking_tell_priority
              _
              (admit-IsAccounted (worker_admits a) Time (on_worker a) t blocking_tell_priority
                priority_closed)) in
        ground arith)

  -- Each of the five tells, whatever the channels, the deadline and the runtime answer, records just
  -- the dead letters that its result calls for under its own operation, one for a closed channel, a
  -- timeout and a runtime that did not start and none else. The message is in a channel once when
  -- the tell succeeds and at most once at a timeout. A blocking tell whose worker thread panicked
  -- after the message was admitted may leave it there, with an error or a panic; apart from this,
  -- any other error and any panic leaves the message in no channel.
  pub tells-IsAccounted :
      (time : Time) (limit : Option Time)
      → IsAccounted 0 t tell (tell_call {Time = Time} a t)
        × IsAccounted 0 t tell (tell_with_timeout a t time)
        × IsAccounted 0 t tell_priority (tell_priority_call a t time)
        × IsAccounted (worker_admits a) t blocking_tell (blocking_tell_call a t limit)
        × IsAccounted
            (worker_admits a)
            t
            blocking_tell_priority
            (blocking_tell_priority_call a t time)
  unfolding tell_call tell_with_timeout tell_priority_call
  tells-IsAccounted time limit = (
    tell_inner-IsAccounted 0 Time a t true,
    with_timeout-IsAccounted 0 a t time tell _ (tell_inner-IsAccounted 0 Time a t false),
    require_priority-IsAccounted 0 a t tell_priority _ (
        with_timeout-IsAccounted 0 a t time tell_priority _ (
          if_sent-IsAccounted 0 a.send_delivers t tell_priority priority_closed _
            (accepted-IsAccounted 0 Time Cause t tell_priority tt))),
    blocking_tell_call-IsAccounted limit,
    blocking_tell_priority_call-IsAccounted time,
  )

  -- The calling task is that of the actor itself.
  abbrev pub FromItself : Type 0
  FromItself = (j : Identity) × (a.current_actor ≡ some j) × (j.id ≡ t.identity.id)
