-- ===== src/ActorRef/Signals/Laws.antt =====
-- Stop and kill signals, joined tasks and weak references of src/actor_ref.rs.
use rsactor.Base.{
  ℕ, zero, suc, ◌≡◌, refl, ◌↔◌, Bool, true, false, none, some, List, [], arith, if◌then◌else◌,
}
use rsactor.Error.{join}
use rsactor.DeadLetter.{DeadLetter}
use rsactor.ActorRef.Call.{Answers, Target, ok, err, Call, completed, panicked, not_sent}
use rsactor.ActorRef.Send.{panic_if_self_send_on_full, tell_call, tell_inner, tell_send, ask_call}
use rsactor.ActorRef.Control.{Strong, is_alive, upgrade, flatten}
use rsactor.ActorRef.Signals.{
  TerminateChannel, try_terminate, kill, stop_send, stop_call, Joined, joined, join_failed,
  finish_join, ask_join, downgrade,
}

-- what a call comes to but for the text of a panic and for the error
module _ {Time Cause X : Type 0} where
  abbrev pub admissions : Call Time Cause X → ℕ
  admissions (completed r letters n) = n
  admissions (panicked text letters n) = n

  abbrev pub letters_of : Call Time Cause X → List DeadLetter
  letters_of (completed r letters n) = letters
  letters_of (panicked text letters n) = letters

  abbrev pub has_panicked : Call Time Cause X → Bool
  has_panicked (completed r letters n) = false
  has_panicked (panicked text letters n) = true

  abbrev pub has_failed : Call Time Cause X → Bool
  has_failed (completed (ok x) letters n) = false
  has_failed (completed (err e) letters n) = true
  has_failed (panicked text letters n) = false

module _ (Time : Type 0) {Cause : Type 0} where
  -- A stop signal reaches the mailbox just where a tell would, and panics just where a tell would,
  -- but a stop that finds the mailbox closed neither fails nor records a dead letter. This is for
  -- every answer of the channel, with the deadlock detection on or off.
  pub stop_like_tell :
      (a : Answers Cause (Unit {0})) (t : Target)
      → (admissions (stop_call {Time = Time} a t) ≡ admissions (tell_call {Time = Time} a t))
        × (has_panicked (stop_call {Time = Time} a t) ≡ has_panicked (tell_call {Time = Time} a t))
        × (has_failed (stop_call {Time = Time} a t) ≡ false)
        × (letters_of (stop_call {Time = Time} a t) ≡ [])
  unfolding stop_call stop_send tell_call tell_inner tell_send not_sent panic_if_self_send_on_full
  stop_like_tell a t = ground arith

-- A reference that is made weak is upgraded to itself, with each of its senders, exactly while the
-- actor is alive.
pub downgrade_round_trip :
    (r : Strong) → upgrade (downgrade r) ≡ (if is_alive r then some r else none)
unfolding downgrade upgrade is_alive flatten
downgrade_round_trip r = ground arith

-- the signals after that many kills
abbrev kills : ℕ → TerminateChannel → TerminateChannel
kills zero c = c
kills (suc n) c = kills n (kill c)

-- one kill is as good as many
pub kill_idempotent : (c : TerminateChannel) → kill (kill c) ≡ kill c
unfolding kill try_terminate
kill_idempotent c = ground arith

module _ {Time Cause Handle R : Type 0} where
  abbrev JoinedBy :
      (Handle → Joined Cause R) → Call Time Cause Handle → R → List DeadLetter → ℕ → Type 0
  JoinedBy await c r letters n =
      (h : Handle) × (c ≡ completed (ok h) letters n) × (await h ≡ joined r)

  finish_join-JoinedBy :
      (await : Handle → Joined Cause R) (t : Target) (c : Call Time Cause Handle) (r : R)
      (letters : List DeadLetter) (n : ℕ)
      → finish_join await t c ≡ completed (ok r) letters n
      → JoinedBy await c r letters n
  unfolding finish_join
  finish_join-JoinedBy await t (completed (ok h) ds m) r letters n e = by_handle (await h) refl
    where
      by_handle :
          (j : Joined Cause R) → await h ≡ j → JoinedBy await (completed (ok h) ds m) r letters n
      by_handle (joined x) f =
          let g : completed (ok x) ds m ≡ completed (ok r) letters n = rw (f, finish_join) at e in
          (h, cc, cc)
      by_handle (join_failed c) f =
          let g : completed (err (join t.identity c)) ds m ≡ completed (ok r) letters n =
            rw (f, finish_join) at e in
          cc
  finish_join-JoinedBy await t (completed (err x) ds m) r letters n e = cc
  finish_join-JoinedBy await t (panicked text ds m) r letters n e = cc

  -- a joined ask succeeds just where the ask gives a handle whose task ends
  ask_join_iff :
      (a : Answers Cause Handle) (t : Target) (await : Handle → Joined Cause R) (r : R)
      (letters : List DeadLetter) (n : ℕ)
      → (ask_join {Time = Time} a t await ≡ completed (ok r) letters n)
        ↔ JoinedBy await (ask_call a t) r letters n
  unfolding ask_join finish_join
  ask_join_iff a t await r letters n = (
    finish_join-JoinedBy await t (ask_call a t) r letters n,
    λ (h, e, f). rw (e, finish_join) (rw f refl),
  )
