-- ===== src/System/Arms.antt =====
-- Each arm of the loop of src/actor.rs takes up what comes out of its channel.
use rsactor.Base.{
  ℕ, suc, if◌then◌else◌, ◌≡◌, refl, sym, ap, ◌∙◌, Bool, true, false, none, some, List, [], ◌∷◌,
  ◌++◌, map, length, Bool-cases, ◌⊎◌, inl, inr,
}
use rsactor.Lifecycle.Program.{
  Program, Envelope, MailboxMessage, envelope, stop_gracefully, drained, Event,
}
use rsactor.Lifecycle.Envelope.{Handled, done, cut_off, process_envelope}
use rsactor.Lifecycle.State.{
  Loop, Arm, terminated, priority_arm, subscribed, mailbox_arm, idle_arm, pending,
}
use rsactor.Lifecycle.Arms.{chain, drain_priority, on_mailbox, after_quiesce, quiesce, on_arm}
use rsactor.Lifecycle.Biased.{IsAnswer}
use rsactor.Lifecycle.Graceful.{envelopes}
use rsactor.Lifecycle.Taken.{from_mailbox, from_priority, taken, trace, taken-process_envelope}
use rsactor.Lifecycle.Taken.Rounds.{
  taken-on_terminate, taken-on_priority, taken-on_idle_event, taken-on_mailbox, taken-quiesce,
  taken-chain, drain_priority-from_mailbox, IsPrefix, drain_priority-from_priority,
}
use rsactor.System.{
  Channel, skip, External, System, poll_of, mailbox_after, priority_after, recvs_after, drain_recvs,
  quiesce_recvs,
}
use rsactor.System.Queues.{answer-pop, skip-append}

module _ (p : Program) (mc : Channel (MailboxMessage p)) (pc : Channel (Envelope p)) where
  stop_takes_no_mail :
      (debug : Bool) (s : System p mc pc) (x : External p mc pc) (l : Loop p)
      → taken from_mailbox (after_quiesce p l (quiesce p debug l (poll_of p mc pc s x))).0 ≡ []
  unfolding poll_of
  stop_takes_no_mail debug s x l =
      taken-quiesce p from_mailbox debug l (poll_of p mc pc s x)
      ∙ (elim (Bool-cases l.priority_receiver) [
        | inl y ↦ rw (y, drain_priority-from_mailbox p debug l.actor (pc.contents s.priority))
        | inr n ↦ rw n
      ])

  -- a round keeps the mailbox's messages
  pub arm_mailbox :
      (debug : Bool) (s : System p mc pc) (x : External p mc pc) (l : Loop p) (arm : Arm p)
      → IsAnswer l (poll_of p mc pc s x) arm
      → envelopes p (mc.contents s.mailbox)
        ≡ taken from_mailbox (on_arm p debug l (poll_of p mc pc s x) arm).0
          ++ envelopes p (mc.contents (mailbox_after p mc pc arm s.mailbox))
  unfolding on_arm mailbox_after poll_of on_mailbox
  arm_mailbox debug s x l (terminated t) i = rw (taken-on_terminate p from_mailbox l t) refl
  arm_mailbox debug s x l (priority_arm none) i = refl
  arm_mailbox debug s x l (priority_arm (some stop_gracefully)) i = refl
  arm_mailbox debug s x l (priority_arm (some (envelope e))) i =
      rw (taken-on_priority p from_mailbox debug l (some (envelope e))) refl
  arm_mailbox debug s x l (subscribed o) i = refl
  arm_mailbox debug s x l (mailbox_arm none) i = rw (stop_takes_no_mail debug s x l) refl
  arm_mailbox debug s x l (mailbox_arm (some stop_gracefully)) i =
      let (a, kept, same) = answer-pop mc (λ m. m) x.senders_gone s.mailbox stop_gracefully i in
      rw (stop_takes_no_mail debug s x l) (ap (envelopes p) kept ∙ rw same refl)
  arm_mailbox debug s x l (mailbox_arm (some (envelope e))) i =
      let (a, kept, same) = answer-pop mc (λ m. m) x.senders_gone s.mailbox (envelope e) i in
      rw (taken-on_mailbox p from_mailbox debug l (poll_of p mc pc s x) e)
        (ap (envelopes p) kept ∙ rw same refl)
  arm_mailbox debug s x l (idle_arm e) i = rw (taken-on_idle_event p from_mailbox l _ e) refl
  arm_mailbox debug s x l pending i = refl

  recvs-taken :
      (debug : Bool) (a : p.Actor) (es : List (Envelope p))
      → drain_recvs p debug a (map envelope es)
        ≡ length (taken from_priority (trace (drain_priority p debug a (map envelope es))))
  unfolding drain_recvs drain_priority
  recvs-taken debug a [] = refl
  recvs-taken debug a (e ∷ es) =
      by_first (process_envelope p drained a e) (taken-process_envelope p from_priority drained a e)
        (λ b. recvs-taken debug b es)
    where
      by_first :
          (h : Handled p)
          → taken from_priority (trace h) ≡ e ∷ []
          → ((b : p.Actor)
              → drain_recvs p debug b (map envelope es)
                ≡ length (taken from_priority (trace (drain_priority p debug b (map envelope es)))))
          → suc (recvs_after p h (λ b. drain_recvs p debug b (map envelope es)))
            ≡ length (
                taken from_priority
                  (trace (chain p h (λ b. drain_priority p debug b (map envelope es)))))
      by_first (done t b) z ih =
          rw (taken-chain p from_priority t b (λ c. drain_priority p debug c (map envelope es)), z)
            (ap suc (ih b))
      by_first (cut_off c t) z ih = rw z refl

  stop_takes_prefix :
      (debug : Bool) (s : System p mc pc) (x : External p mc pc) (l : Loop p)
      → IsPrefix p
          (taken from_priority (after_quiesce p l (quiesce p debug l (poll_of p mc pc s x))).0)
          (pc.contents s.priority)
        × (quiesce_recvs p debug l (poll_of p mc pc s x)
            ≡ length (
                taken from_priority
                  (after_quiesce p l (quiesce p debug l (poll_of p mc pc s x))).0))
  unfolding poll_of quiesce_recvs
  stop_takes_prefix debug s x l = by_receiver (Bool-cases l.priority_receiver)
    where
      stopped : List (Event p)
      stopped = (after_quiesce p l (quiesce p debug l (poll_of p mc pc s x))).0

      asked : Bool → ℕ
      asked b = if b then drain_recvs p debug l.actor (map envelope (pc.contents s.priority)) else 0

      by_receiver :
          (l.priority_receiver ≡ true) ⊎ (l.priority_receiver ≡ false)
          → IsPrefix p (taken from_priority stopped) (pc.contents s.priority)
            × (quiesce_recvs p debug l (poll_of p mc pc s x) ≡ length (taken from_priority stopped))
      by_receiver (inl y) =
          let q = taken-quiesce p from_priority debug l (poll_of p mc pc s x) in
          let z : taken from_priority stopped
              ≡ taken from_priority
                  (trace (drain_priority p debug l.actor (map envelope (pc.contents s.priority)))) =
            q ∙ rw y refl in
          let (rest, d) = drain_priority-from_priority p debug l.actor (pc.contents s.priority) in
          (
            (rest, rw z d),
            ap asked y ∙ (recvs-taken debug l.actor (pc.contents s.priority) ∙ sym (ap length z)),
          )
      by_receiver (inr n) =
          let q = taken-quiesce p from_priority debug l (poll_of p mc pc s x) in
          let z : taken from_priority stopped ≡ [] = q ∙ rw n refl in
          ((pc.contents s.priority, rw z refl), ap asked n ∙ sym (ap length z))

  stop_keeps_priority :
      (debug : Bool) (s : System p mc pc) (x : External p mc pc) (l : Loop p)
      → pc.contents s.priority
        ≡ taken from_priority (after_quiesce p l (quiesce p debug l (poll_of p mc pc s x))).0
          ++ pc.contents (skip pc (quiesce_recvs p debug l (poll_of p mc pc s x)) s.priority)
  stop_keeps_priority debug s x l =
      let ((rest, d), n) = stop_takes_prefix debug s x l in
      rw n (d ∙ ap (◌++◌ _) (sym (skip-append pc _ rest s.priority d)))

  -- and the priority channel's
  pub arm_priority :
      (debug : Bool) (s : System p mc pc) (x : External p mc pc) (l : Loop p) (arm : Arm p)
      → IsAnswer l (poll_of p mc pc s x) arm
      → pc.contents s.priority
        ≡ taken from_priority (on_arm p debug l (poll_of p mc pc s x) arm).0
          ++ pc.contents (priority_after p mc pc debug l (poll_of p mc pc s x) arm s.priority)
  unfolding on_arm priority_after poll_of on_mailbox
  arm_priority debug s x l (terminated t) i = rw (taken-on_terminate p from_priority l t) refl
  arm_priority debug s x l (priority_arm none) i = refl
  arm_priority debug s x l (priority_arm (some stop_gracefully)) i =
      let (a, kept, same) = answer-pop pc envelope x.senders_gone s.priority stop_gracefully i in cc
  arm_priority debug s x l (priority_arm (some (envelope e))) i =
      let (a, kept, same) = answer-pop pc envelope x.senders_gone s.priority (envelope e) i in
      rw (taken-on_priority p from_priority debug l (some (envelope e))) cc
  arm_priority debug s x l (subscribed o) i = refl
  arm_priority debug s x l (mailbox_arm none) i = stop_keeps_priority debug s x l
  arm_priority debug s x l (mailbox_arm (some stop_gracefully)) i = stop_keeps_priority debug s x l
  arm_priority debug s x l (mailbox_arm (some (envelope e))) i =
      rw (taken-on_mailbox p from_priority debug l (poll_of p mc pc s x) e) refl
  arm_priority debug s x l (idle_arm e) i = rw (taken-on_idle_event p from_priority l _ e) refl
  arm_priority debug s x l pending i = refl
