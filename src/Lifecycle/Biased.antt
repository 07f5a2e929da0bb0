-- ===== src/Lifecycle/Biased.antt =====
-- The order in which the loop of src/actor.rs takes its branches.
use rsactor.Base.{
  ℕ, suc, ◌≡◌, Bool, true, false, not, ◌&&◌, Option, none, some, List, [], ◌∷◌, if◌then◌else◌,
  arith,
}
use rsactor.Lifecycle.Program.{Program}
use rsactor.Lifecycle.State.{
  Poll, Loop, Arm, terminated, priority_arm, subscribed, mailbox_arm, idle_arm, pending, select,
}

abbrev is_some : {X : Type 0} → Option X → Bool
is_some none = false
is_some (some x) = true

module _ {p : Program} where
  -- The branches in the order of the source: terminate, priority, subscription, mailbox, idle.
  abbrev pub branch : Arm p → ℕ
  branch (terminated t) = 0
  branch (priority_arm m) = 1
  branch (subscribed s) = 2
  branch (mailbox_arm m) = 3
  branch (idle_arm e) = 4
  branch pending = 5

  -- Which branches can run, each looked at alone.
  abbrev pub readiness : Loop p → Poll p → List Bool
  readiness l r =
      is_some r.terminate
      ∷ (l.priority_receiver && is_some r.priority)
      ∷ (l.idle_subscribe_receiver && is_some r.subscription)
      ∷ is_some r.mailbox
      ∷ (not (p.is_empty l.idle_streams) && is_some (r.streams l.idle_streams).0)
      ∷ []

  -- The arm carries what its own branch answered.
  abbrev pub IsAnswer : Loop p → Poll p → Arm p → Type 0
  IsAnswer l r (terminated t) = r.terminate ≡ some t
  IsAnswer l r (priority_arm m) = r.priority ≡ some m
  IsAnswer l r (subscribed s) = r.subscription ≡ some s
  IsAnswer l r (mailbox_arm m) = r.mailbox ≡ some m
  IsAnswer l r (idle_arm e) = (r.streams l.idle_streams).0 ≡ some e
  IsAnswer l r pending = Unit {0}

-- The index of the first `true`, or the length if there is none.
abbrev pub first_true : List Bool → ℕ
first_true [] = 0
first_true (b ∷ bs) = if b then 0 else suc (first_true bs)

-- The loop takes the first branch that can run, in the order terminate, priority, subscription,
-- mailbox, idle, with what that branch answered, and waits exactly when none can. An optional
-- receiver that was cleared, and an empty set of streams, can never run.
pub select_first_ready :
    (p : Program) (l : Loop p) (r : Poll p)
    → (branch (select p l r) ≡ first_true (readiness l r)) × IsAnswer l r (select p l r)
unfolding select
select_first_ready p l r = (ground arith, ground arith)
