-- ===== src/Lifecycle/Trace.antt =====
-- Counts over what a task does.
use rsactor.Base.{ℕ, ◌+◌, ◌≡◌, refl, ◌==◌, none, some, List, [], ◌∷◌, ◌++◌, if◌then◌else◌, arith}
use rsactor.Lifecycle.Program.{
  Program, Source, prioritized, received, drained, Metric, message, priority_message, idle_event,
  Event, handling, recorded, edge_dropped, idling, stopping,
}

-- The sum of a weight over a list.
unfoldable pub tally {ℓ} : {X : Type ℓ} → (X → ℕ) → List X → ℕ
tally f [] = 0
tally f (x ∷ xs) = f x + tally f xs

pub tally-append {ℓ} :
    {X : Type ℓ} (f : X → ℕ) (xs ys : List X) → tally f (xs ++ ys) ≡ tally f xs + tally f ys
unfolding tally
tally-append f [] ys = omega arith
tally-append f (x ∷ xs) ys = omega (arith, tally-append f xs ys)

pub tally-nil {ℓ} : {X : Type ℓ} (f : X → ℕ) → tally f [] ≡ 0
unfolding tally
tally-nil f = refl

pub tally-cons {ℓ} :
    {X : Type ℓ} (f : X → ℕ) (x : X) (xs : List X) → tally f (x ∷ xs) ≡ f x + tally f xs
unfolding tally
tally-cons f x xs = refl

module _ {p : Program} where
  -- calls of `on_stop`
  abbrev pub is_stop : Event p → ℕ
  is_stop (stopping k) = 1
  is_stop _ = 0

  -- the wait-for token `i`, dropped by the task
  abbrev pub is_drop : ℕ → Event p → ℕ
  is_drop i (edge_dropped j) = if j == i then 1 else 0
  is_drop i _ = 0

  -- the wait-for token `i`, in a message that the task takes up
  abbrev pub carries : ℕ → Event p → ℕ
  carries i (handling src e) = elim e.ask_edge [ none ↦ 0 | some j ↦ if j == i then 1 else 0 ]
  carries i _ = 0

  abbrev pub same_metric : Metric p → Metric p → ℕ
  same_metric message message = 1
  same_metric priority_message priority_message = 1
  same_metric idle_event idle_event = 1
  same_metric _ _ = 0

  -- the counter that a message of this source belongs to
  abbrev pub counter : Source p → Metric p
  counter received = message
  counter prioritized = priority_message
  counter drained = priority_message

  -- a message or an idle event that the counter `m` is for
  abbrev pub is_call : Metric p → Event p → ℕ
  is_call m (handling src e) = same_metric (counter src) m
  is_call m (idling e) = same_metric idle_event m
  is_call m _ = 0

  abbrev pub is_record : Metric p → Event p → ℕ
  is_record m (recorded n) = same_metric n m
  is_record m _ = 0
