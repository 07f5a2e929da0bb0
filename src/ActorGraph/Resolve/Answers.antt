-- ===== src/ActorGraph/Resolve/Answers.antt =====
-- What a lookup of rsactor-graph/src/resolve.rs answers, when it answers.
use rsactor.Base.{◌≡◌, refl, ap, subst, Bool, true, false, Option, none, some, if◌then◌else◌}
use rsactor.ActorGraph.Resolve.Lookup.{
  Lookup, found, missing, out_of_range, exhausted, then_find, when_missing, or_find, in_range,
}

-- An answer, if there is one, has the property.
pub data Answers {A : Type 0} (P : A → Type 0) : Lookup A → Type 0 where
  with_answer : {a : A} → P a → Answers P (found a)
  with_none : Answers P missing
  with_panic : Answers P out_of_range
  with_fuel : Answers P exhausted

pub Answers-weaken :
    {A : Type 0} {P Q : A → Type 0} {l : Lookup A}
    → ((a : A) → P a → Q a)
    → Answers P l
    → Answers Q l
Answers-weaken k (with_answer h) = with_answer (k _ h)
Answers-weaken k with_none = with_none
Answers-weaken k with_panic = with_panic
Answers-weaken k with_fuel = with_fuel

found_or : {A : Type 0} → Lookup A → A → A
found_or (found a) r = a
found_or missing r = r
found_or out_of_range r = r
found_or exhausted r = r

pub answer_of :
    {A : Type 0} {P : A → Type 0} {l : Lookup A} (r : A) → Answers P l → l ≡ found r → P r
unfolding found_or
answer_of {P} r (with_answer {a} h) e = subst P (ap (λ l. found_or l a) e) h
answer_of r with_none e = cc
answer_of r with_panic e = cc
answer_of r with_fuel e = cc

pub Answers-then :
    {A B : Type 0} {P : A → Type 0} {Q : B → Type 0} {l : Lookup A} {next : A → Lookup B}
    → Answers P l
    → ((a : A) → P a → Answers Q (next a))
    → Answers Q (then_find l next)
unfolding then_find
Answers-then (with_answer h) k = k _ h
Answers-then with_none k = with_none
Answers-then with_panic k = with_panic
Answers-then with_fuel k = with_fuel

pub Answers-in_range : {A : Type 0} (o : Option A) → Answers (λ x. o ≡ some x) (in_range o)
unfolding in_range
Answers-in_range none = with_panic
Answers-in_range (some a) = with_answer refl

pub Answers-or :
    {A : Type 0} {P : A → Type 0} {l o : Lookup A}
    → Answers P l
    → Answers P o
    → Answers P (or_find l o)
unfolding or_find
Answers-or (with_answer h) k = with_answer h
Answers-or with_none k = k
Answers-or with_panic k = with_panic
Answers-or with_fuel k = with_fuel

pub Answers-when :
    {A B : Type 0} {P : B → Type 0} (l : Lookup A) {o : Lookup B}
    → Answers P o
    → Answers P (when_missing l o)
unfolding when_missing
Answers-when (found a) k = with_none
Answers-when missing k = k
Answers-when out_of_range k = with_panic
Answers-when exhausted k = with_fuel

pub Answers-if :
    {A : Type 0} {P : A → Type 0} {x y : Lookup A} (b : Bool)
    → Answers P x
    → Answers P y
    → Answers P (if b then x else y)
Answers-if true h k = h
Answers-if false h k = k
