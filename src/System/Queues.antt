-- ===== src/System/Queues.antt =====
-- What the channels of a task hand out, by the interface `Channel`.
use rsactor.Base.{
  ◌≡◌, refl, ◌∙◌, Bool, Option, none, some, List, [], ◌∷◌, ◌++◌, length, Bool-cases, inl, inr,
  if◌then◌else◌,
}
use rsactor.System.{Channel, pop, skip, answer}

module _ {A : Type 0} (c : Channel A) where
  pub pop-some :
      (q r : c.Queue) (a : A) → c.recv q ≡ some (a, r) → c.contents q ≡ a ∷ c.contents (pop c q)
  unfolding pop
  pop-some q r a e = c.recv-some q r a e ∙ rw (e, pop) refl

  pub answer-pop :
      {B : Type 0} (f : A → B) (gone : Bool) (q : c.Queue) (b : B)
      → answer c f gone q ≡ some (some b)
      → (a : A) × (c.contents q ≡ a ∷ c.contents (pop c q)) × (f a ≡ b)
  unfolding answer
  answer-pop {B} f gone q b = by_recv (c.recv q) refl
    where
      by_recv :
          (o : Option (A × c.Queue))
          → c.recv q ≡ o
          → elim o as (λ _. Option (Option B)) [
            | none ↦ if gone then some none else none
            | some x ↦ some (some (f x.0))
          ]
            ≡ some (some b)
          → (a : A) × (c.contents q ≡ a ∷ c.contents (pop c q)) × (f a ≡ b)
      by_recv none e h = elim (Bool-cases gone) [ inl y ↦ cc | inr n ↦ cc ]
      by_recv (some x) e h = (x.0, pop-some q x.1 x.0 e, cc)

  pub skip-append :
      (xs rest : List A) (q : c.Queue)
      → c.contents q ≡ xs ++ rest
      → c.contents (skip c (length xs) q) ≡ rest
  unfolding skip
  skip-append [] rest q h = h
  skip-append (x ∷ xs) rest q h = skip-append xs rest (pop c q) (by_recv (c.recv q) refl)
    where
      by_recv : (o : Option (A × c.Queue)) → c.recv q ≡ o → c.contents (pop c q) ≡ xs ++ rest
      by_recv none e = let n = c.recv-none q e in cc
      by_recv (some y) e = let n = pop-some q y.1 y.0 e in cc
