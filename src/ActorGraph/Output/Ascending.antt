-- ===== src/ActorGraph/Output/Ascending.antt =====
-- Sorting and removing repeats, as `Output::new` of rsactor-graph/src/model.rs does.
use mathlib.Core.List.{Memᴰ}
use mathlib.Core.List.Memᴰ
use rsactor.Base.{◌≡◌, refl, sym, ◌∙◌, inl, inr, true, false, List, [], ◌∷◌, Bool-cases}
use rsactor.ActorGraph.Output.{TotalOrder, same, insert, sort, dedup_after, dedup}

module _ {ℓ} {A : Type ℓ} (o : TotalOrder A) where
  -- `a` is at most, or strictly less than, every element
  abbrev pub Below : A → List A → Type ℓ
  Below a xs = (x : A) → Memᴰ x xs → o.le a x ≡ true

  pub data Ascending : List A → Type ℓ where
    empty : Ascending []
    first : {a : A} {xs : List A} → Below a xs → Ascending xs → Ascending (a ∷ xs)

  pub data StrictlyAscending : List A → Type ℓ where
    empty : StrictlyAscending []
    first :
        {a : A} {xs : List A}
        → Below a xs
        → ¬ Memᴰ a xs
        → StrictlyAscending xs
        → StrictlyAscending (a ∷ xs)

  insert-mem : (x a : A) (xs : List A) → Memᴰ x (insert o a xs) → Memᴰ x (a ∷ xs)
  unfolding insert
  insert-mem x a [] m = m
  insert-mem x a (b ∷ bs) m = elim (Bool-cases (o.le a b)) [
    | inl y ↦ rw (y, insert) at m
    | inr n ↦
        let m' : Memᴰ x (b ∷ insert o a bs) = rw (n, insert) at m in
        elim (Memᴰ.cases_cons m') [
          | inl e ↦ Memᴰ.tail (Memᴰ.head e)
          | inr t ↦ elim (Memᴰ.cases_cons (insert-mem x a bs t)) [
            | inl e ↦ Memᴰ.head e
            | inr u ↦ Memᴰ.tail (Memᴰ.tail u)
          ]
        ]
  ]

  mem-insert : (x a : A) (xs : List A) → Memᴰ x (a ∷ xs) → Memᴰ x (insert o a xs)
  unfolding insert
  mem-insert x a [] m = m
  mem-insert x a (b ∷ bs) m = elim (Bool-cases (o.le a b)) [
    | inl y ↦ rw (y, insert) m
    | inr n ↦
        rw (n, insert)
          (elim (Memᴰ.cases_cons m) [
            | inl e ↦ Memᴰ.tail (mem-insert x a bs (Memᴰ.head e))
            | inr t ↦ elim (Memᴰ.cases_cons t) [
              | inl e ↦ Memᴰ.head e
              | inr u ↦ Memᴰ.tail (mem-insert x a bs (Memᴰ.tail u))
            ]
          ])
  ]

  sort-mem : (x : A) (xs : List A) → Memᴰ x (sort o xs) → Memᴰ x xs
  unfolding sort
  sort-mem x [] m = m
  sort-mem x (a ∷ xs) m = elim (Memᴰ.cases_cons (insert-mem x a (sort o xs) m)) [
    | inl e ↦ Memᴰ.head e
    | inr t ↦ Memᴰ.tail (sort-mem x xs t)
  ]

  mem-sort : (x : A) (xs : List A) → Memᴰ x xs → Memᴰ x (sort o xs)
  unfolding sort
  mem-sort x [] m = m
  mem-sort x (a ∷ xs) m =
      mem-insert x a (sort o xs)
        (elim (Memᴰ.cases_cons m) [ inl e ↦ Memᴰ.head e | inr t ↦ Memᴰ.tail (mem-sort x xs t) ])

  -- of two elements of which the first is not at most the second, the second is at most the first
  le-flip : (a b : A) → o.le a b ≡ false → o.le b a ≡ true
  le-flip a b n = elim (o.le-total a b) [ inl y ↦ cc | inr y ↦ y ]

  Below-cons : {a b : A} {xs : List A} → o.le a b ≡ true → Below b xs → Below a (b ∷ xs)
  Below-cons {a} {b} h w x m = elim (Memᴰ.cases_cons m) [
    | inl e ↦ rw e h
    | inr t ↦ o.le-trans a b x h (w x t)
  ]

  insert-Ascending : (a : A) (xs : List A) → Ascending xs → Ascending (insert o a xs)
  unfolding insert
  insert-Ascending a [] empty = first (λ x m. absurd (Memᴰ.not-nil m)) empty
  insert-Ascending a (b ∷ bs) (first w s) = elim (Bool-cases (o.le a b)) [
    | inl y ↦ rw (y, insert) (first (Below-cons y w) (first w s))
    | inr n ↦ rw (n, insert) (first (below n) (insert-Ascending a bs s))
  ]
    where
      below : o.le a b ≡ false → Below b (insert o a bs)
      below n x m = elim (Memᴰ.cases_cons (insert-mem x a bs m)) [
        | inl e ↦ rw e (le-flip a b n)
        | inr t ↦ w x t
      ]

  sort-Ascending : (xs : List A) → Ascending (sort o xs)
  unfolding sort
  sort-Ascending [] = empty
  sort-Ascending (a ∷ xs) = insert-Ascending a (sort o xs) (sort-Ascending xs)

  pub same-≡ : (a b : A) → same o a b ≡ true → a ≡ b
  unfolding same
  same-≡ a b h = elim (Bool-cases (o.le a b)) [
    | inl y ↦ o.le-antisymm a b y (rw (y, same) at h)
    | inr n ↦ let f : false ≡ true = rw (n, same) at h in cc
  ]

  pub same_refl : (a : A) → same o a a ≡ true
  unfolding same
  same_refl a = rw (o.le-refl a) refl

  dedup_after-mem : (x a : A) (xs : List A) → Memᴰ x (dedup_after o a xs) → Memᴰ x xs
  unfolding dedup_after
  dedup_after-mem x a [] m = m
  dedup_after-mem x a (b ∷ bs) m = elim (Bool-cases (same o a b)) [
    | inl y ↦
        let m' : Memᴰ x (dedup_after o a bs) = rw (y, dedup_after) at m in
        Memᴰ.tail (dedup_after-mem x a bs m')
    | inr n ↦
        let m' : Memᴰ x (b ∷ dedup_after o b bs) = rw (n, dedup_after) at m in
        elim (Memᴰ.cases_cons m') [
          | inl e ↦ Memᴰ.head e
          | inr t ↦ Memᴰ.tail (dedup_after-mem x b bs t)
        ]
  ]

  mem-dedup_after : (x a : A) (xs : List A) → Memᴰ x (a ∷ xs) → Memᴰ x (a ∷ dedup_after o a xs)
  unfolding dedup_after
  mem-dedup_after x a [] m = m
  mem-dedup_after x a (b ∷ bs) m = elim (Bool-cases (same o a b)) [
    | inl y ↦
        rw (y, dedup_after)
          (mem-dedup_after x a bs (elim (Memᴰ.cases_cons m) [
            | inl e ↦ Memᴰ.head e
            | inr t ↦ elim (Memᴰ.cases_cons t) [
              | inl e ↦ Memᴰ.head (e ∙ sym (same-≡ a b y))
              | inr u ↦ Memᴰ.tail u
            ]
          ]))
    | inr n ↦
        rw (n, dedup_after)
          (elim (Memᴰ.cases_cons m) [
            | inl e ↦ Memᴰ.head e
            | inr t ↦ Memᴰ.tail (mem-dedup_after x b bs t)
          ])
  ]

  dedup_after-StrictlyAscending :
      (a : A) (xs : List A) → Below a xs → Ascending xs → StrictlyAscending (a ∷ dedup_after o a xs)
  unfolding dedup_after
  dedup_after-StrictlyAscending a [] w s = first w (λ m. Memᴰ.not-nil m) empty
  dedup_after-StrictlyAscending a (b ∷ bs) w (first v s) = elim (Bool-cases (same o a b)) [
    | inl y ↦ rw (y, dedup_after) (dedup_after-StrictlyAscending a bs (λ x m. w x (Memᴰ.tail m)) s)
    | inr n ↦
        rw (n, dedup_after)
          (first (λ x m. w x (kept m)) (apart n) (dedup_after-StrictlyAscending b bs v s))
  ]
    where
      kept : {x : A} → Memᴰ x (b ∷ dedup_after o b bs) → Memᴰ x (b ∷ bs)
      kept {x} m = elim (Memᴰ.cases_cons m) [
        | inl e ↦ Memᴰ.head e
        | inr t ↦ Memᴰ.tail (dedup_after-mem x b bs t)
      ]

      below_rest : (x : A) → Memᴰ x (b ∷ bs) → o.le b x ≡ true
      below_rest x m = elim (Memᴰ.cases_cons m) [ inl e ↦ rw e (o.le-refl b) | inr t ↦ v x t ]

      -- otherwise `a` and `b` are at most each other
      apart : same o a b ≡ false → ¬ Memᴰ a (b ∷ dedup_after o b bs)
      apart n m =
          let e = o.le-antisymm a b (w b (Memᴰ.head refl)) (below_rest a (kept m)) in
          let f : false ≡ true = sym n ∙ (rw e (same_refl b)) in cc

  -- `Vec::sort` and then `Vec::dedup`
  abbrev pub sorted_set : List A → List A
  sorted_set xs = dedup o (sort o xs)

  pub sorted_set-StrictlyAscending : (xs : List A) → StrictlyAscending (sorted_set xs)
  unfolding dedup
  sorted_set-StrictlyAscending xs = of_sorted (sort o xs) (sort-Ascending xs)
    where
      of_sorted : (ys : List A) → Ascending ys → StrictlyAscending (dedup o ys)
      of_sorted [] empty = empty
      of_sorted (a ∷ rest) (first w s) = dedup_after-StrictlyAscending a rest w s

  pub sorted_set-mem : (x : A) (xs : List A) → Memᴰ x (sorted_set xs) → Memᴰ x xs
  unfolding dedup
  sorted_set-mem x xs m = sort-mem x xs (of_dedup (sort o xs) m)
    where
      of_dedup : (ys : List A) → Memᴰ x (dedup o ys) → Memᴰ x ys
      of_dedup [] m = m
      of_dedup (a ∷ rest) m = elim (Memᴰ.cases_cons m) [
        | inl e ↦ Memᴰ.head e
        | inr t ↦ Memᴰ.tail (dedup_after-mem x a rest t)
      ]

  pub mem-sorted_set : (x : A) (xs : List A) → Memᴰ x xs → Memᴰ x (sorted_set xs)
  unfolding dedup
  mem-sorted_set x xs m = into_dedup (sort o xs) (mem-sort x xs m)
    where
      into_dedup : (ys : List A) → Memᴰ x ys → Memᴰ x (dedup o ys)
      into_dedup [] m = m
      into_dedup (a ∷ rest) m = mem-dedup_after x a rest m
