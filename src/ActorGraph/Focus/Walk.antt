-- ===== src/ActorGraph/Focus/Walk.antt =====
-- Edges in both directions, and the map from an id to its neighbours in `focus` of
-- rsactor-graph/src/view.rs.
use mathlib.Core.List.{Memᴰ}
use mathlib.Core.List.Memᴰ
use mathlib.Core.List.Memᴰ.{append_cases}
use text.Mathlib.Text.{◌==◌ as ◌==ₛ◌}
use text.Mathlib.TextEquality.{eq_iff}
use rsactor.Base.{
  ℕ, suc, ◌≡◌, refl, sym, ap, ◌∙◌, ◌⊎◌, inl, inr, String, List, [], ◌∷◌, Bool-cases, if◌then◌else◌,
}
use rsactor.ActorGraph.Model.{Edge}
use rsactor.ActorGraph.Focus.{neighbours}

module _ (es : List Edge) where
  -- an edge between the two ids, in either direction
  abbrev pub IsLinked : String → String → Type 0
  IsLinked a b =
      (e : Edge) × Memᴰ e es × (((e.from ≡ a) × (e.to ≡ b)) ⊎ ((e.to ≡ a) × (e.from ≡ b)))

  -- a walk of that many edges
  pub data Walk : ℕ → String → String → Type 0 where
    stay : {a : String} → Walk 0 a a
    along : {n : ℕ} {a b c : String} → Walk n a b → IsLinked b c → Walk (suc n) a c

-- the first or the second choice of an optional entry
end_mem :
    {b id : String} (x y : String) → Memᴰ b (if x ==ₛ id then y ∷ [] else []) → (x ≡ id) × (y ≡ b)
end_mem {b} {id} x y m = elim (Bool-cases (x ==ₛ id)) [
  | inl t ↦
      let m' : Memᴰ b (y ∷ []) = rw t at m in ((eq_iff x id).0 t, sym (Memᴰ.eq_of_singleton m'))
  | inr f ↦ let m' : Memᴰ b [] = rw f at m in absurd (Memᴰ.not-nil m')
]

mem-end : {b id : String} (x y : String) → x ≡ id → y ≡ b → Memᴰ b (if x ==ₛ id then y ∷ [] else [])
mem-end {b} {id} x y e f = rw ((eq_iff x id).1 e) (Memᴰ.head (sym f))

later : {e : Edge} {es : List Edge} {a b : String} → IsLinked es a b → IsLinked (e ∷ es) a b
later (f, m, ends) = (f, Memᴰ.tail m, ends)

pub neighbours-IsLinked :
    (es : List Edge) (a b : String) → Memᴰ b (neighbours es a) → IsLinked es a b
unfolding neighbours
neighbours-IsLinked [] a b m = absurd (Memᴰ.not-nil m)
neighbours-IsLinked (e ∷ es) a b m =
    elim (append_cases (if e.from ==ₛ a then e.to ∷ [] else []) m) [
      | inl x ↦ (e, Memᴰ.head refl, inl (end_mem e.from e.to x))
      | inr y ↦ elim (append_cases (if e.to ==ₛ a then e.from ∷ [] else []) y) [
        | inl x ↦ (e, Memᴰ.head refl, inr (end_mem e.to e.from x))
        | inr z ↦ later (neighbours-IsLinked es a b z)
      ]
    ]

pub IsLinked-neighbours :
    (es : List Edge) (a b : String) → IsLinked es a b → Memᴰ b (neighbours es a)
unfolding neighbours
IsLinked-neighbours [] a b (f, m, ends) = absurd (Memᴰ.not-nil m)
IsLinked-neighbours (e ∷ es) a b (f, m, ends) = elim (Memᴰ.cases_cons m) [
  | inr t ↦ Memᴰ.append_right (if e.from ==ₛ a then e.to ∷ [] else []) (
      Memᴰ.append_right (if e.to ==ₛ a then e.from ∷ [] else [])
        (IsLinked-neighbours es a b (f, t, ends)))
  | inl same ↦ elim ends [
    | inl (x, y) ↦
        Memᴰ.append_left _
          (mem-end e.from e.to (ap (λ g. g.from) (sym same) ∙ x) (ap (λ g. g.to) (sym same) ∙ y))
    | inr (x, y) ↦ Memᴰ.append_right (if e.from ==ₛ a then e.to ∷ [] else []) (
        Memᴰ.append_left _
          (mem-end e.to e.from (ap (λ g. g.to) (sym same) ∙ x) (ap (λ g. g.from) (sym same) ∙ y)))
  ]
]
