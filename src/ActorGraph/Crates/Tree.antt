-- ===== src/ActorGraph/Crates/Tree.antt =====
-- Module trees as rsactor-graph/src/crate_tree.rs links them: what a change of one module keeps.
pub mod Steps
pub mod Loads
pub mod Whole
use mathlib.Core.Option.{some-injective, none-ne-some}
use rsactor.Base.{
  ℕ, zero, suc, ◌+◌, ◌<◌, ◌≡◌, refl, sym, ap, subst, ◌∙◌, ◌⊎◌, inl, inr, String, Option, none, some,
  List, [], ◌∷◌, ◌++◌, length, set, get_elem?, arith, Option-cases,
}
use rsactor.ActorGraph.Crates.{Module}
use rsactor.ActorGraph.Crates.Load.{update}
use rsactor.ActorGraph.Resolve.{value_of}

-- A result, if there is one, has the property.
pub data IfSome {A : Type 0} (P : A → Type 0) : Option A → Type 0 where
  is_none : IfSome P none
  is_some : {a : A} → P a → IfSome P (some a)

-- The module stands at the number, below this module, with this path.
abbrev pub StandsAt : List Module → ℕ → Option ℕ → List String → Type 0
StandsAt ms m parent path =
    (md : Module) × (get_elem? ms m ≡ some md) × (md.parent ≡ parent) × (md.path ≡ path)

-- A module above comes before, and one below knows the module that it is below, and has its name at
-- the end of its path.
abbrev pub LinkedAt : List Module → ℕ → Module → Type 0
LinkedAt ms m md =
    ((p : ℕ) → md.parent ≡ some p → p < m)
    × ((name : String) (k : ℕ)
        → value_of name md.children ≡ some k
        → StandsAt ms k (some m) (md.path ++ name ∷ []))

abbrev pub IsLinked : List Module → Type 0
IsLinked ms = (m : ℕ) (md : Module) → get_elem? ms m ≡ some md → LinkedAt ms m md

-- Every module stays where it is, and the links hold if they held.
pub record IsGrown (ms ms' : List Module) : Type 0 where
  pub stays : (m : ℕ) (md : Module) → get_elem? ms m ≡ some md → StandsAt ms' m md.parent md.path
  pub links : IsLinked ms → IsLinked ms'

pub StandsAt-grown :
    (ms ms' : List Module) (m : ℕ) (parent : Option ℕ) (path : List String)
    → IsGrown ms ms'
    → StandsAt ms m parent path
    → StandsAt ms' m parent path
StandsAt-grown ms ms' m parent path g (md, e, p, q) =
    let (x, f, r, s) = g.stays m md e in (x, f, r ∙ p, s ∙ q)

pub IsGrown-refl : (ms : List Module) → IsGrown ms ms
IsGrown-refl ms = record { stays = λ m md e. (md, e, refl, refl); links = λ l. l }

pub IsGrown-trans : (a b c : List Module) → IsGrown a b → IsGrown b c → IsGrown a c
IsGrown-trans a b c g h = record {
  stays = λ m md e. StandsAt-grown b c m md.parent md.path h (g.stays m md e);
  links = λ l. h.links (g.links l);
}

module _ {A : Type 0} where
  set_back :
      (xs : List A) (i m : ℕ) (v y : A)
      → get_elem? (set xs i v) m ≡ some y
      → (get_elem? xs m ≡ some y) ⊎ ((m ≡ i) × (v ≡ y))
  set_back [] i m v y e = inl e
  set_back (x ∷ xs) zero zero v y e = inr (refl, some-injective _ _ e)
  set_back (x ∷ xs) zero (suc m) v y e = inl e
  set_back (x ∷ xs) (suc i) zero v y e = inl e
  set_back (x ∷ xs) (suc i) (suc m) v y e = elim (set_back xs i m v y e) [
    | inl f ↦ inl f
    | inr (p, q) ↦ inr (ap suc p, q)
  ]

  set_forward :
      (xs : List A) (i m : ℕ) (v y : A)
      → get_elem? xs m ≡ some y
      → (get_elem? (set xs i v) m ≡ some y) ⊎ ((m ≡ i) × (get_elem? (set xs i v) m ≡ some v))
  set_forward [] i m v y e = inl e
  set_forward (x ∷ xs) zero zero v y e = inr (refl, refl)
  set_forward (x ∷ xs) zero (suc m) v y e = inl e
  set_forward (x ∷ xs) (suc i) zero v y e = inl e
  set_forward (x ∷ xs) (suc i) (suc m) v y e = elim (set_forward xs i m v y e) [
    | inl f ↦ inl f
    | inr (p, q) ↦ inr (ap suc p, q)
  ]

-- A change of one module that keeps its place, and adds links that hold, keeps the tree.
module _ (id : ℕ) (change : Module → Module) (ms : List Module)
    (parents : (md : Module) → (change md).parent ≡ md.parent)
    (paths : (md : Module) → (change md).path ≡ md.path)
    (added : (md : Module)
      → get_elem? ms id ≡ some md
      → (name : String) (k : ℕ) → value_of name (change md).children ≡ some k
      → (value_of name md.children ≡ some k) ⊎ StandsAt ms k (some id) (md.path ++ name ∷ [])) where
  update-stays :
      (m : ℕ) (md : Module)
      → get_elem? ms m ≡ some md
      → StandsAt (update id change ms) m md.parent md.path
  unfolding update
  update-stays m md e = by_target (get_elem? ms id) refl
    where
      by_target :
          (o : Option Module)
          → get_elem? ms id ≡ o
          → StandsAt (elim o [ none ↦ ms | some x ↦ set ms id (change x) ]) m md.parent md.path
      by_target none f = (md, e, refl, refl)
      by_target (some x) f = elim (set_forward ms id m (change x) md e) [
        | inl g ↦ (md, g, refl, refl)
        | inr (p, g) ↦
            let z : x ≡ md = some-injective _ _ (sym f ∙ (sym (ap (get_elem? ms) p) ∙ e)) in
            (change x, g, parents x ∙ ap (λ y. y.parent) z, paths x ∙ ap (λ y. y.path) z)
      ]

  update-back :
      (m : ℕ) (md : Module)
      → get_elem? (update id change ms) m ≡ some md
      → (x : Module) × (get_elem? ms m ≡ some x) × ((x ≡ md) ⊎ ((id ≡ m) × (change x ≡ md)))
  unfolding update
  update-back m md e = by_target (get_elem? ms id) refl e
    where
      by_target :
          (o : Option Module)
          → get_elem? ms id ≡ o
          → get_elem? (elim o [ none ↦ ms | some x ↦ set ms id (change x) ]) m ≡ some md
          → (x : Module) × (get_elem? ms m ≡ some x) × ((x ≡ md) ⊎ ((id ≡ m) × (change x ≡ md)))
      by_target none f e = (md, e, inl refl)
      by_target (some x) f e = elim (set_back ms id m (change x) md e) [
        | inl g ↦ (md, g, inl refl)
        | inr (p, q) ↦ (x, ap (get_elem? ms) p ∙ f, inr (sym p, q))
      ]

  moved :
      (k : ℕ) (parent : Option ℕ) (path : List String)
      → StandsAt ms k parent path
      → StandsAt (update id change ms) k parent path
  moved k parent path (md, e, p, q) = let (x, f, r, s) = update-stays k md e in (x, f, r ∙ p, s ∙ q)

  changed-LinkedAt :
      (x : Module)
      → get_elem? ms id ≡ some x
      → LinkedAt ms id x
      → LinkedAt (update id change ms) id (change x)
  changed-LinkedAt x e (above, below) = (
    (λ p f. above p (sym (parents x) ∙ f)),
    λ name k f.
        subst (λ path. StandsAt (update id change ms) k (some id) (path ++ name ∷ []))
          (sym (paths x))
          (elim (added x e name k f) [
            | inl g ↦ moved k (some id) (x.path ++ name ∷ []) (below name k g)
            | inr g ↦ moved k (some id) (x.path ++ name ∷ []) g
          ]),
  )

  update-links : IsLinked ms → IsLinked (update id change ms)
  update-links l m md e =
      let (x, f, b) = update-back m md e in
      elim b [
        | inl q ↦
            subst (LinkedAt (update id change ms) m) q (
              (l m x f).0,
              λ name k g. moved k (some m) (x.path ++ name ∷ []) ((l m x f).1 name k g),
            )
        | inr (z, q) ↦
            let g : get_elem? ms id ≡ some x = ap (get_elem? ms) z ∙ f in
            subst (LinkedAt (update id change ms) m) q (
              subst (λ j. LinkedAt (update id change ms) j (change x)) z
                (changed-LinkedAt x g (l id x g)))
      ]

  pub update-IsGrown : IsGrown ms (update id change ms)
  update-IsGrown = record { stays = update-stays; links = update-links }
