-- ===== src/ActorGraph/Output/Derived.antt =====
-- The orders that Rust's `#[derive(PartialOrd, Ord)]` makes: field by field, variant by variant.
pub mod Basic
pub mod Orders
use Prim.Native.Char.{Char, code}
use text.Mathlib.TextEquality.{Char-path}
use rsactor.Base.{
  ℕ, zero, suc, leb, ◌≡◌, refl, sym, ap, ◌∙◌, ◌⊎◌, inl, inr, ◌↔◌, String, Bool, true, false, Option,
  none, some, List, [], ◌∷◌, Bool-cases, if◌then◌else◌, arith,
}
use rsactor.ActorGraph.Output.{TotalOrder}

pub nat_order : TotalOrder ℕ
nat_order = record {
  le = leb;
  le-refl = λ a. ground arith;
  le-trans = λ a b c h g. ground arith;
  le-antisymm = λ a b h g. ground arith;
  le-total = λ a b. ground arith;
}

-- Values are compared by a key that determines them.
pub by_key :
    {A B : Type 0} (key : A → B) (of_key : B → A)
    → ((a : A) → of_key (key a) ≡ a)
    → TotalOrder B
    → TotalOrder A
by_key key of_key back o = record {
  le = λ a b. o.le (key a) (key b);
  le-refl = λ a. o.le-refl (key a);
  le-trans = λ a b c. o.le-trans (key a) (key b) (key c);
  le-antisymm = λ a b h g. sym (back a) ∙ (ap of_key (o.le-antisymm (key a) (key b) h g) ∙ back b);
  le-total = λ a b. o.le-total (key a) (key b);
}

-- the first parts decide, unless they are equal
first_then : {A : Type 0} → TotalOrder A → A → A → Bool → Bool
first_then o a b rest = if o.le a b then (if o.le b a then rest else true) else false

module _ {A : Type 0} (o : TotalOrder A) where
  first_then_iff :
      (a b : A) (rest : Bool)
      → (first_then o a b rest ≡ true) ↔ ((o.le a b ≡ true) × (o.le b a ≡ true → rest ≡ true))
  unfolding first_then
  first_then_iff a b rest = by_tests (Bool-cases (o.le a b)) (Bool-cases (o.le b a))
    where
      by_tests :
          (o.le a b ≡ true) ⊎ (o.le a b ≡ false)
          → (o.le b a ≡ true) ⊎ (o.le b a ≡ false)
          → (first_then o a b rest ≡ true) ↔ ((o.le a b ≡ true) × (o.le b a ≡ true → rest ≡ true))
      by_tests (inl x) (inl y) = rw (x, y, first_then) (λ h. (refl, λ _. h), λ h. h.1 refl)
      by_tests (inl x) (inr y) = rw (x, y, first_then) (λ h. (refl, λ e. cc), λ h. refl)
      by_tests (inr x) y = rw (x, first_then) (λ h. cc, λ h. let e = h.0 in cc)

  first_then_trans :
      (a b c : A) (r s t : Bool)
      → (r ≡ true → s ≡ true → t ≡ true)
      → first_then o a b r ≡ true
      → first_then o b c s ≡ true
      → first_then o a c t ≡ true
  first_then_trans a b c r s t h x y =
      let (ab, r_of) = (first_then_iff a b r).0 x in
      let (bc, s_of) = (first_then_iff b c s).0 y in
      (first_then_iff a c t).1 (
        o.le-trans a b c ab bc,
        λ ca. h (r_of (o.le-trans b c a bc ca)) (s_of (o.le-trans c a b ca ab)),
      )

  first_then_antisymm :
      (a b : A) (r s : Bool)
      → first_then o a b r ≡ true
      → first_then o b a s ≡ true
      → (a ≡ b) × (r ≡ true) × (s ≡ true)
  first_then_antisymm a b r s x y =
      let (ab, r_of) = (first_then_iff a b r).0 x in
      let (ba, s_of) = (first_then_iff b a s).0 y in (o.le-antisymm a b ab ba, r_of ba, s_of ab)

  first_then-total :
      (a b : A) (r s : Bool)
      → (r ≡ true) ⊎ (s ≡ true)
      → (first_then o a b r ≡ true) ⊎ (first_then o b a s ≡ true)
  first_then-total a b r s h = elim h [
    | inl x ↦ elim (Bool-cases (o.le a b)) [
      | inl ab ↦ inl ((first_then_iff a b r).1 (ab, λ _. x))
      | inr n ↦ inr ((first_then_iff b a s).1 (flipped a b n, λ ab. cc))
    ]
    | inr x ↦ elim (Bool-cases (o.le b a)) [
      | inl ba ↦ inr ((first_then_iff b a s).1 (ba, λ _. x))
      | inr n ↦ inl ((first_then_iff a b r).1 (flipped b a n, λ ba. cc))
    ]
  ]
    where
      flipped : (x y : A) → o.le x y ≡ false → o.le y x ≡ true
      flipped x y n = elim (o.le-total x y) [ inl e ↦ cc | inr e ↦ e ]

pub pair_order : {A B : Type 0} → TotalOrder A → TotalOrder B → TotalOrder (A × B)
pair_order o p = record {
  le = λ x y. first_then o x.0 y.0 (p.le x.1 y.1);
  le-refl = λ x. (first_then_iff o x.0 x.0 _).1 (o.le-refl x.0, λ _. p.le-refl x.1);
  le-trans = λ x y z. first_then_trans o x.0 y.0 z.0 _ _ _ (p.le-trans x.1 y.1 z.1);
  le-antisymm = λ x y h g.
      let (e, r, s) = first_then_antisymm o x.0 y.0 _ _ h g in
      let f = p.le-antisymm x.1 y.1 r s in cc;
  le-total = λ x y. first_then-total o x.0 y.0 _ _ (p.le-total x.1 y.1);
}

pub either_order : {A B : Type 0} → TotalOrder A → TotalOrder B → TotalOrder (A ⊎ B)
either_order {A} {B} o p = record {
  le = le;
  le-refl = reflexive;
  le-trans = trans;
  le-antisymm = antisymm;
  le-total = total;
}
  where
    le : A ⊎ B → A ⊎ B → Bool
    le (inl a) (inl b) = o.le a b
    le (inl a) (inr b) = true
    le (inr a) (inl b) = false
    le (inr a) (inr b) = p.le a b

    reflexive : (x : A ⊎ B) → le x x ≡ true
    reflexive (inl a) = o.le-refl a
    reflexive (inr b) = p.le-refl b

    trans : (x y z : A ⊎ B) → le x y ≡ true → le y z ≡ true → le x z ≡ true
    trans (inl a) (inl b) (inl c) h g = o.le-trans a b c h g
    trans (inl a) (inl b) (inr c) h g = refl
    trans (inl a) (inr b) (inl c) h g = cc
    trans (inl a) (inr b) (inr c) h g = refl
    trans (inr a) (inl b) z h g = cc
    trans (inr a) (inr b) (inl c) h g = cc
    trans (inr a) (inr b) (inr c) h g = p.le-trans a b c h g

    antisymm : (x y : A ⊎ B) → le x y ≡ true → le y x ≡ true → x ≡ y
    antisymm (inl a) (inl b) h g = ap inl (o.le-antisymm a b h g)
    antisymm (inl a) (inr b) h g = cc
    antisymm (inr a) (inl b) h g = cc
    antisymm (inr a) (inr b) h g = ap inr (p.le-antisymm a b h g)

    total : (x y : A ⊎ B) → (le x y ≡ true) ⊎ (le y x ≡ true)
    total (inl a) (inl b) = o.le-total a b
    total (inl a) (inr b) = inl refl
    total (inr a) (inl b) = inr refl
    total (inr a) (inr b) = p.le-total a b

module _ {A : Type 0} (o : TotalOrder A) where
  list_le : List A → List A → Bool
  unfolding first_then
  list_le [] ys = true
  list_le (x ∷ xs) [] = false
  list_le (x ∷ xs) (y ∷ ys) = first_then o x y (list_le xs ys)

  list_le_refl : (xs : List A) → list_le xs xs ≡ true
  unfolding list_le
  list_le_refl [] = refl
  list_le_refl (x ∷ xs) =
      (first_then_iff o x x (list_le xs xs)).1 (o.le-refl x, λ _. list_le_refl xs)

  list_le_trans :
      (xs ys zs : List A) → list_le xs ys ≡ true → list_le ys zs ≡ true → list_le xs zs ≡ true
  unfolding list_le
  list_le_trans [] ys zs h g = refl
  list_le_trans (x ∷ xs) [] zs h g = cc
  list_le_trans (x ∷ xs) (y ∷ ys) [] h g = cc
  list_le_trans (x ∷ xs) (y ∷ ys) (z ∷ zs) h g =
      first_then_trans o x y z (list_le xs ys) (list_le ys zs) (list_le xs zs)
        (list_le_trans xs ys zs) h g

  list_le_antisymm : (xs ys : List A) → list_le xs ys ≡ true → list_le ys xs ≡ true → xs ≡ ys
  unfolding list_le
  list_le_antisymm [] [] h g = refl
  list_le_antisymm [] (y ∷ ys) h g = cc
  list_le_antisymm (x ∷ xs) [] h g = cc
  list_le_antisymm (x ∷ xs) (y ∷ ys) h g =
      let (e, r, s) = first_then_antisymm o x y (list_le xs ys) (list_le ys xs) h g in
      let f = list_le_antisymm xs ys r s in cc

  list_le-total : (xs ys : List A) → (list_le xs ys ≡ true) ⊎ (list_le ys xs ≡ true)
  unfolding list_le
  list_le-total [] ys = inl refl
  list_le-total (x ∷ xs) [] = inr refl
  list_le-total (x ∷ xs) (y ∷ ys) =
      first_then-total o x y (list_le xs ys) (list_le ys xs) (list_le-total xs ys)

  pub list_order : TotalOrder (List A)
  list_order = record {
    le = list_le;
    le-refl = list_le_refl;
    le-trans = list_le_trans;
    le-antisymm = list_le_antisymm;
    le-total = list_le-total;
  }

-- `None` is before every `Some`
pub option_order : {A : Type 0} → TotalOrder A → TotalOrder (Option A)
option_order {A} o = by_key key of_key back (list_order o)
  where
    key : Option A → List A
    key none = []
    key (some a) = a ∷ []

    of_key : List A → Option A
    of_key [] = none
    of_key (a ∷ rest) = some a

    back : (x : Option A) → of_key (key x) ≡ x
    back none = refl
    back (some a) = refl

pub bool_order : TotalOrder Bool
bool_order = by_key key of_key back nat_order
  where
    key : Bool → ℕ
    key b = if b then 1 else 0

    of_key : ℕ → Bool
    of_key zero = false
    of_key (suc n) = true

    back : (b : Bool) → of_key (key b) ≡ b
    back true = refl
    back false = refl
