-- ===== src/Base/Lists.antt =====
-- Lists measured and indexed by native numbers, under the library's names.
use Prim.Native.Nat.{ℕ, zero, suc, ◌+◌}
use mathlib.Core.Path.{◌≡◌, refl}
use mathlib.Core.List.{List, [], ◌∷◌, ◌++◌}
use mathlib.Core.Logic.{◌⊎◌, inl, inr}
use mathlib.Core.Option.{Option, none, some, some-injective}
use native.Mathlib.Omega.{arith}

module _ {ℓ} {A : Type ℓ} where
  abbrev pub length : List A → ℕ
  length [] = 0
  length (x ∷ xs) = suc (length xs)

  abbrev pub set : List A → ℕ → A → List A
  set [] i v = []
  set (x ∷ xs) zero v = v ∷ xs
  set (x ∷ xs) (suc i) v = x ∷ set xs i v

  abbrev pub get_elem? : List A → ℕ → Option A
  get_elem? [] i = none
  get_elem? (x ∷ xs) zero = some x
  get_elem? (x ∷ xs) (suc i) = get_elem? xs i

  -- `Vec::last`.
  abbrev pub get_last? : List A → Option A
  get_last? [] = none
  get_last? (x ∷ []) = some x
  get_last? (x ∷ y ∷ xs) = get_last? (y ∷ xs)

  -- What `Vec::pop` leaves.
  abbrev pub init : List A → List A
  init [] = []
  init (x ∷ []) = []
  init (x ∷ y ∷ xs) = x ∷ init (y ∷ xs)

  pub length-append : (xs ys : List A) → length (xs ++ ys) ≡ length xs + length ys
  length-append [] ys = omega arith
  length-append (x ∷ xs) ys = omega (arith, length-append xs ys)

  pub get_last?-concat : (xs : List A) (a : A) → get_last? (xs ++ a ∷ []) ≡ some a
  get_last?-concat [] a = refl
  get_last?-concat (x ∷ []) a = refl
  get_last?-concat (x ∷ y ∷ xs) a = get_last?-concat (y ∷ xs) a

  pub get_elem?-set_self :
      (xs : List A) (i : ℕ) {a : A} (v : A)
      → get_elem? xs i ≡ some a
      → get_elem? (set xs i v) i ≡ some v
  get_elem?-set_self [] i v e = cc
  get_elem?-set_self (x ∷ xs) zero v e = refl
  get_elem?-set_self (x ∷ xs) (suc i) v e = get_elem?-set_self xs i v e

  pub get_elem?-append :
      (xs ys : List A) (i : ℕ) (x : A) → get_elem? xs i ≡ some x → get_elem? (xs ++ ys) i ≡ some x
  get_elem?-append [] ys i x e = cc
  get_elem?-append (z ∷ xs) ys zero x e = e
  get_elem?-append (z ∷ xs) ys (suc i) x e = get_elem?-append xs ys i x e

  pub get_elem?-last :
      (xs : List A) (x : A) (n : ℕ) → length xs ≡ n → get_elem? (xs ++ x ∷ []) n ≡ some x
  get_elem?-last [] x zero q = refl
  get_elem?-last [] x (suc n) q = absurd (omega arith)
  get_elem?-last (z ∷ xs) x zero q = absurd (omega arith)
  get_elem?-last (z ∷ xs) x (suc n) q = get_elem?-last xs x n (omega arith)

  pub get_elem?-snoc :
      (xs : List A) (x y : A) (i : ℕ)
      → get_elem? (xs ++ x ∷ []) i ≡ some y
      → (get_elem? xs i ≡ some y) ⊎ ((i ≡ length xs) × (x ≡ y))
  get_elem?-snoc [] x y zero e = inr (refl, some-injective _ _ e)
  get_elem?-snoc [] x y (suc i) e = cc
  get_elem?-snoc (z ∷ xs) x y zero e = inl e
  get_elem?-snoc (z ∷ xs) x y (suc i) e = elim (get_elem?-snoc xs x y i e) [
    | inl f ↦ inl f
    | inr (p, q) ↦ inr (omega arith, q)
  ]
