-- ===== src/ActorGraph/Resolve/Reach/Present.antt =====
-- The answers of the search of rsactor-graph/src/resolve.rs through globs.
use rsactor.Base.{
  ℕ, zero, suc, String, Bool, true, false, Option, none, some, List, [], ◌∷◌, if◌then◌else◌,
}
use rsactor.ActorGraph.Resolve.{
  Res, in_module, declaration, variant, rsactor_name, std_name, external_name, value_name, Import,
  named, glob, Index, scope_of,
}
use rsactor.ActorGraph.Resolve.Lookup.{
  Lookup, found, missing, out_of_range, exhausted, then_find, in_range, resolve_use,
}
use rsactor.ActorGraph.Resolve.Paths.{is_visited, outside_of, some_outside, glob_reaches_outside}

-- The search always has an answer of its own.
abbrev pub IsPresent : {A : Type 0} → Lookup A → Type 0
IsPresent (found a) = Unit {0}
IsPresent missing = ⊥
IsPresent out_of_range = Unit {0}
IsPresent exhausted = Unit {0}

then_find-IsPresent :
    {A B : Type 0} (l : Lookup A) (next : A → Lookup B)
    → IsPresent l
    → ((a : A) → IsPresent (next a))
    → IsPresent (then_find l next)
unfolding then_find
then_find-IsPresent (found a) next p q = q a
then_find-IsPresent missing next p q = p
then_find-IsPresent out_of_range next p q = tt
then_find-IsPresent exhausted next p q = tt

in_range-IsPresent : {A : Type 0} (o : Option A) → IsPresent (in_range o)
unfolding in_range
in_range-IsPresent none = tt
in_range-IsPresent (some a) = tt

if-IsPresent :
    {A : Type 0} (b : Bool) (x y : Lookup A)
    → IsPresent x
    → IsPresent y
    → IsPresent (if b then x else y)
if-IsPresent true x y p q = p
if-IsPresent false x y p q = q

module _ (ix : Index) (look : ℕ → ℕ → String → Lookup Res) where
  module _ (go : ℕ → ℕ → List (ℕ × ℕ) → Lookup (Bool × List (ℕ × ℕ)))
      (present : (c m : ℕ) (vs : List (ℕ × ℕ)) → IsPresent (go c m vs)) where
    outside_of-IsPresent :
        (l : Lookup Res) (vs : List (ℕ × ℕ)) → IsPresent (outside_of ix look go l vs)
    unfolding outside_of
    outside_of-IsPresent (found (in_module c m)) vs = present c m vs
    outside_of-IsPresent (found (declaration id)) vs = tt
    outside_of-IsPresent (found (rsactor_name name)) vs = tt
    outside_of-IsPresent (found (variant id name)) vs = tt
    outside_of-IsPresent (found (std_name path)) vs = tt
    outside_of-IsPresent (found (external_name path)) vs = tt
    outside_of-IsPresent (found (value_name path)) vs = tt
    outside_of-IsPresent missing vs = tt
    outside_of-IsPresent out_of_range vs = tt
    outside_of-IsPresent exhausted vs = tt

    some_outside-IsPresent :
        (c m : ℕ) (imports : List Import) (vs : List (ℕ × ℕ))
        → IsPresent (some_outside ix look go c m imports vs)
    unfolding some_outside
    some_outside-IsPresent c m [] vs = tt
    some_outside-IsPresent c m (named alias path colon ∷ imports) vs =
        some_outside-IsPresent c m imports vs
    some_outside-IsPresent c m (glob path colon ∷ imports) vs =
        then_find-IsPresent (outside_of ix look go (resolve_use ix look c m path colon) vs) _
          (outside_of-IsPresent (resolve_use ix look c m path colon) vs)
          (λ r.
            if-IsPresent r.0 (found (true, r.1)) (some_outside ix look go c m imports r.1) tt
              (some_outside-IsPresent c m imports r.1))

  pub search-IsPresent :
      (fuel c m : ℕ) (vs : List (ℕ × ℕ)) → IsPresent (glob_reaches_outside ix look fuel c m vs)
  unfolding glob_reaches_outside
  search-IsPresent zero c m vs = tt
  search-IsPresent (suc fuel) c m vs = if-IsPresent (is_visited c m vs) (found (false, vs)) _ tt (
      then_find-IsPresent (in_range (scope_of ix c m)) _ (in_range-IsPresent (scope_of ix c m))
        (λ s.
          some_outside-IsPresent (glob_reaches_outside ix look fuel) (search-IsPresent fuel) c m
            s.imports ((c, m) ∷ vs)))
