-- ===== src/ActorGraph/Resolve/Reach.antt =====
-- Which globs lead outside of the crates, by the search of rsactor-graph/src/resolve.rs.
pub mod Present
pub mod Search
use mathlib.Core.List.{Memᴰ}
use mathlib.Core.List.Memᴰ
use rsactor.Base.{
  ℕ, zero, suc, ◌≡◌, refl, sym, ap, ◌∙◌, subst, ◌⊎◌, inl, inr, ◌↔◌, String, Bool, true, false, ◌&&◌,
  Option, none, some, List, [], ◌∷◌, if◌then◌else◌, Bool-cases, arith, ◌==◌,
}
use rsactor.ActorGraph.Resolve.{
  Res, in_module, declaration, variant, rsactor_name, std_name, external_name, value_name, Import,
  named, glob, Scope, Index, scope_of,
}
use rsactor.ActorGraph.Resolve.Lookup.{
  Lookup, found, missing, out_of_range, exhausted, then_find, in_range, resolve_use,
}
use rsactor.ActorGraph.Resolve.Paths.{is_visited, outside_of, some_outside, glob_reaches_outside}
use rsactor.ActorGraph.Resolve.Answers.{
  Answers, with_answer, with_none, with_panic, with_fuel, Answers-weaken, Answers-then,
  Answers-in_range,
}

-- A glob's target that is outside, or unknown.
abbrev pub IsOutside : Lookup Res → Type 0
IsOutside (found (in_module c m)) = ⊥
IsOutside (found (declaration id)) = ⊥
IsOutside (found (rsactor_name name)) = ⊥
IsOutside (found (variant id name)) = Unit {0}
IsOutside (found (std_name path)) = Unit {0}
IsOutside (found (external_name path)) = Unit {0}
IsOutside (found (value_name path)) = Unit {0}
IsOutside missing = Unit {0}
IsOutside out_of_range = ⊥
IsOutside exhausted = ⊥

-- A target that the search is done with.
abbrev pub IsDone : List (ℕ × ℕ) → Lookup Res → Type 0
IsDone visited (found (in_module c m)) = is_visited c m visited ≡ true
IsDone visited (found (declaration id)) = Unit {0}
IsDone visited (found (rsactor_name name)) = Unit {0}
IsDone visited (found (variant id name)) = ⊥
IsDone visited (found (std_name path)) = ⊥
IsDone visited (found (external_name path)) = ⊥
IsDone visited (found (value_name path)) = ⊥
IsDone visited missing = ⊥
IsDone visited out_of_range = Unit {0}
IsDone visited exhausted = Unit {0}

abbrev pub Grows : List (ℕ × ℕ) → List (ℕ × ℕ) → Type 0
Grows vs ws = (c m : ℕ) → is_visited c m vs ≡ true → is_visited c m ws ≡ true

IsDone-Grows : (vs ws : List (ℕ × ℕ)) (l : Lookup Res) → Grows vs ws → IsDone vs l → IsDone ws l
IsDone-Grows vs ws (found (in_module c m)) g d = g c m d
IsDone-Grows vs ws (found (declaration id)) g d = tt
IsDone-Grows vs ws (found (rsactor_name name)) g d = tt
IsDone-Grows vs ws (found (variant id name)) g d = d
IsDone-Grows vs ws (found (std_name path)) g d = d
IsDone-Grows vs ws (found (external_name path)) g d = d
IsDone-Grows vs ws (found (value_name path)) g d = d
IsDone-Grows vs ws missing g d = d
IsDone-Grows vs ws out_of_range g d = tt
IsDone-Grows vs ws exhausted g d = tt

module _ (ix : Index) (look : ℕ → ℕ → String → Lookup Res) where
  -- A glob in the scope of the module resolves to this.
  abbrev pub IsGlobOf : ℕ → ℕ → Lookup Res → Type 0
  IsGlobOf c m l =
      (s : Scope) × (path : List String) × (colon : Bool) × (scope_of ix c m ≡ some s)
      × Memᴰ (glob path colon) s.imports
      × (resolve_use ix look c m path colon ≡ l)

  -- Globs lead from a module to another.
  pub data Leads : ℕ → ℕ → ℕ → ℕ → Type 0 where
    here : {c m : ℕ} → Leads c m c m
    through :
        {c m k n x y : ℕ} → IsGlobOf c m (found (in_module k n)) → Leads k n x y → Leads c m x y

  abbrev pub LeadsOutside : ℕ → ℕ → Type 0
  LeadsOutside c m =
      (x : ℕ) × (y : ℕ) × (l : Lookup Res) × Leads c m x y × IsGlobOf x y l × IsOutside l

  -- What is visited on the way is done with.
  abbrev pub IsClosed : List (ℕ × ℕ) → List (ℕ × ℕ) → Type 0
  IsClosed vs ws =
      (c m : ℕ)
      → is_visited c m ws ≡ true
      → (is_visited c m vs ≡ true) ⊎ ((l : Lookup Res) → IsGlobOf c m l → IsDone ws l)

  IsClosed-trans :
      (us vs ws : List (ℕ × ℕ)) → IsClosed us vs → IsClosed vs ws → Grows vs ws → IsClosed us ws
  IsClosed-trans us vs ws f g h c m e = elim (g c m e) [
    | inr d ↦ inr d
    | inl p ↦ elim (f c m p) [ inl q ↦ inl q | inr d ↦ inr (λ l i. IsDone-Grows vs ws l h (d l i)) ]
  ]

  -- The search from a module is right.
  abbrev pub IsRight : ℕ → ℕ → List (ℕ × ℕ) → Bool × List (ℕ × ℕ) → Type 0
  IsRight c m vs r =
      (r.0 ≡ true → LeadsOutside c m)
      × (r.0 ≡ false → Grows vs r.1 × (is_visited c m r.1 ≡ true) × IsClosed vs r.1)

  -- So is the answer for one target,
  abbrev IsRightAt : ℕ → ℕ → Lookup Res → List (ℕ × ℕ) → Bool × List (ℕ × ℕ) → Type 0
  IsRightAt c m l vs r =
      (r.0 ≡ true → LeadsOutside c m)
      × (r.0 ≡ false → Grows vs r.1 × IsDone r.1 l × IsClosed vs r.1)

  abbrev pub target : ℕ → ℕ → Import → Lookup Res
  target c m (glob path colon) = resolve_use ix look c m path colon
  target c m (named alias path colon) = exhausted

  -- and that of the loop over the imports of a scope.
  abbrev pub IsRightLoop : ℕ → ℕ → List Import → List (ℕ × ℕ) → Bool × List (ℕ × ℕ) → Type 0
  IsRightLoop c m imports vs r =
      (r.0 ≡ true → LeadsOutside c m)
      × (r.0 ≡ false
          → Grows vs r.1
            × ((x : Import) → Memᴰ x imports → IsDone r.1 (target c m x))
            × IsClosed vs r.1)

  module _ (go : ℕ → ℕ → List (ℕ × ℕ) → Lookup (Bool × List (ℕ × ℕ)))
      (right : (c m : ℕ) (vs : List (ℕ × ℕ)) → Answers (IsRight c m vs) (go c m vs)) where
    unchanged : (vs : List (ℕ × ℕ)) → Grows vs vs × IsClosed vs vs
    unchanged vs = ((λ c m e. e), λ c m e. inl e)

    out :
        (c m : ℕ) (l : Lookup Res) (vs : List (ℕ × ℕ))
        → IsGlobOf c m l
        → IsOutside l
        → IsRightAt c m l vs (true, vs)
    out c m l vs i o = ((λ e. (c, m, l, here, i, o)), λ e. cc)

    outside_of-IsRight :
        (c m : ℕ) (l : Lookup Res) (vs : List (ℕ × ℕ))
        → IsGlobOf c m l
        → Answers (IsRightAt c m l vs) (outside_of ix look go l vs)
    unfolding outside_of
    outside_of-IsRight c m (found (in_module k n)) vs i =
        Answers-weaken
          (λ r h. ((λ e. let (x, y, l, p, q, o) = h.0 e in (x, y, l, through i p, q, o)), h.1))
          (right k n vs)
    outside_of-IsRight c m (found (declaration id)) vs i =
        with_answer ((λ e. cc), λ e. ((unchanged vs).0, tt, (unchanged vs).1))
    outside_of-IsRight c m (found (rsactor_name name)) vs i =
        with_answer ((λ e. cc), λ e. ((unchanged vs).0, tt, (unchanged vs).1))
    outside_of-IsRight c m (found (variant id name)) vs i = with_answer (out c m _ vs i tt)
    outside_of-IsRight c m (found (std_name path)) vs i = with_answer (out c m _ vs i tt)
    outside_of-IsRight c m (found (external_name path)) vs i = with_answer (out c m _ vs i tt)
    outside_of-IsRight c m (found (value_name path)) vs i = with_answer (out c m _ vs i tt)
    outside_of-IsRight c m missing vs i = with_answer (out c m _ vs i tt)
    outside_of-IsRight c m out_of_range vs i = with_panic
    outside_of-IsRight c m exhausted vs i = with_fuel

    pub some_outside-IsRight :
        (c m : ℕ) (s : Scope) (imports : List Import) (vs : List (ℕ × ℕ))
        → scope_of ix c m ≡ some s
        → ((x : Import) → Memᴰ x imports → Memᴰ x s.imports)
        → Answers (IsRightLoop c m imports vs) (some_outside ix look go c m imports vs)
    unfolding some_outside
    some_outside-IsRight c m s [] vs e within =
        with_answer ((λ f. cc), λ f. ((unchanged vs).0, (λ x k. elim k [ ]), (unchanged vs).1))
    some_outside-IsRight c m s (named alias path colon ∷ imports) vs e within =
        Answers-weaken
          (λ r h. (
            h.0,
            λ f.
                let (g, d, k) = h.1 f in
                (
                  g,
                  (λ x i. elim (Memᴰ.cases_cons i) [
                    | inl q ↦ subst (λ y. IsDone r.1 (target c m y)) (sym q) tt
                    | inr j ↦ d x j
                  ]),
                  k,
                ),
          ))
          (some_outside-IsRight c m s imports vs e (λ x i. within x (Memᴰ.tail i)))
    some_outside-IsRight c m s (glob path colon ∷ imports) vs e within =
        Answers-then
          (outside_of-IsRight c m (resolve_use ix look c m path colon) vs
            (s, path, colon, e, within (glob path colon) (Memᴰ.head refl), refl))
          (λ r h.
            by_answer r h
              (some_outside-IsRight c m s imports r.1 e (λ x i. within x (Memᴰ.tail i))))
      where
        by_answer :
            (r : Bool × List (ℕ × ℕ))
            → IsRightAt c m (resolve_use ix look c m path colon) vs r
            → Answers (IsRightLoop c m imports r.1) (some_outside ix look go c m imports r.1)
            → Answers
                (IsRightLoop c m (glob path colon ∷ imports) vs)
                (if r.0 then found (true, r.1) else some_outside ix look go c m imports r.1)
        by_answer (true, ws) h next = with_answer ((λ f. h.0 refl), λ f. cc)
        by_answer (false, ws) h next =
            Answers-weaken
              (λ r g. (
                g.0,
                λ f.
                    let (a, d, k) = h.1 refl in
                    let (a', d', k') = g.1 f in
                    (
                      (λ x y i. a' x y (a x y i)),
                      (λ x i. elim (Memᴰ.cases_cons i) [
                        | inl q ↦
                            subst (λ y. IsDone r.1 (target c m y)) (sym q)
                              (IsDone-Grows ws r.1 (resolve_use ix look c m path colon) a' d)
                        | inr j ↦ d' x j
                      ]),
                      IsClosed-trans vs ws r.1 k k' a',
                    ),
              ))
              next
