-- ===== src/ActorGraph/Resolve/Reach/Search.antt =====
-- The search of rsactor-graph/src/resolve.rs through globs, and the modules that globs lead to.
use mathlib.Core.List.{Memᴰ}
use mathlib.Core.Option.{some-injective}
use rsactor.Base.{
  ℕ, zero, suc, ◌≡◌, refl, sym, ◌∙◌, subst, ◌⊎◌, inl, inr, ◌↔◌, String, Bool, true, false, some,
  List, [], ◌∷◌, ◌++◌, Bool-cases, arith,
}
use rsactor.ActorGraph.Resolve.{
  Res, in_module, declaration, variant, rsactor_name, std_name, external_name, value_name, Import,
  glob, Scope, Index, scope_of,
}
use rsactor.ActorGraph.Resolve.Lookup.{Lookup, found, missing, out_of_range, exhausted, then_find}
use rsactor.ActorGraph.Resolve.Paths.{all_names, look_from, is_visited, glob_reaches_outside}
use rsactor.ActorGraph.Resolve.Segments.{module_fuel, outside}
use rsactor.ActorGraph.Resolve.Answers.{
  Answers, with_answer, with_fuel, Answers-weaken, Answers-then, Answers-in_range,
}
use rsactor.ActorGraph.Resolve.Reach.{
  IsOutside, IsDone, IsGlobOf, Leads, here, through, LeadsOutside, IsClosed, IsRight, IsRightLoop,
  target, some_outside-IsRight,
}
use rsactor.ActorGraph.Resolve.Reach.Present.{IsPresent, search-IsPresent}
use rsactor.ActorGraph.Resolve.Settled.{Settles, IsModule, IsWellFormed}
use rsactor.ActorGraph.Resolve.Settled.Fuel.{look_from-Settles}
use rsactor.ActorGraph.Resolve.Settled.Globs.{search-Settles}
use rsactor.ActorGraph.Resolve.Settled.Paths.{closed_from}

is_visited_cases :
    (c m x y : ℕ) (vs : List (ℕ × ℕ))
    → is_visited x y ((c, m) ∷ vs) ≡ true
    → ((c ≡ x) × (m ≡ y)) ⊎ (is_visited x y vs ≡ true)
unfolding is_visited
is_visited_cases c m x y vs e = ground arith

is_visited_self : (c m : ℕ) (vs : List (ℕ × ℕ)) → is_visited c m ((c, m) ∷ vs) ≡ true
unfolding is_visited
is_visited_self c m vs = ground arith

is_visited-cons :
    (c m x y : ℕ) (vs : List (ℕ × ℕ))
    → is_visited x y vs ≡ true
    → is_visited x y ((c, m) ∷ vs) ≡ true
unfolding is_visited
is_visited-cons c m x y vs e = ground arith

clash : (vs : List (ℕ × ℕ)) (l : Lookup Res) → IsDone vs l → IsOutside l → ⊥
clash vs (found (in_module c m)) d o = o
clash vs (found (declaration id)) d o = o
clash vs (found (rsactor_name name)) d o = o
clash vs (found (variant id name)) d o = d
clash vs (found (std_name path)) d o = d
clash vs (found (external_name path)) d o = d
clash vs (found (value_name path)) d o = d
clash vs missing d o = d
clash vs out_of_range d o = o
clash vs exhausted d o = o

module _ (ix : Index) (look : ℕ → ℕ → String → Lookup Res) where
  -- the targets of the module where the search starts
  at_start :
      (c m : ℕ) (s : Scope) (ws : List (ℕ × ℕ))
      → scope_of ix c m ≡ some s
      → ((x : Import) → Memᴰ x s.imports → IsDone ws (target ix look c m x))
      → (x y : ℕ) → (c ≡ x) × (m ≡ y)
      → (l : Lookup Res) → IsGlobOf ix look x y l
      → IsDone ws l
  at_start c m s ws e d x y (z, w) l i =
      let (t, path, colon, f, k, q) =
        subst (λ j. IsGlobOf ix look j m l) (sym z)
          (subst (λ j. IsGlobOf ix look x j l) (sym w) i) in
      subst (IsDone ws) q (
        d (glob path colon) (
          subst (λ (u : Scope). Memᴰ (glob path colon) u.imports) (some-injective _ _ (sym f ∙ e))
            k))

  -- what the loop says of a module's imports, said of the module
  loop-IsRight :
      (c m : ℕ) (s : Scope) (vs : List (ℕ × ℕ)) (r : Bool × List (ℕ × ℕ))
      → scope_of ix c m ≡ some s
      → IsRightLoop ix look c m s.imports ((c, m) ∷ vs) r
      → IsRight ix look c m vs r
  loop-IsRight c m s vs r e h = (
    h.0,
    λ f.
        let (g, d, k) = h.1 f in
        (
          (λ x y i. g x y (is_visited-cons c m x y vs i)),
          g c m (is_visited_self c m vs),
          λ x y i. elim (k x y i) [
            | inr done ↦ inr done
            | inl p ↦ elim (is_visited_cases c m x y vs p) [
              | inr q ↦ inl q
              | inl q ↦ inr (λ l t. at_start c m s r.1 e d x y q l t)
            ]
          ],
        ),
  )

  search-IsRight :
      (fuel c m : ℕ) (vs : List (ℕ × ℕ))
      → Answers (IsRight ix look c m vs) (glob_reaches_outside ix look fuel c m vs)
  unfolding glob_reaches_outside
  search-IsRight zero c m vs = with_fuel
  search-IsRight (suc fuel) c m vs = elim (Bool-cases (is_visited c m vs)) [
    | inl y ↦
        rw (y, glob_reaches_outside)
          (with_answer ((λ f. cc), λ f. ((λ a b i. i), y, λ a b i. inl i)))
    | inr n ↦
        rw (n, glob_reaches_outside)
          (Answers-then (Answers-in_range (scope_of ix c m)) (λ s e.
            Answers-weaken (λ r h. loop-IsRight c m s vs r e h)
              (some_outside-IsRight ix look (glob_reaches_outside ix look fuel)
                (search-IsRight fuel) c m s s.imports ((c, m) ∷ vs) e (λ x i. i))))
  ]

  -- what is reached from a visited module is visited
  Leads-visited :
      {c m x y : ℕ} (ws : List (ℕ × ℕ))
      → IsClosed ix look [] ws
      → Leads ix look c m x y
      → is_visited c m ws ≡ true
      → is_visited x y ws ≡ true
  unfolding is_visited
  Leads-visited ws k here e = e
  Leads-visited {c} {m} ws k (through {k = j} {n = n} i p) e =
      Leads-visited ws k p (elim (k c m e) [ inl f ↦ cc | inr d ↦ d (found (in_module j n)) i ])

module _ (ix : Index) (look : ℕ → ℕ → String → Lookup Res) where
  -- a search from nothing visited that is right is right about all that globs reach
  reached :
      (c m : ℕ) (r : Bool × List (ℕ × ℕ))
      → IsRight ix look c m [] r
      → (r.0 ≡ true) ↔ LeadsOutside ix look c m
  unfolding is_visited
  reached c m (true, ws) h = ((λ e. h.0 refl), λ o. refl)
  reached c m (false, ws) h = (
    (λ e. cc),
    λ o.
        let (x, y, l, p, i, out) = o in
        let (g, start, k) = h.1 refl in
        let e : is_visited x y ws ≡ true = Leads-visited ix look ws k p start in
        absurd (elim (k x y e) [ inl f ↦ absurd (cc) | inr d ↦ clash ws l (d l i) out ]),
  )

-- In a well-formed index, whether globs lead outside of the crates is answered, and the answer is
-- yes if and only if some chain of globs, from the module over modules of the crates, ends with a
-- glob whose target is a name outside, a variant, a value or unknown.
pub outside_correct :
    (ix : Index)
    → IsWellFormed ix
    → (segments : List String) (c m : ℕ) → IsModule ix c m
    → (b : Bool) × (outside ix (look_from ix segments) c m ≡ found b)
      × ((b ≡ true) ↔ LeadsOutside ix (look_from ix segments) c m)
unfolding outside
outside_correct ix w segments c m v =
    by_result (glob_reaches_outside ix (look_from ix segments) (module_fuel ix) c m [])
      (search-Settles ix w (look_from ix segments) (segments ++ all_names ix.scopes)
        (look_from-Settles ix w segments) (closed_from ix w segments) c m [] v)
      (search-IsPresent ix (look_from ix segments) (module_fuel ix) c m [])
      (search-IsRight ix (look_from ix segments) (module_fuel ix) c m [])
  where
    by_result :
        {P : Bool × List (ℕ × ℕ) → Type 0} (l : Lookup (Bool × List (ℕ × ℕ)))
        → Settles P l
        → IsPresent l
        → Answers (IsRight ix (look_from ix segments) c m []) l
        → (b : Bool) × (then_find l (λ r. found r.0) ≡ found b)
          × ((b ≡ true) ↔ LeadsOutside ix (look_from ix segments) c m)
    by_result (found r) s p (with_answer h) =
        (r.0, refl, reached ix (look_from ix segments) c m r h)
    by_result missing s p a = absurd p
    by_result out_of_range s p a = elim s [ ]
    by_result exhausted s p a = elim s [ ]
