-- ===== src/ActorGraph/Focus/Distances.antt =====
-- The distances that `focus` of rsactor-graph/src/view.rs computes.
use mathlib.Core.List.{Memᴰ}
use mathlib.Core.List.Memᴰ
use rsactor.Base.{
  ℕ, zero, suc, ◌≤◌, ◌+◌, arith, ◌≡◌, refl, sym, ap, subst, ◌∙◌, inl, inr, String, none, some, List,
  [], ◌∷◌,
}
use rsactor.ActorGraph.Model.{Edge}
use rsactor.ActorGraph.Focus.{Distance, get, Round, visit_frontier, search, distances}
use rsactor.ActorGraph.Focus.Walk.{IsLinked, Walk, stay, along}
use rsactor.ActorGraph.Focus.Search.{
  le_cases, get-insert, get-insert_self, some_inj, IsSound, visit_frontier-IsSound,
  visit_frontier-keeps, visit_frontier-covers,
}

-- Every walk of at most `k` edges ends at an id that has a distance, which is no longer.
abbrev IsComplete : List Edge → String → ℕ → Distance → Type 0
IsComplete es start k dist =
    (id : String) (m : ℕ) → Walk es m start id → m ≤ k → (d : ℕ) × (get dist id ≡ some d) × (d ≤ m)

last_link :
    {es : List Edge} {a c : String} (n k : ℕ)
    → n ≡ suc k
    → Walk es n a c
    → (b : String) × Walk es k a b × IsLinked es b c
last_link n k e stay = let bad : ⊥ = omega (arith, e) in absurd bad
last_link {es} {a} n k e (along {n = j} {b} u l) =
    let f : j ≡ k = omega (arith, e) in (b, subst (λ i. Walk es i a b) f u, l)

module _ (es : List Edge) (start : String) where
  -- the state of the search at the start of a round
  abbrev opened : Round → Round
  opened r = record { distance = r.distance; next = [] }

  opened-IsSound : (k : ℕ) (r : Round) → IsSound es start k r → IsSound es start (suc k) (opened r)
  opened-IsSound k r v = record {
    distances_walked = λ id d h. let (w, le) = v.distances_walked id d h in (w, omega (arith, le));
    next_at_k = λ id. (
      λ m. absurd (Memᴰ.not-nil m),
      λ h.
          let le = (v.distances_walked id (suc k) h).1 in
          let bad : ⊥ = omega (arith, le) in absurd bad,
    );
  }

  next_walked :
      (k : ℕ) (r : Round) → IsSound es start k r → (b : String) → Memᴰ b r.next → Walk es k start b
  next_walked k r v b m = (v.distances_walked b k ((v.next_at_k b).0 m)).0

  visit_frontier-IsComplete :
      (k : ℕ) (r : Round)
      → IsSound es start k r
      → IsComplete es start k r.distance
      → IsSound es start (suc k) (visit_frontier es (suc k) r.next (opened r))
      → IsComplete es start (suc k) (visit_frontier es (suc k) r.next (opened r)).distance
  visit_frontier-IsComplete k r v c v' id m w le = elim (le_cases m (suc k) le) [
    | inr short ↦ kept (c id m w (omega (arith, short)))
    | inl e ↦ last_edge e (last_link m k e w)
  ]
    where
      after : Round
      after = visit_frontier es (suc k) r.next (opened r)

      kept :
          {n : ℕ}
          → (d : ℕ) × (get r.distance id ≡ some d) × (d ≤ n)
          → (d : ℕ) × (get after.distance id ≡ some d) × (d ≤ n)
      kept (d, h, le) = (d, visit_frontier-keeps es start k r.next (opened r) id d h, le)

      last_edge :
          m ≡ suc k
          → (b : String) × Walk es k start b × IsLinked es b id
          → (d : ℕ) × (get after.distance id ≡ some d) × (d ≤ m)
      last_edge e (b, u, l) =
          let (d, h, le) = c b k u (omega arith) in
          elim (le_cases d k le) [
            | inl at ↦
                let f : get r.distance b ≡ some k = h ∙ ap (λ x. some x) at in
                let (d', h') =
                  visit_frontier-covers es start k r.next (opened r) b id ((v.next_at_k b).1 f) l in
                (d', h', let b' = (v'.distances_walked id d' h').1 in omega (arith, e, b'))
            | inr near ↦
                let (d', h', le') = c id (suc d) (along (v.distances_walked b d h).0 l) near in
                kept (d', h', omega (arith, e, le', near))
          ]

  search-IsComplete :
      (left k depth : ℕ) (r : Round)
      → k + left ≡ depth
      → IsSound es start k r
      → IsComplete es start k r.distance
      → IsSound es start depth (search es (suc k) left r)
        × IsComplete es start depth (search es (suc k) left r).distance
  unfolding search
  search-IsComplete zero k depth r e v c =
      let f : k ≡ depth = omega (arith, e) in
      (subst (λ x. IsSound es start x r) f v, subst (λ x. IsComplete es start x r.distance) f c)
  search-IsComplete (suc left) k depth r e v c =
      let v' =
        visit_frontier-IsSound es start k r.next (opened r) (next_walked k r v)
          (opened-IsSound k r v) in
      search-IsComplete left (suc k) depth (visit_frontier es (suc k) r.next (opened r))
        (omega (arith, e)) v' (visit_frontier-IsComplete k r v c v')

  abbrev first_round : Round
  first_round = record { distance = (start, 0) ∷ []; next = start ∷ [] }

  first_distance :
      (id : String) (d : ℕ) → get ((start, 0) ∷ []) id ≡ some d → (start ≡ id) × (0 ≡ d)
  unfolding get
  first_distance id d h = elim (get-insert start 0 [] id) [
    | inl (same, g) ↦ (same, some_inj (sym g ∙ h))
    | inr g ↦ let bad : none ≡ some d = sym g ∙ h in cc
  ]

  -- `start` itself, before the first round
  first_round-IsSound : IsSound es start 0 first_round
  first_round-IsSound = record {
    distances_walked = λ id d h.
        let (same, zero_is) = first_distance id d h in
        (
          subst (λ x. Walk es x start id) zero_is (subst (Walk es 0 start) same stay),
          omega (arith, zero_is),
        );
    next_at_k = λ id. (
      λ m. rw (Memᴰ.eq_of_singleton m) (get-insert_self start 0 []),
      λ h. Memᴰ.head (sym (first_distance id 0 h).0),
    );
  }

  no_edges : {a c : String} {n : ℕ} → Walk es n a c → n ≤ 0 → a ≡ c
  no_edges stay h = refl
  no_edges (along u l) h = let bad : ⊥ = omega (arith, h) in absurd bad

  first_round-IsComplete : IsComplete es start 0 first_round.distance
  first_round-IsComplete id m w le = (
    0,
    subst (λ x. get first_round.distance x ≡ some 0) (no_edges w le) (get-insert_self start 0 []),
    omega arith,
  )

  -- a distance is the length of a walk
  pub distances-walked :
      (depth : ℕ) (id : String) (d : ℕ)
      → get (distances es start depth) id ≡ some d
      → Walk es d start id × (d ≤ depth)
  unfolding distances
  distances-walked depth =
      (search-IsComplete depth 0 depth first_round (omega arith) first_round-IsSound
        first_round-IsComplete).0.distances_walked

  -- and no walk is shorter
  pub distances-shortest :
      (depth : ℕ) (id : String) (m : ℕ)
      → Walk es m start id
      → m ≤ depth
      → (d : ℕ) × (get (distances es start depth) id ≡ some d) × (d ≤ m)
  unfolding distances
  distances-shortest depth =
      (search-IsComplete depth 0 depth first_round (omega arith) first_round-IsSound
        first_round-IsComplete).1
