-- ===== src/ActorGraph/Focus/Search.antt =====
-- The rounds of the search in `focus` of rsactor-graph/src/view.rs.
use mathlib.Core.List.{Memᴰ}
use mathlib.Core.List.Memᴰ
use mathlib.Core.List.Memᴰ.{append_cases}
use text.Mathlib.Text.{◌==◌ as ◌==ₛ◌}
use text.Mathlib.TextEquality.{eq_iff}
use rsactor.Base.{
  ℕ, suc, ◌≤◌, ◌==◌, ==_iff, arith, ◌≡◌, refl, sym, ap, subst, ◌∙◌, ◌⊎◌, inl, inr, ◌↔◌, String,
  none, some, List, [], ◌∷◌, ◌++◌, Bool-cases, Option-cases,
}
use rsactor.ActorGraph.Model.{Edge}
use rsactor.ActorGraph.Focus.Walk.{IsLinked, Walk, along, neighbours-IsLinked, IsLinked-neighbours}
use rsactor.ActorGraph.Focus.{neighbours, Distance, get, Round, visit_one, visit, visit_frontier}

pub le_cases : (d k : ℕ) → d ≤ k → (d ≡ k) ⊎ (suc d ≤ k)
le_cases d k h = elim (Bool-cases (d == k)) [
  | inl e ↦ inl ((==_iff d k).0 e)
  | inr n ↦ inr (ground arith)
]

-- `HashMap::insert` on a new key, and the other keys
pub get-insert :
    (n : String) (step : ℕ) (d : Distance) (id : String)
    → ((n ≡ id) × (get ((n, step) ∷ d) id ≡ some step)) ⊎ (get ((n, step) ∷ d) id ≡ get d id)
unfolding get
get-insert n step d id = elim (Bool-cases (n ==ₛ id)) [
  | inl e ↦ inl ((eq_iff n id).0 e, rw e refl)
  | inr f ↦ inr (rw f refl)
]

pub get-insert_self : (n : String) (step : ℕ) (d : Distance) → get ((n, step) ∷ d) n ≡ some step
unfolding get
get-insert_self n step d = rw ((eq_iff n n).1 refl) refl

pub some_inj : {A : Type 0} {a b : A} → some a ≡ some b → a ≡ b
some_inj e = cc

visit_one-keeps :
    (step : ℕ) (n : String) (r : Round) (id : String) (d : ℕ)
    → get r.distance id ≡ some d
    → get (visit_one step n r).distance id ≡ some d
unfolding visit_one
visit_one-keeps step n r id d h = elim (Option-cases (get r.distance n)) [
  | inr (k, e) ↦ rw (e, visit_one) h
  | inl e ↦
      rw (e, visit_one)
        (elim (get-insert n step r.distance id) [
          | inl (same, g) ↦
              let e' : get r.distance id ≡ none = ap (get r.distance) (sym same) ∙ e in cc
          | inr g ↦ g ∙ h
        ])
]

visit_one-covers :
    (step : ℕ) (n : String) (r : Round) → (d : ℕ) × (get (visit_one step n r).distance n ≡ some d)
unfolding visit_one
visit_one-covers step n r = elim (Option-cases (get r.distance n)) [
  | inr (k, e) ↦ (k, rw (e, visit_one) e)
  | inl e ↦ (step, rw (e, visit_one) (get-insert_self n step r.distance))
]

visit-keeps :
    (step : ℕ) (ns : List String) (r : Round) (id : String) (d : ℕ)
    → get r.distance id ≡ some d
    → get (visit step ns r).distance id ≡ some d
unfolding visit
visit-keeps step [] r id d h = h
visit-keeps step (n ∷ ns) r id d h =
    visit-keeps step ns (visit_one step n r) id d (visit_one-keeps step n r id d h)

visit-covers :
    (step : ℕ) (ns : List String) (r : Round) (n : String)
    → Memᴰ n ns
    → (d : ℕ) × (get (visit step ns r).distance n ≡ some d)
unfolding visit
visit-covers step [] r n m = absurd (Memᴰ.not-nil m)
visit-covers step (x ∷ ns) r n m = elim (Memᴰ.cases_cons m) [
  | inr t ↦ visit-covers step ns (visit_one step x r) n t
  | inl e ↦
      let (d, h) = visit_one-covers step x r in
      (d, visit-keeps step ns (visit_one step x r) n d (rw e h))
]

-- What holds of a round of the search from `start` that has distances up to `k`: each one is the
-- length of a walk, and `next` holds the ids at the distance `k`.
pub record IsSound (es : List Edge) (start : String) (k : ℕ) (r : Round) : Type 0 where
  pub distances_walked :
      (id : String) (d : ℕ) → get r.distance id ≡ some d → Walk es d start id × (d ≤ k)
  pub next_at_k : (id : String) → Memᴰ id r.next ↔ (get r.distance id ≡ some k)

module _ (es : List Edge) (start : String) (k : ℕ) where
  visit_one-IsSound :
      (b n : String) (r : Round)
      → Walk es k start b
      → IsLinked es b n
      → IsSound es start (suc k) r
      → IsSound es start (suc k) (visit_one (suc k) n r)
  unfolding visit_one
  visit_one-IsSound b n r w l v = elim (Option-cases (get r.distance n)) [
    | inr (d, e) ↦ rw (e, visit_one) v
    | inl e ↦
        rw (e, visit_one)
          (record { distances_walked = walked_to e; next_at_k = λ id. (listed e id, at_k e id) })
  ]
    where
      walked_to :
          get r.distance n ≡ none
          → (id : String) (d : ℕ) → get ((n, suc k) ∷ r.distance) id ≡ some d
          → Walk es d start id × (d ≤ suc k)
      walked_to e id d h = elim (get-insert n (suc k) r.distance id) [
        | inl (same, g) ↦
            let f : suc k ≡ d = some_inj (sym g ∙ h) in
            (
              subst (λ x. Walk es x start id) f (subst (Walk es (suc k) start) same (along w l)),
              omega (arith, f),
            )
        | inr g ↦ v.distances_walked id d (sym g ∙ h)
      ]

      listed :
          get r.distance n ≡ none
          → (id : String) → Memᴰ id (r.next ++ n ∷ [])
          → get ((n, suc k) ∷ r.distance) id ≡ some (suc k)
      listed e id m = elim (get-insert n (suc k) r.distance id) [
        | inl (same, g) ↦ g
        | inr g ↦ elim (append_cases r.next m) [
          | inl t ↦ g ∙ (v.next_at_k id).0 t
          | inr t ↦ rw (Memᴰ.eq_of_singleton t) (get-insert_self n (suc k) r.distance)
        ]
      ]

      at_k :
          get r.distance n ≡ none
          → (id : String) → get ((n, suc k) ∷ r.distance) id ≡ some (suc k)
          → Memᴰ id (r.next ++ n ∷ [])
      at_k e id h = elim (get-insert n (suc k) r.distance id) [
        | inl (same, g) ↦ Memᴰ.append_right r.next (Memᴰ.head (sym same))
        | inr g ↦ Memᴰ.append_left (n ∷ []) ((v.next_at_k id).1 (sym g ∙ h))
      ]

  visit-IsSound :
      (b : String) (ns : List String) (r : Round)
      → Walk es k start b
      → ((n : String) → Memᴰ n ns → IsLinked es b n)
      → IsSound es start (suc k) r
      → IsSound es start (suc k) (visit (suc k) ns r)
  unfolding visit
  visit-IsSound b [] r w l v = v
  visit-IsSound b (n ∷ ns) r w l v =
      visit-IsSound b ns (visit_one (suc k) n r) w (λ x m. l x (Memᴰ.tail m))
        (visit_one-IsSound b n r w (l n (Memᴰ.head refl)) v)

  pub visit_frontier-IsSound :
      (ids : List String) (r : Round)
      → ((b : String) → Memᴰ b ids → Walk es k start b)
      → IsSound es start (suc k) r
      → IsSound es start (suc k) (visit_frontier es (suc k) ids r)
  unfolding visit_frontier
  visit_frontier-IsSound [] r w v = v
  visit_frontier-IsSound (b ∷ ids) r w v =
      visit_frontier-IsSound ids (visit (suc k) (neighbours es b) r) (λ x m. w x (Memᴰ.tail m))
        (visit-IsSound b (neighbours es b) r (w b (Memᴰ.head refl)) (neighbours-IsLinked es b) v)

  pub visit_frontier-keeps :
      (ids : List String) (r : Round) (id : String) (d : ℕ)
      → get r.distance id ≡ some d
      → get (visit_frontier es (suc k) ids r).distance id ≡ some d
  unfolding visit_frontier
  visit_frontier-keeps [] r id d h = h
  visit_frontier-keeps (b ∷ ids) r id d h =
      visit_frontier-keeps ids (visit (suc k) (neighbours es b) r) id d
        (visit-keeps (suc k) (neighbours es b) r id d h)

  pub visit_frontier-covers :
      (ids : List String) (r : Round) (b n : String)
      → Memᴰ b ids
      → IsLinked es b n
      → (d : ℕ) × (get (visit_frontier es (suc k) ids r).distance n ≡ some d)
  unfolding visit_frontier
  visit_frontier-covers [] r b n m l = absurd (Memᴰ.not-nil m)
  visit_frontier-covers (x ∷ ids) r b n m l = elim (Memᴰ.cases_cons m) [
    | inr t ↦ visit_frontier-covers ids (visit (suc k) (neighbours es x) r) b n t l
    | inl e ↦
        let (d, h) =
          visit-covers (suc k) (neighbours es x) r n
            (IsLinked-neighbours es x n (subst (λ y. IsLinked es y n) e l)) in
        (d, visit_frontier-keeps ids (visit (suc k) (neighbours es x) r) n d h)
  ]
