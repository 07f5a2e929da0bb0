-- ===== src/ActorGraph/Focus/Matches.antt =====
-- Which actors a query of `--focus` in rsactor-graph/src/view.rs names.
use mathlib.Core.List.{Memᴰ}
use mathlib.Core.List.Memᴰ
use Prim.Native.String.append
use text.Mathlib.Text.{◌==◌}
use text.Mathlib.TextEquality.{eq_iff}
use rsactor.Base.{
  ◌≡◌, refl, sym, ap, subst, ◌∙◌, ◌⊎◌, inl, inr, ◌↔◌, String, ◌<>◌, Bool, true, false, ◌||◌, List,
  [], ◌∷◌, Bool-cases,
}
use rsactor.Base.Text.{ends_with}
use rsactor.ActorGraph.Model.{ActorNode}
use rsactor.ActorGraph.Focus.{matches}

||_cases : (a b : Bool) → (a || b) ≡ true → (a ≡ true) ⊎ (b ≡ true)
||_cases true b h = inl refl
||_cases false b h = inr h

||_right : (a b : Bool) → b ≡ true → (a || b) ≡ true
||_right true b h = refl
||_right false b h = h

ends_with_refl : (t : String) → ends_with t t ≡ true
unfolding ends_with
ends_with_refl String.[] = (eq_iff "" "").1 refl
ends_with_refl (String.◌∷◌ c s) = rw ((eq_iff (String.◌∷◌ c s) (String.◌∷◌ c s)).1 refl) refl

ends_with-append : (p t : String) → ends_with (p <> t) t ≡ true
unfolding ends_with
ends_with-append String.[] t = rw (append.nil t) (ends_with_refl t)
ends_with-append (String.◌∷◌ c p) t =
    rw (append.cons c p t)
      (||_right (String.◌∷◌ c (p <> t) == t) (ends_with (p <> t) t) (ends_with-append p t))

append_of_ends_with : (s t : String) → ends_with s t ≡ true → (p : String) × (s ≡ p <> t)
unfolding ends_with
append_of_ends_with String.[] t h = ("", (eq_iff "" t).0 h ∙ sym (append.nil t))
append_of_ends_with (String.◌∷◌ c s) t h = elim (||_cases (String.◌∷◌ c s == t) (ends_with s t) h) [
  | inl e ↦ ("", (eq_iff (String.◌∷◌ c s) t).0 e ∙ sym (append.nil t))
  | inr r ↦
      let (p, q) = append_of_ends_with s t r in
      (String.◌∷◌ c p, ap (String.◌∷◌ c) q ∙ sym (append.cons c p t))
]

-- the path is the query, or ends in `::` and the query
abbrev IsNamed : String → String → Type 0
IsNamed query path = (path ≡ query) ⊎ ((p : String) × (path ≡ p <> ("::" <> query)))

IsNamed-iff :
    (query path : String)
    → (((path == query) || ends_with path ("::" <> query)) ≡ true) ↔ IsNamed query path
IsNamed-iff query path = (
  λ h. elim (||_cases (path == query) (ends_with path ("::" <> query)) h) [
    | inl e ↦ inl ((eq_iff path query).0 e)
    | inr e ↦ inr (append_of_ends_with path ("::" <> query) e)
  ],
  λ h. elim h [
    | inl e ↦ rw ((eq_iff path query).1 e) refl
    | inr (p, e) ↦
        ||_right (path == query) (ends_with path ("::" <> query))
          (rw e (ends_with-append p ("::" <> query)))
  ],
)

-- A query stands for exactly the actors whose path is the query, or ends with `::` and the query: the
-- ids that are matched are those of these actors. This is for every query and every list of actors.
matches_iff :
    (query id : String) (nodes : List ActorNode)
    → Memᴰ id (matches query nodes)
      ↔ ((a : ActorNode) × Memᴰ a nodes × IsNamed query a.path × (a.id ≡ id))
unfolding matches
matches_iff query id [] = (λ m. absurd (Memᴰ.not-nil m), λ (a, m, n, e). absurd (Memᴰ.not-nil m))
matches_iff query id (b ∷ bs) =
    elim (Bool-cases ((b.path == query) || ends_with b.path ("::" <> query))) [
      | inl t ↦
          rw (t, matches)
            (
              λ m. elim (Memᴰ.cases_cons m) [
                | inl e ↦ (b, Memᴰ.head refl, (IsNamed-iff query b.path).0 t, sym e)
                | inr u ↦ later ((matches_iff query id bs).0 u)
              ],
              λ (a, m, n, e). elim (Memᴰ.cases_cons m) [
                | inl same ↦ Memᴰ.head (sym e ∙ ap (λ x. x.id) same)
                | inr u ↦ Memᴰ.tail ((matches_iff query id bs).1 (a, u, n, e))
              ],
            )
      | inr f ↦
          rw (f, matches)
            (
              λ m. later ((matches_iff query id bs).0 m),
              λ (a, m, n, e). elim (Memᴰ.cases_cons m) [
                | inl same ↦
                    let t =
                      (IsNamed-iff query b.path).1 (subst (λ x. IsNamed query x.path) same n) in
                    let bad : true ≡ false = sym t ∙ f in cc
                | inr u ↦ (matches_iff query id bs).1 (a, u, n, e)
              ],
            )
    ]
  where
    later :
        (a : ActorNode) × Memᴰ a bs × IsNamed query a.path × (a.id ≡ id)
        → (a : ActorNode) × Memᴰ a (b ∷ bs) × IsNamed query a.path × (a.id ≡ id)
    later (a, m, n, e) = (a, Memᴰ.tail m, n, e)
