-- ===== src/ActorGraph/Focus/Kept.antt =====
-- What `focus` of rsactor-graph/src/view.rs keeps.
use mathlib.Core.List.{Memᴰ}
use mathlib.Core.List.Memᴰ
use rsactor.Base.{
  ℕ, suc, ◌≤◌, ◌<◌, min, ltb, arith, ◌≡◌, refl, sym, ap, ◌∙◌, ◌⊎◌, inl, inr, ◌↔◌, String, Bool,
  true, false, none, some, List, [], ◌∷◌, Bool-cases, Option-cases,
}
use rsactor.ActorGraph.Model.{Node, node_id, Edge}
use rsactor.ActorGraph.Output.{Output, actors}
use rsactor.ActorGraph.Focus.{
  Distance, get, distances, is_kept, walked, retain, focus_from, matches, choose_start, focus,
}
use rsactor.ActorGraph.Focus.Walk.{IsLinked, Walk, along}
use rsactor.ActorGraph.Focus.Distances.{distances-walked, distances-shortest}

-- a walk of at most that many edges
abbrev pub Within : List Edge → ℕ → String → String → Type 0
Within es n a b = (m : ℕ) × Walk es m a b × (m ≤ n)

-- a walk of fewer edges
abbrev pub Near : List Edge → ℕ → String → String → Type 0
Near es n a b = (m : ℕ) × Walk es m a b × (m < n)

pub retain-mem :
    {A : Type 0} (keep : A → Bool) (xs : List A) (x : A)
    → Memᴰ x (retain keep xs) ↔ (Memᴰ x xs × (keep x ≡ true))
unfolding retain
retain-mem keep [] x = (λ m. absurd (Memᴰ.not-nil m), λ m. absurd (Memᴰ.not-nil m.0))
retain-mem keep (y ∷ ys) x = elim (Bool-cases (keep y)) [
  | inl t ↦
      rw (t, retain)
        (
          λ m. elim (Memᴰ.cases_cons m) [
            | inl e ↦ (Memᴰ.head e, ap keep e ∙ t)
            | inr u ↦ let (v, k) = (retain-mem keep ys x).0 u in (Memᴰ.tail v, k)
          ],
          λ (m, k). elim (Memᴰ.cases_cons m) [
            | inl e ↦ Memᴰ.head e
            | inr u ↦ Memᴰ.tail ((retain-mem keep ys x).1 (u, k))
          ],
        )
  | inr f ↦
      rw (f, retain)
        (
          λ m. let (v, k) = (retain-mem keep ys x).0 m in (Memᴰ.tail v, k),
          λ (m, k). elim (Memᴰ.cases_cons m) [
            | inl e ↦ let bad : true ≡ false = sym k ∙ (ap keep e ∙ f) in cc
            | inr u ↦ (retain-mem keep ys x).1 (u, k)
          ],
        )
]

module _ (es : List Edge) (start : String) (depth : ℕ) where
  abbrev found : Distance
  found = distances es start depth

  is_kept_iff : (n : Node) → (is_kept found n ≡ true) ↔ Within es depth start (node_id n)
  unfolding is_kept
  is_kept_iff n = (kept (Option-cases (get found (node_id n))), within)
    where
      kept :
          (get found (node_id n) ≡ none) ⊎ ((d : ℕ) × (get found (node_id n) ≡ some d))
          → is_kept found n ≡ true
          → Within es depth start (node_id n)
      kept (inl e) h = let bad : false ≡ true = rw (e, is_kept) at h in cc
      kept (inr (d, e)) h =
          let (w, le) = distances-walked es start depth (node_id n) d e in (d, w, le)

      within : Within es depth start (node_id n) → is_kept found n ≡ true
      within (m, w, le) =
          let (d, e, short) = distances-shortest es start depth (node_id n) m w le in
          rw (e, is_kept) refl

  -- one edge further than a walk of fewer than `depth` edges
  far_end :
      (a b : String)
      → IsLinked es a b
      → (d : ℕ) → get found a ≡ some d
      → d < depth
      → (k : ℕ) × (get found b ≡ some k)
  far_end a b l d e h =
      let (w, le) = distances-walked es start depth a d e in
      let (k, f, short) =
        distances-shortest es start depth b (suc d) (along w l) (omega (arith, h)) in
      (k, f)

  Near-distance :
      (a : String) → Near es depth start a → (d : ℕ) × (get found a ≡ some d) × (d < depth)
  Near-distance a (m, w, h) =
      let (d, e, short) = distances-shortest es start depth a m w (omega (arith, h)) in
      (d, e, omega (arith, h, short))

  walked_by :
      (e : Edge) (a b : ℕ)
      → get found e.from ≡ some a
      → get found e.to ≡ some b
      → (a < depth) ⊎ (b < depth)
      → walked found depth e ≡ true
  unfolding walked
  walked_by e a b f g h = rw (f, g, walked) (ground arith)

  walked_iff :
      (e : Edge)
      → Memᴰ e es
      → (walked found depth e ≡ true) ↔ (Near es depth start e.from ⊎ Near es depth start e.to)
  unfolding walked
  walked_iff e m = (
    by_ends (Option-cases (get found e.from)) (Option-cases (get found e.to)),
    λ h. elim h [
      | inl n ↦
          let (a, f, less) = Near-distance e.from n in
          let (b, g) = far_end e.from e.to (e, m, inl (refl, refl)) a f less in
          walked_by e a b f g (inl less)
      | inr n ↦
          let (b, g, less) = Near-distance e.to n in
          let (a, f) = far_end e.to e.from (e, m, inr (refl, refl)) b g less in
          walked_by e a b f g (inr less)
    ],
  )
    where
      less_end : (a b : ℕ) → ltb (min a b) depth ≡ true → (a < depth) ⊎ (b < depth)
      less_end a b h = ground arith

      by_ends :
          (get found e.from ≡ none) ⊎ ((d : ℕ) × (get found e.from ≡ some d))
          → (get found e.to ≡ none) ⊎ ((d : ℕ) × (get found e.to ≡ some d))
          → walked found depth e ≡ true
          → Near es depth start e.from ⊎ Near es depth start e.to
      by_ends (inl f) t h = let bad : false ≡ true = rw (f, walked) at h in cc
      by_ends (inr (a, f)) (inl g) h = let bad : false ≡ true = rw (f, g, walked) at h in cc
      by_ends (inr (a, f)) (inr (b, g)) h =
          let h' : ltb (min a b) depth ≡ true = rw (f, g, walked) at h in
          elim (less_end a b h') [
            | inl less ↦ inl (a, (distances-walked es start depth e.from a f).0, less)
            | inr less ↦ inr (b, (distances-walked es start depth e.to b g).0, less)
          ]

-- The part of `o` around the actor with the id `start`: the nodes that a walk of at most `depth` edges
-- reaches, following edges in both directions, and the edges with an end that fewer edges reach.
pub record IsNeighbourhood (o : Output) (start : String) (depth : ℕ) (x : Output) : Type 0 where
  pub nodes_within :
      (n : Node)
      → Memᴰ n x.graph.nodes ↔ (Memᴰ n o.graph.nodes × Within o.graph.edges depth start (node_id n))
  pub edges_near :
      (e : Edge)
      → Memᴰ e x.graph.edges ↔ (
          Memᴰ e o.graph.edges
          × (Near o.graph.edges depth start e.from ⊎ Near o.graph.edges depth start e.to))
  pub name_kept : x.name ≡ o.name
  pub report_kept : x.report ≡ o.report

-- Where the query matches one actor, `focus` succeeds and keeps exactly the neighbourhood of that
-- actor: the nodes within `depth` edges of it in either direction, the edges with an end closer than
-- `depth`, and the name and the report. This is for every depth and every graph.
pub focus_keeps :
    (o : Output) (query start : String) (depth : ℕ)
    → matches query (actors o) ≡ start ∷ []
    → (x : Output) × (focus o query depth ≡ inr x) × IsNeighbourhood o start depth x
unfolding focus choose_start focus_from
focus_keeps o query start depth h = (
  focus_from o depth start,
  rw (h, focus, choose_start) refl,
  record {
    nodes_within = λ n.
        let r = retain-mem (is_kept (distances o.graph.edges start depth)) o.graph.nodes n in
        let k = is_kept_iff o.graph.edges start depth n in
        (λ m. ((r.0 m).0, k.0 (r.0 m).1), λ (m, w). r.1 (m, k.1 w));
    edges_near = λ e.
        let r = retain-mem (walked (distances o.graph.edges start depth) depth) o.graph.edges e in
        let k = walked_iff o.graph.edges start depth e in
        (λ m. ((r.0 m).0, (k (r.0 m).0).0 (r.0 m).1), λ (m, w). r.1 (m, (k m).1 w));
    name_kept = refl;
    report_kept = refl;
  },
)
