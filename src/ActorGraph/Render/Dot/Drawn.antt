-- ===== src/ActorGraph/Render/Dot/Drawn.antt =====
-- Which edges the DOT output of rsactor-graph/src/render.rs draws.
use mathlib.Core.List.{Memᴰ}
use text.Mathlib.Text.{◌==◌}
use text.Mathlib.TextEquality.{eq_iff}
use rsactor.Base.{
  ◌≡◌, ◌≢◌, refl, sym, ap, subst, ◌∙◌, ◌⊎◌, inl, inr, ◌↔◌, String, Bool, true, false, not, ◌&&◌,
  List, [], ◌∷◌, Bool-cases,
}
use rsactor.ActorGraph.Model.{EdgeKind, holds, spawn, tell, ask, Edge}
use rsactor.ActorGraph.Focus.Kept.{retain-mem}
use rsactor.ActorGraph.Render.Labels.{ArrowClass, is_holds, arrow_class}
use rsactor.ActorGraph.Render.Groups.{
  HoldsMode, all_holds, uncovered, no_holds, values, Remap, id_of,
}
use rsactor.ActorGraph.Render.Dot.{
  ArrowKey, arrow_order, arrow_key, keyed, arrows, is_covered, is_skipped, drawn_arrows,
}
use rsactor.ActorGraph.Render.Dot.Arrows.{
  mem-values, values-mem, mem-keys, grouped-mem, grouped-keys, keyed-mem, mem-keyed,
}

is_holds-holds : (k : EdgeKind) → is_holds (arrow_class k) ≡ true → k ≡ holds
unfolding is_holds arrow_class
is_holds-holds holds h = refl
is_holds-holds spawn h = cc
is_holds-holds tell h = cc
is_holds-holds ask h = cc

holds-is_holds : (k : EdgeKind) → is_holds (arrow_class k) ≡ false → k ≢ holds
unfolding is_holds arrow_class
holds-is_holds holds h e = cc
holds-is_holds spawn h e = cc
holds-is_holds tell h e = cc
holds-is_holds ask h e = cc

module _ (remap : Remap) (edges : List Edge) where
  -- Some other edge than a holds edge goes between the same drawn nodes.
  abbrev pub IsRepeated : Edge → Type 0
  IsRepeated e =
      (f : Edge) × Memᴰ f edges
      × (f.kind ≢ holds)
      × (id_of remap f.from ≡ id_of remap e.from)
      × (id_of remap f.to ≡ id_of remap e.to)

  -- An arrow shows just the edges that are drawn between the same nodes in the same class, `e` among
  -- them.
  abbrev pub IsDrawn : HoldsMode → Edge → Type 0
  IsDrawn mode e =
      (es : List Edge) × Memᴰ (arrow_key remap e, es) (drawn_arrows mode (arrows remap edges))
      × Memᴰ e es
      × ((f : Edge) → Memᴰ f es ↔ (Memᴰ f edges × (arrow_key remap f ≡ arrow_key remap e)))

  of_arrow :
      (k : ArrowKey) (es : List Edge)
      → Memᴰ (k, es) (arrows remap edges)
      → (f : Edge) × Memᴰ f edges × (arrow_key remap f ≡ k)
  unfolding arrows
  of_arrow k es m =
      let (f, t) =
        mem-keys arrow_order k (keyed remap edges)
          (grouped-keys arrow_order k es (keyed remap edges) m) in
      let (u, e) = mem-keyed remap k f edges t in (f, u, e)

  &&_both : (a b : Bool) → (a && b) ≡ true → (a ≡ true) × (b ≡ true)
  &&_both true b h = (refl, h)
  &&_both false b h = cc

  not-true : (b : Bool) → not b ≡ true → b ≡ false
  not-true true h = sym h
  not-true false h = refl

  covered-mem :
      (from to : String) (drawn : List (ArrowKey × List Edge))
      → is_covered from to drawn ≡ true
      → (class : ArrowClass) × (es : List Edge) × Memᴰ ((from, (to, class)), es) drawn
        × (is_holds class ≡ false)
  unfolding is_covered
  covered-mem from to [] h = cc
  covered-mem from to (((a, (b, class)), es) ∷ rest) h =
      elim (Bool-cases (not (is_holds class) && (a == from) && (b == to))) [
        | inl y ↦
            let (left, right) = &&_both (not (is_holds class) && (a == from)) (b == to) y in
            let (apart, same) = &&_both (not (is_holds class)) (a == from) left in
            let e = (eq_iff a from).0 same in
            let f = (eq_iff b to).0 right in
            (class, es, Memᴰ.head cc, not-true (is_holds class) apart)
        | inr n ↦
            let h' : is_covered from to rest ≡ true = rw (n, is_covered) at h in
            let (c, fs, m, x) = covered-mem from to rest h' in (c, fs, Memᴰ.tail m, x)
      ]

  covered-IsRepeated :
      (e : Edge)
      → is_covered (id_of remap e.from) (id_of remap e.to) (arrows remap edges) ≡ true
      → IsRepeated e
  unfolding arrow_key
  covered-IsRepeated e h =
      let (class, es, m, apart) =
        covered-mem (id_of remap e.from) (id_of remap e.to) (arrows remap edges) h in
      let (f, t, k) = of_arrow (id_of remap e.from, (id_of remap e.to, class)) es m in
      (
        f,
        t,
        holds-is_holds f.kind (ap (λ x. is_holds x.1.1) k ∙ apart),
        ap (λ x. x.0) k,
        ap (λ x. x.1.0) k,
      )

  -- why a holds edge is left out
  abbrev pub IsLeftOut : HoldsMode → Edge → Type 0
  IsLeftOut mode e = (e.kind ≡ holds) × ((mode ≡ no_holds) ⊎ ((mode ≡ uncovered) × IsRepeated e))

  skipped-IsLeftOut :
      (mode : HoldsMode) (e : Edge)
      → is_skipped mode (arrows remap edges) (arrow_key remap e) ≡ true
      → IsLeftOut mode e
  unfolding is_skipped arrow_key
  skipped-IsLeftOut mode e h = elim (Bool-cases (is_holds (arrow_class e.kind))) [
    | inl y ↦ (is_holds-holds e.kind y, by_mode mode (rw (y, is_skipped, arrow_key) at h))
    | inr n ↦ let bad : false ≡ true = rw (n, is_skipped, arrow_key) at h in cc
  ]
    where
      by_mode :
          (m : HoldsMode)
          → elim m as (λ _. Bool) [
            | all_holds ↦ false
            | uncovered ↦ is_covered (id_of remap e.from) (id_of remap e.to) (arrows remap edges)
            | no_holds ↦ true
          ]
            ≡ true
          → (m ≡ no_holds) ⊎ ((m ≡ uncovered) × IsRepeated e)
      by_mode all_holds h = cc
      by_mode no_holds h = inl refl
      by_mode uncovered h = inr (refl, covered-IsRepeated e h)

-- The DOT output hides no send and no spawn: each edge of the graph is shown by an arrow between the
-- nodes that its ends are drawn as, which shows just the edges of that class between the two. A
-- holds edge alone may be left out, where the options ask for none, or for those alone that no
-- other arrow repeats and another edge goes between the same drawn nodes. This is for every way of
-- drawing functions as groups.
pub edges-IsDrawn :
    (remap : Remap) (edges : List Edge) (mode : HoldsMode) (e : Edge)
    → Memᴰ e edges
    → IsDrawn remap edges mode e ⊎ IsLeftOut remap edges mode e
unfolding drawn_arrows arrows
edges-IsDrawn remap edges mode e m =
    elim (Bool-cases (is_skipped mode (arrows remap edges) (arrow_key remap e))) [
      | inl y ↦ inr (skipped-IsLeftOut remap edges mode e y)
      | inr n ↦ inl (shown n)
    ]
  where
    k : ArrowKey
    k = arrow_key remap e

    es : List Edge
    es = values arrow_order k (keyed remap edges)

    arrow : Memᴰ (k, es) (arrows remap edges)
    arrow = grouped-mem arrow_order k e (keyed remap edges) (keyed-mem remap e edges m)

    shown : is_skipped mode (arrows remap edges) k ≡ false → IsDrawn remap edges mode e
    shown n = (
      es,
      (retain-mem (λ a. not (is_skipped mode (arrows remap edges) a.0)) (arrows remap edges)
            (k, es)).1
          (arrow, rw n refl),
      mem-values arrow_order k e (keyed remap edges) (keyed-mem remap e edges m),
      λ f. (
        λ t. mem-keyed remap k f edges (values-mem arrow_order k f (keyed remap edges) t),
        λ (t, h).
            mem-values arrow_order k f (keyed remap edges)
              (subst (λ x. Memᴰ (x, f) (keyed remap edges)) h (keyed-mem remap f edges t)),
      ),
    )
