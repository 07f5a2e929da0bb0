-- ===== src/ActorGraph/Render/Dot/Arrows.antt =====
-- The arrows that rsactor-graph/src/render.rs collects edges in.
use mathlib.Core.List.{Memᴰ}
use mathlib.Core.List.Memᴰ
use rsactor.Base.{◌≡◌, sym, ap, subst, ◌∙◌, inl, inr, true, List, [], ◌∷◌, Bool-cases}
use rsactor.ActorGraph.Model.{Edge}
use rsactor.ActorGraph.Output.{TotalOrder, same}
use rsactor.ActorGraph.Output.Ascending.{
  same-≡, same_refl, sorted_set, sorted_set-mem, mem-sorted_set,
}
use rsactor.ActorGraph.Render.Groups.{keys, values, grouped, Remap}
use rsactor.ActorGraph.Render.Dot.{ArrowKey, arrow_key, keyed}

module _ {K V : Type 0} (o : TotalOrder K) where
  keys-mem : (k : K) (v : V) (xs : List (K × V)) → Memᴰ (k, v) xs → Memᴰ k (keys o xs)
  unfolding keys
  keys-mem k v [] m = absurd (Memᴰ.not-nil m)
  keys-mem k v (x ∷ xs) m = elim (Memᴰ.cases_cons m) [
    | inl e ↦ Memᴰ.head (ap (λ y. y.0) e)
    | inr t ↦ Memᴰ.tail (keys-mem k v xs t)
  ]

  pub mem-values : (k : K) (v : V) (xs : List (K × V)) → Memᴰ (k, v) xs → Memᴰ v (values o k xs)
  unfolding values
  mem-values k v [] m = absurd (Memᴰ.not-nil m)
  mem-values k v ((l, w) ∷ xs) m = elim (Memᴰ.cases_cons m) [
    | inl e ↦
        let y : same o l k ≡ true =
          subst (λ x. same o x k ≡ true) (ap (λ z. z.0) e) (same_refl o k) in
        rw (y, values) (Memᴰ.head (ap (λ z. z.1) e))
    | inr t ↦ elim (Bool-cases (same o l k)) [
      | inl y ↦ rw (y, values) (Memᴰ.tail (mem-values k v xs t))
      | inr n ↦ rw (n, values) (mem-values k v xs t)
    ]
  ]

  pub values-mem : (k : K) (v : V) (xs : List (K × V)) → Memᴰ v (values o k xs) → Memᴰ (k, v) xs
  unfolding values
  values-mem k v [] m = absurd (Memᴰ.not-nil m)
  values-mem k v ((l, w) ∷ xs) m = elim (Bool-cases (same o l k)) [
    | inl y ↦
        let m' : Memᴰ v (w ∷ values o k xs) = rw (y, values) at m in
        elim (Memᴰ.cases_cons m') [
          | inl e ↦ let f = same-≡ o l k y in Memᴰ.head cc
          | inr t ↦ Memᴰ.tail (values-mem k v xs t)
        ]
    | inr n ↦
        let m' : Memᴰ v (values o k xs) = rw (n, values) at m in Memᴰ.tail (values-mem k v xs m')
  ]

  pub grouped-mem :
      (k : K) (v : V) (xs : List (K × V)) → Memᴰ (k, v) xs → Memᴰ (k, values o k xs) (grouped o xs)
  unfolding grouped
  grouped-mem k v xs m =
      Memᴰ.map (λ l. (l, values o l xs)) (mem-sorted_set o k (keys o xs) (keys-mem k v xs m))

module _ {K V : Type 0} (o : TotalOrder K) where
  pub mem-keys : (k : K) (xs : List (K × V)) → Memᴰ k (keys o xs) → (v : V) × Memᴰ (k, v) xs
  unfolding keys
  mem-keys k [] m = absurd (Memᴰ.not-nil m)
  mem-keys k ((l, w) ∷ xs) m = elim (Memᴰ.cases_cons m) [
    | inl e ↦ (w, Memᴰ.head (ap (λ x. (x, w)) e))
    | inr t ↦ let (v, u) = mem-keys k xs t in (v, Memᴰ.tail u)
  ]

  pub grouped-keys :
      (k : K) (vs : List V) (xs : List (K × V)) → Memᴰ (k, vs) (grouped o xs) → Memᴰ k (keys o xs)
  unfolding grouped
  grouped-keys k vs xs m =
      let (l, t, e) = Memᴰ.of_map (λ l. (l, values o l xs)) (sorted_set o (keys o xs)) m in
      subst (λ x. Memᴰ x (keys o xs)) (ap (λ x. x.0) e) (sorted_set-mem o l (keys o xs) t)

pub keyed-mem :
    (remap : Remap) (e : Edge) (es : List Edge)
    → Memᴰ e es
    → Memᴰ (arrow_key remap e, e) (keyed remap es)
unfolding keyed
keyed-mem remap e [] m = absurd (Memᴰ.not-nil m)
keyed-mem remap e (x ∷ es) m = elim (Memᴰ.cases_cons m) [
  | inl same ↦ Memᴰ.head (ap (λ y. (arrow_key remap y, y)) same)
  | inr t ↦ Memᴰ.tail (keyed-mem remap e es t)
]

pub mem-keyed :
    (remap : Remap) (k : ArrowKey) (e : Edge) (es : List Edge)
    → Memᴰ (k, e) (keyed remap es)
    → Memᴰ e es × (arrow_key remap e ≡ k)
unfolding keyed
mem-keyed remap k e [] m = absurd (Memᴰ.not-nil m)
mem-keyed remap k e (x ∷ es) m = elim (Memᴰ.cases_cons m) [
  | inl same ↦
      let f : e ≡ x = ap (λ y. y.1) same in
      (Memᴰ.head f, ap (arrow_key remap) f ∙ sym (ap (λ y. y.0) same))
  | inr t ↦ let (u, g) = mem-keyed remap k e es t in (Memᴰ.tail u, g)
]
