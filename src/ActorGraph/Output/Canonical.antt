-- ===== src/ActorGraph/Output/Canonical.antt =====
-- What `Output::new` of rsactor-graph/src/model.rs makes of a scan's collections does not depend on
-- the order in which they were found, nor on repeats.
use mathlib.Core.List.{Memᴰ}
use mathlib.Core.List.Memᴰ
use rsactor.Base.{◌≡◌, refl, sym, subst, inl, inr, ◌↔◌, String, List, [], ◌∷◌}
use rsactor.ActorGraph.Model.{Graph, Report}
use rsactor.ActorGraph.Output.{TotalOrder, Orders, Output, schema_version, new}
use rsactor.ActorGraph.Output.Ascending.{
  Below, StrictlyAscending, empty, first, sorted_set, sorted_set-StrictlyAscending, sorted_set-mem,
  mem-sorted_set,
}

module _ {ℓ} {A : Type ℓ} where
  -- the two lists have the same elements
  abbrev pub SameMembers : List A → List A → Type ℓ
  SameMembers xs ys = (x : A) → Memᴰ x xs ↔ Memᴰ x ys

  module _ (o : TotalOrder A) where
    heads_agree :
        {a b : A} {xs ys : List A}
        → Below o a xs
        → Below o b ys
        → SameMembers (a ∷ xs) (b ∷ ys)
        → a ≡ b
    heads_agree {a} {b} w v h = elim (Memᴰ.cases_cons ((h a).0 (Memᴰ.head refl))) [
      | inl e ↦ e
      | inr t ↦ elim (Memᴰ.cases_cons ((h b).1 (Memᴰ.head refl))) [
        | inl e ↦ sym e
        | inr u ↦ o.le-antisymm a b (w b u) (v a t)
      ]
    ]

    tail_of :
        {a : A} {xs ys : List A}
        → ¬ Memᴰ a xs
        → SameMembers (a ∷ xs) (a ∷ ys)
        → (x : A) → Memᴰ x xs
        → Memᴰ x ys
    tail_of {a} {xs} {ys} n h x m = elim (Memᴰ.cases_cons ((h x).0 (Memᴰ.tail m))) [
      | inl e ↦ absurd (n (subst (λ y. Memᴰ y xs) e m))
      | inr t ↦ t
    ]

    StrictlyAscending-ext :
        (xs ys : List A)
        → StrictlyAscending o xs
        → StrictlyAscending o ys
        → SameMembers xs ys
        → xs ≡ ys
    StrictlyAscending-ext [] [] empty empty h = refl
    StrictlyAscending-ext [] (b ∷ ys) s t h = absurd (Memᴰ.not-nil ((h b).1 (Memᴰ.head refl)))
    StrictlyAscending-ext (a ∷ xs) [] s t h = absurd (Memᴰ.not-nil ((h a).0 (Memᴰ.head refl)))
    StrictlyAscending-ext (a ∷ xs) (b ∷ ys) (first w n s) (first v m t) h =
        let e = heads_agree w v h in
        let m' : ¬ Memᴰ a ys = rw e m in
        let h' = subst (λ y. SameMembers (a ∷ xs) (y ∷ ys)) (sym e) h in
        let rest =
          StrictlyAscending-ext xs ys s t
            (λ x. (tail_of n h' x, tail_of m' (λ y. ((h' y).1, (h' y).0)) x)) in
        cc

    -- `ys` lists the elements of `xs`, each once, in ascending order
    abbrev pub ListsOnce : List A → List A → Type ℓ
    ListsOnce xs ys = StrictlyAscending o ys × SameMembers xs ys

    sorted_set-ListsOnce : (xs : List A) → ListsOnce xs (sorted_set o xs)
    sorted_set-ListsOnce xs =
        (sorted_set-StrictlyAscending o xs, λ x. (mem-sorted_set o x xs, sorted_set-mem o x xs))

    ListsOnce-unique : {xs ys zs : List A} → ListsOnce xs ys → ListsOnce xs zs → ys ≡ zs
    ListsOnce-unique {xs} {ys} {zs} p q =
        StrictlyAscending-ext ys zs p.0 q.0
          (λ x. (λ m. (q.1 x).0 ((p.1 x).1 m), λ m. (p.1 x).0 ((q.1 x).1 m)))

-- What a scan's output is to be: the name, the version of the format, and every node, edge and report
-- entry that was found, each once, in ascending order.
pub record Presents (o : Orders) (name : String) (g : Graph) (r : Report) (x : Output)
    : Type 0 where
  pub version : x.schema_version ≡ schema_version
  pub named : x.name ≡ name
  pub nodes : ListsOnce o.nodes g.nodes x.graph.nodes
  pub edges : ListsOnce o.edges g.edges x.graph.edges
  pub entries : ListsOnce o.entries r.entries x.report.entries

-- `Output::new` implements that description, which leaves it no choice: an output presents a scan's
-- findings exactly where it is the one that `new` makes of them. So the output depends neither on the
-- order in which things were found nor on how often. This is for all total orders.
pub new_implements :
    (o : Orders) (name : String) (g : Graph) (r : Report) (x : Output)
    → Presents o name g r x ↔ (x ≡ new o name g r)
unfolding new
new_implements o name g r x = (unique, λ e. subst (Presents o name g r) (sym e) presented)
  where
    presented : Presents o name g r (new o name g r)
    presented = record {
      version = refl;
      named = refl;
      nodes = sorted_set-ListsOnce o.nodes g.nodes;
      edges = sorted_set-ListsOnce o.edges g.edges;
      entries = sorted_set-ListsOnce o.entries r.entries;
    }

    unique : Presents o name g r x → x ≡ new o name g r
    unique p =
        let n = ListsOnce-unique o.nodes p.nodes presented.nodes in
        let e = ListsOnce-unique o.edges p.edges presented.edges in
        let t = ListsOnce-unique o.entries p.entries presented.entries in
        let v = p.version in let m = p.named in cc

-- Two scans that find the same things, in any order and with any repeats, have the same output.
new_canonical :
    (o : Orders) (name : String) (g h : Graph) (r q : Report)
    → SameMembers g.nodes h.nodes
    → SameMembers g.edges h.edges
    → SameMembers r.entries q.entries
    → new o name g r ≡ new o name h q
new_canonical o name g h r q n e t =
    let p = (new_implements o name g r (new o name g r)).1 refl in
    (new_implements o name h q (new o name g r)).0 (record {
      version = p.version;
      named = p.named;
      nodes = moved n p.nodes;
      edges = moved e p.edges;
      entries = moved t p.entries;
    })
  where
    moved :
        {A : Type 0} {o : TotalOrder A} {xs ys zs : List A}
        → SameMembers xs ys
        → ListsOnce o xs zs
        → ListsOnce o ys zs
    moved s p = (p.0, λ x. (λ m. (p.1 x).0 ((s x).1 m), λ m. (s x).0 ((p.1 x).1 m)))
