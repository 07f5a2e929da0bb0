-- ===== src/ActorGraph/Crates/Tree/Steps.antt =====
-- Each step of the load of rsactor-graph/src/crate_tree.rs keeps the tree of its modules.
use mathlib.Core.Option.{some-injective, none-ne-some}
use rsactor.Base.{
  ℕ, zero, suc, ◌<◌, ◌≡◌, refl, sym, ap, subst, ◌∙◌, ◌⊎◌, inl, inr, String, Option, some, List, [],
  ◌∷◌, ◌++◌, length, get_elem?, arith, Bool-cases, get_elem?-append, get_elem?-last, get_elem?-snoc,
}
use text.Mathlib.Text.{◌==◌}
use text.Mathlib.TextEquality.{eq_iff}
use rsactor.ActorGraph.Syntax.{Item}
use rsactor.ActorGraph.Crates.{Module}
use rsactor.ActorGraph.Crates.Load.{Loading, push_module, insert_child, set_items}
use rsactor.ActorGraph.Resolve.{value_of}
use rsactor.ActorGraph.Crates.Tree.{StandsAt, LinkedAt, IsLinked, IsGrown, update-IsGrown}

get_elem?-below :
    {A : Type 0} (xs : List A) (m : ℕ) (x : A) → get_elem? xs m ≡ some x → m < length xs
get_elem?-below [] m x e = absurd (none-ne-some x e)
get_elem?-below (y ∷ xs) zero x e = omega arith
get_elem?-below (y ∷ xs) (suc m) x e = omega (arith, get_elem?-below xs m x e)

-- a number that is taken comes before the next one
pub StandsAt-below :
    (ms : List Module) (m : ℕ) (parent : Option ℕ) (path : List String)
    → StandsAt ms m parent path
    → m < length ms
StandsAt-below ms m parent path (md, e, q, r) = get_elem?-below ms m md e

module _ (parent : Option ℕ) (path : List String) (file : String) (st : Loading) where
  pub push_module-StandsAt :
      StandsAt (push_module parent path file st).modules (length st.modules) parent path
  unfolding push_module
  push_module-StandsAt = (_, get_elem?-last st.modules _ (length st.modules) refl, refl, refl)

  pub push_module-IsGrown :
      ((p : ℕ) → parent ≡ some p → p < length st.modules)
      → IsGrown st.modules (push_module parent path file st).modules
  unfolding push_module value_of
  push_module-IsGrown before = record { stays = stays; links = links }
    where
      new : Module
      new = record { path = path; file = file; parent = parent; children = []; items = [] }

      stays :
          (m : ℕ) (md : Module)
          → get_elem? st.modules m ≡ some md
          → StandsAt (st.modules ++ new ∷ []) m md.parent md.path
      stays m md e = (md, get_elem?-append st.modules (new ∷ []) m md e, refl, refl)

      links : IsLinked st.modules → IsLinked (st.modules ++ new ∷ [])
      links l m md e = elim (get_elem?-snoc st.modules new md m e) [
        | inl f ↦ (
          (l m md f).0,
          λ name k g.
              let (x, h, p, q) = (l m md f).1 name k g in
              (x, get_elem?-append st.modules (new ∷ []) k x h, p, q),
        )
        | inr (z, f) ↦ subst (LinkedAt (st.modules ++ new ∷ []) m) f (
          (λ p g. let h : p < length st.modules = before p g in omega arith),
          λ name k g. absurd (none-ne-some k g),
        )
      ]

pub set_items-IsGrown :
    (id : ℕ) (kept : List Item) (st : Loading) → IsGrown st.modules (set_items id kept st).modules
unfolding set_items
set_items-IsGrown id kept st =
    update-IsGrown id _ st.modules (λ md. refl) (λ md. refl) (λ md e name k f. inl f)

pub insert_child-IsGrown :
    (id : ℕ) (name : String) (child : ℕ) (path : List String) (parent : Option ℕ) (st : Loading)
    → StandsAt st.modules id parent path
    → StandsAt st.modules child (some id) (path ++ name ∷ [])
    → IsGrown st.modules (insert_child id name child st).modules
unfolding insert_child value_of
insert_child-IsGrown id name child path parent st (x, e, p, q) c =
    update-IsGrown id _ st.modules (λ md. refl) (λ md. refl) by_name
  where
    by_name :
        (md : Module)
        → get_elem? st.modules id ≡ some md
        → (key : String) (k : ℕ) → value_of key ((name, child) ∷ md.children) ≡ some k
        → (value_of key md.children ≡ some k)
          ⊎ StandsAt st.modules k (some id) (md.path ++ key ∷ [])
    by_name md f key k g = elim (Bool-cases (name == key)) [
      | inr n ↦ inl (rw (n, value_of) at g)
      | inl y ↦
          let h : some child ≡ some k = rw (y, value_of) at g in
          let z : md ≡ x = some-injective _ _ (sym f ∙ e) in
          let w : path ++ name ∷ [] ≡ md.path ++ key ∷ [] =
            ap (λ t. t ++ name ∷ []) (sym q ∙ ap (λ t. t.path) (sym z))
            ∙ ap (λ t. md.path ++ t ∷ []) ((eq_iff name key).0 y) in
          inr (
            subst (λ j. StandsAt st.modules j (some id) (md.path ++ key ∷ []))
              (some-injective _ _ h) (subst (StandsAt st.modules child (some id)) w c))
    ]
