-- ===== src/ActorGraph/Resolve/Build/WellFormed.antt =====
-- The index that `Index::build` of rsactor-graph/src/resolve.rs makes from module trees.
use mathlib.Core.Option.{some-injective, none-ne-some}
use text.Mathlib.Text.{◌==◌}
use rsactor.Base.{
  get_elem?-snoc, ℕ, suc, ◌≡◌, refl, sym, subst, ◌∙◌, inl, inr, String, Bool, true, false, Option,
  none, some, List, [], ◌∷◌, get_elem?, if◌then◌else◌, Bool-cases, arith, ◌>>=◌,
}
use rsactor.ActorGraph.Crates.{Module, Crate}
use rsactor.ActorGraph.Syntax.{Item}
use rsactor.ActorGraph.Resolve.{DeclKind, Decl, Scope, value_of, module_of, scope_of}
use rsactor.ActorGraph.Resolve.Build.{
  Built, declared_type, declare_as, declare_type, add_items, add_modules, add_crates, takes_name,
  name_crates, build, empty_scope,
}
use rsactor.ActorGraph.Resolve.Build.Named.{
  ids_of, ids_named, IsListed, declare_as-IsListed, ids_of-some, ids_of-IsDeclared, nil-IsListed,
}
use rsactor.ActorGraph.Resolve.Build.Scopes.{
  IsRest, IsRest-tail, IsRest-head, IsScoped, add_crates-IsScoped,
}
use rsactor.ActorGraph.Resolve.Settled.{IsModule, IsWellFormed}

-- A module tree: a root, and modules above and below that exist.
pub record IsTree (krate : Crate) : Type 0 where
  pub root : (md : Module) × (get_elem? krate.modules 0 ≡ some md)
  pub below :
      (m : ℕ) (md : Module) (name : String) (k : ℕ)
      → get_elem? krate.modules m ≡ some md
      → value_of name md.children ≡ some k
      → (x : Module) × (get_elem? krate.modules k ≡ some x)
  pub above :
      (m : ℕ) (md : Module) (p : ℕ)
      → get_elem? krate.modules m ≡ some md
      → md.parent ≡ some p
      → (x : Module) × (get_elem? krate.modules p ≡ some x)

-- The item stands there in the crates.
abbrev pub IsAt : List Crate → ℕ → ℕ → ℕ → Item → Type 0
IsAt crates c m i item =
    (krate : Crate) × (md : Module) × (get_elem? crates c ≡ some krate)
    × (get_elem? krate.modules m ≡ some md)
    × (get_elem? md.items i ≡ some item)

-- What each declaration keeps through the pass.
module _ (all : List Crate) (I : Built → Type 0)
    (keeps : (c m i : ℕ) (item : Item) (b : Built) (s : Scope)
      → IsAt all c m i item
      → I b
      → I (declare_as c m i (declared_type item) (b, s)).0) where
  add_items-keeps :
      (c m i : ℕ) (krate : Crate) (md : Module) (items : List Item) (b : Built) (s : Scope)
      → get_elem? all c ≡ some krate
      → get_elem? krate.modules m ≡ some md
      → IsRest i items md.items
      → I b
      → I (add_items c m i items (b, s)).0
  unfolding add_items declare_type
  add_items-keeps c m i krate md [] b s e f r h = h
  add_items-keeps c m i krate md (item ∷ items) b s e f r h =
      add_items-keeps c m (suc i) krate md items _ _ e f (IsRest-tail i item items md.items r)
        (keeps c m i item b s (krate, md, e, f, IsRest-head i item items md.items r) h)

  add_modules-keeps :
      (c m : ℕ) (krate : Crate) (modules : List Module) (b : Built)
      → get_elem? all c ≡ some krate
      → IsRest m modules krate.modules
      → I b
      → I (add_modules c m modules b).0
  unfolding add_modules
  add_modules-keeps c m krate [] b e r h = h
  add_modules-keeps c m krate (md ∷ modules) b e r h =
      add_modules-keeps c (suc m) krate modules _ e (IsRest-tail m md modules krate.modules r) (
        add_items-keeps c m 0 krate md md.items b empty_scope e
          (IsRest-head m md modules krate.modules r) (whole md.items) h)
    where
      whole : (items : List Item) → IsRest 0 items items
      whole items i n x q f = let z : n ≡ i = omega arith in rw z f

  add_crates-keeps :
      (c : ℕ) (crates : List Crate) (b : Built)
      → IsRest c crates all
      → I b
      → I (add_crates c crates b).0
  unfolding add_crates
  add_crates-keeps c [] b r h = h
  add_crates-keeps c (krate ∷ crates) b r h =
      add_crates-keeps (suc c) crates _ (IsRest-tail c krate crates all r) (
        add_modules-keeps c 0 krate krate.modules b (IsRest-head c krate crates all r)
          (λ i n x q f. let z : n ≡ i = omega arith in rw z f) h)

-- Each declaration is what the item that it points to declares.
abbrev pub IsPlaced : List Crate → Built → Type 0
IsPlaced all b =
    (id : ℕ) (d : Decl)
    → get_elem? b.decls id ≡ some d
    → (item : Item) × IsAt all d.krate d.module_id d.item item
      × (declared_type item ≡ some (d.name, d.kind, d.generics))

declare_as-IsPlaced :
    (all : List Crate) (c m i : ℕ) (item : Item) (b : Built) (s : Scope)
    (o : Option (String × DeclKind × List String))
    → declared_type item ≡ o
    → IsAt all c m i item
    → IsPlaced all b
    → IsPlaced all (declare_as c m i o (b, s)).0
unfolding declare_as
declare_as-IsPlaced all c m i item b s none q a h id d e = h id d e
declare_as-IsPlaced all c m i item b s (some (name, kind, generics)) q a h id d e =
    elim (get_elem?-snoc b.decls _ d id e) [
      | inl f ↦ h id d f
      | inr (z, f) ↦
          subst
            (λ x.
              (y : Item) × IsAt all x.krate x.module_id x.item y
              × (declared_type y ≡ some (x.name, x.kind, x.generics)))
            f (item, a, q)
    ]

-- what the names of the crates stand for is there
IsNamed : List Crate → List (String × ℕ) → Type 0
IsNamed all names =
    (name : String) (c : ℕ)
    → value_of name names ≡ some c
    → (krate : Crate) × (get_elem? all c ≡ some krate)

name_crates-IsNamed :
    (all : List Crate) (c : ℕ) (rest : List Crate) (names : List (String × ℕ))
    → IsRest c rest all
    → IsNamed all names
    → IsNamed all (name_crates all c rest names)
unfolding name_crates IsNamed
name_crates-IsNamed all c [] names r h = h
name_crates-IsNamed all c (krate ∷ rest) names r h =
    name_crates-IsNamed all (suc c) rest _ (IsRest-tail c krate rest all r)
      (taken (takes_name all krate (value_of krate.spec.name names)))
  where
    added : IsNamed all ((krate.spec.name, c) ∷ names)
    added name k e = elim (Bool-cases (krate.spec.name == name)) [
      | inl y ↦
          let f : some c ≡ some k = rw (y, value_of) at e in
          (
            krate,
            subst (λ j. get_elem? all j ≡ some krate) (some-injective _ _ f)
                (IsRest-head c krate rest all r),
          )
      | inr n ↦ let f : value_of name names ≡ some k = rw (n, value_of) at e in h name k f
    ]

    taken : (b : Bool) → IsNamed all (if b then (krate.spec.name, c) ∷ names else names)
    taken true = added
    taken false = h

module _ (crates : List Crate) where
  whole : IsRest 0 crates crates
  whole i n x q e = let z : n ≡ i = omega arith in rw z e

  abbrev nothing : Built
  nothing = record { decls = []; by_last_segment = [] }

  build-IsPlaced : IsPlaced crates (add_crates 0 crates nothing).0
  build-IsPlaced =
      add_crates-keeps crates (IsPlaced crates)
        (λ c m i item b s a h.
          declare_as-IsPlaced crates c m i item b s (declared_type item) refl a h)
        0 crates nothing whole (λ id d e. absurd (none-ne-some d e))

  build-IsListed : IsListed (add_crates 0 crates nothing).0
  build-IsListed =
      add_crates-keeps crates IsListed
        (λ c m i item b s a h. declare_as-IsListed c m i (declared_type item) b s h) 0 crates
        nothing whole nil-IsListed

  -- two lookups, one after the other
  split_module :
      (c m : ℕ) (md : Module)
      → module_of (build crates) c m ≡ some md
      → (krate : Crate) × (get_elem? crates c ≡ some krate) × (get_elem? krate.modules m ≡ some md)
  unfolding module_of build
  split_module c m md e = by_crate (get_elem? crates c) refl e
    where
      by_crate :
          (o : Option Crate)
          → get_elem? crates c ≡ o
          → (o >>= λ krate. get_elem? krate.modules m) ≡ some md
          → (krate : Crate) × (get_elem? crates c ≡ some krate)
            × (get_elem? krate.modules m ≡ some md)
      by_crate none q f = absurd (none-ne-some md f)
      by_crate (some krate) q f = (krate, q, f)

  join_module :
      (c m : ℕ) (krate : Crate) (md : Module)
      → get_elem? crates c ≡ some krate
      → get_elem? krate.modules m ≡ some md
      → module_of (build crates) c m ≡ some md
  unfolding module_of build
  join_module c m krate md e f = rw e f

  crate_names : IsNamed crates (name_crates crates 0 crates [])
  unfolding IsNamed value_of
  crate_names = name_crates-IsNamed crates 0 crates [] whole (λ name c e. absurd (none-ne-some c e))

  -- the scope of a module, and what its names stand for
  scope_at :
      (c m : ℕ)
      → IsModule (build crates) c m
      → (s : Scope) × (scope_of (build crates) c m ≡ some s)
        × IsScoped c m (add_crates 0 crates nothing).0 s.types
  unfolding scope_of build
  scope_at c m (md, e) =
      let (krate, p, q) = split_module c m md e in
      let (scopes, s, f, g, h) =
        add_crates-IsScoped 0 c c m crates krate md nothing (omega arith) p q in
      (s, rw f g, h)

  -- The index of module trees is well-formed: every module has a scope, and what its maps name is
  -- there.
  pub build-IsWellFormed :
      ((c : ℕ) (krate : Crate) → get_elem? crates c ≡ some krate → IsTree krate)
      → IsWellFormed (build crates)
  unfolding build IsNamed
  build-IsWellFormed trees = record {
    scoped = λ c m v. let (s, e, h) = scope_at c m v in (s, e);
    below = λ c m md name k e f.
        let (krate, p, q) = split_module c m md e in
        let (x, r) = (trees c krate p).below m md name k q f in (x, join_module c k krate x p r);
    above = λ c m md k e f.
        let (krate, p, q) = split_module c m md e in
        let (x, r) = (trees c krate p).above m md k q f in (x, join_module c k krate x p r);
    typed = λ c m s name id v e f.
        let (t, g, h) = scope_at c m v in
        let z : t ≡ s = some-injective _ _ (sym g ∙ e) in
        let (d, p, q, i, j) = h name id (rw z f) in (d, p);
    rooted = λ name c e.
        let (krate, p) = crate_names name c e in
        let (md, q) = (trees c krate p).root in (md, join_module c 0 krate md p q);
    listed = λ name ids id e m.
        ids_of-IsDeclared name (add_crates 0 crates nothing).0 id build-IsListed
          (rw (ids_of-some name _ ids e) m);
  }

  -- The index lists, under each name, the numbers of exactly the declarations of this name, in their
  -- order.
  pub build_lists :
      (name : String)
      → ids_of name (build crates).by_last_segment ≡ ids_named name 0 (build crates).decls
  unfolding build IsListed
  build_lists name = build-IsListed name

  -- Each declaration of the index points to the item that it comes from, which declares a type of its
  -- name, kind and type parameters.
  pub build_places :
      (id : ℕ) (d : Decl)
      → get_elem? (build crates).decls id ≡ some d
      → (item : Item) × IsAt crates d.krate d.module_id d.item item
        × (declared_type item ≡ some (d.name, d.kind, d.generics))
  unfolding build
  build_places id d e = build-IsPlaced id d e
