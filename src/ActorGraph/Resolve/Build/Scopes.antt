-- ===== src/ActorGraph/Resolve/Build/Scopes.antt =====
-- The pass of `Index::build` of rsactor-graph/src/resolve.rs over the items: what it has declared
-- stays, each declaration remembers its item, and each scope names declarations of its module.
use mathlib.Core.Option.{some-injective, none-ne-some}
use text.Mathlib.Text.{◌==◌}
use text.Mathlib.TextEquality.{eq_iff}
use rsactor.Base.{
  get_elem?-append, get_elem?-last, ℕ, zero, suc, ◌+◌, ◌≡◌, refl, sym, subst, inl, inr, String,
  Option, none, some, List, [], ◌∷◌, length, get_elem?, Bool-cases, arith,
}
use rsactor.ActorGraph.Crates.{Module, Crate}
use rsactor.ActorGraph.Syntax.{
  Item, struct_item, enum_item, union_item, trait_item, type_item, fn_item, const_item, static_item,
  use_item, mod_item, mod_file_item, other_item,
}
use rsactor.ActorGraph.Resolve.{DeclKind, Decl, Scope, value_of}
use rsactor.ActorGraph.Resolve.Build.{
  Built, declared_type, declare_as, declare_type, add_item, add_items, empty_scope, add_modules,
  add_crates,
}

-- The declarations stay, with their numbers.
abbrev pub Extends : Built → Built → Type 0
Extends b b' = (id : ℕ) (d : Decl) → get_elem? b.decls id ≡ some d → get_elem? b'.decls id ≡ some d

-- `xs` is the rest of `all` from the position `k` on.
abbrev pub IsRest : {A : Type 0} → ℕ → List A → List A → Type 0
IsRest k xs all = (i n : ℕ) (x : _) → k + i ≡ n → get_elem? xs i ≡ some x → get_elem? all n ≡ some x

module _ {A : Type 0} where
  pub IsRest-tail :
      (k : ℕ) (x : A) (xs all : List A) → IsRest k (x ∷ xs) all → IsRest (suc k) xs all
  IsRest-tail k x xs all h i n y q e = h (suc i) n y (omega arith) e

  pub IsRest-head :
      (k : ℕ) (x : A) (xs all : List A) → IsRest k (x ∷ xs) all → get_elem? all k ≡ some x
  IsRest-head k x xs all h = h 0 k x (omega arith) refl

-- The scope of a module names declarations of this module, by their names.
abbrev pub IsScoped : ℕ → ℕ → Built → List (String × ℕ) → Type 0
IsScoped c m b types =
    (name : String) (id : ℕ)
    → value_of name types ≡ some id
    → (d : Decl) × (get_elem? b.decls id ≡ some d)
      × (d.name ≡ name)
      × (d.krate ≡ c)
      × (d.module_id ≡ m)

pub IsScoped-Extends :
    (c m : ℕ) (b b' : Built) (types : List (String × ℕ))
    → IsScoped c m b types
    → Extends b b'
    → IsScoped c m b' types
IsScoped-Extends c m b b' types h x name id e =
    let (d, p, q, f, g) = h name id e in (d, x id d p, q, f, g)

declare_as-Extends :
    (c m i : ℕ) (o : Option (String × DeclKind × List String)) (b : Built) (s : Scope)
    → Extends b (declare_as c m i o (b, s)).0
unfolding declare_as
declare_as-Extends c m i none b s id d e = e
declare_as-Extends c m i (some (name, kind, generics)) b s id d e =
    get_elem?-append b.decls _ id d e

declare_as-IsScoped :
    (c m i : ℕ) (o : Option (String × DeclKind × List String)) (b : Built) (s : Scope)
    → IsScoped c m b s.types
    → IsScoped c m (declare_as c m i o (b, s)).0 (declare_as c m i o (b, s)).1.types
unfolding declare_as value_of
declare_as-IsScoped c m i none b s h name id e = h name id e
declare_as-IsScoped c m i (some (key, kind, generics)) b s h name id e =
    elim (Bool-cases (key == name)) [
      | inl y ↦
          let f : some (length b.decls) ≡ some id = rw (y, value_of) at e in
          (
            record {
              krate = c;
              module_id = m;
              item = i;
              name = key;
              kind = kind;
              generics = generics;
            },
            get_elem?-last b.decls _ id (some-injective _ _ f),
            (eq_iff key name).0 y,
            refl,
            refl,
          )
      | inr n ↦
          let f : value_of name s.types ≡ some id = rw (n, value_of) at e in
          let (d, p, q, r, t) = h name id f in (d, get_elem?-append b.decls _ id d p, q, r, t)
    ]

-- an item adds no types to its scope by itself
add_item-types : (item : Item) (s : Scope) → (add_item item s).types ≡ s.types
unfolding add_item
add_item-types (struct_item n ps attrs) s = refl
add_item-types (enum_item n ps attrs) s = refl
add_item-types (union_item n ps attrs) s = refl
add_item-types (trait_item n ps attrs) s = refl
add_item-types (type_item n ps attrs) s = refl
add_item-types (fn_item n attrs) s = refl
add_item-types (const_item n attrs) s = refl
add_item-types (static_item n attrs) s = refl
add_item-types (use_item colon tree attrs) s = refl
add_item-types (mod_item n items attrs) s = refl
add_item-types (mod_file_item n line attrs) s = refl
add_item-types (other_item attrs) s = refl

pub add_items-Extends :
    (c m i : ℕ) (items : List Item) (b : Built) (s : Scope)
    → Extends b (add_items c m i items (b, s)).0
unfolding add_items declare_type
add_items-Extends c m i [] b s id d e = e
add_items-Extends c m i (item ∷ items) b s id d e =
    add_items-Extends c m (suc i) items _ _ id d
      (declare_as-Extends c m i (declared_type item) b s id d e)

empty-IsScoped : (c m : ℕ) (b : Built) → IsScoped c m b empty_scope.types
unfolding value_of
empty-IsScoped c m b name id e = absurd (none-ne-some id e)

add_items-IsScoped :
    (c m i : ℕ) (items : List Item) (b : Built) (s : Scope)
    → IsScoped c m b s.types
    → IsScoped c m (add_items c m i items (b, s)).0 (add_items c m i items (b, s)).1.types
unfolding add_items declare_type
add_items-IsScoped c m i [] b s h = h
add_items-IsScoped c m i (item ∷ items) b s h = add_items-IsScoped c m (suc i) items _ _ (
    rw (add_item-types item (declare_as c m i (declared_type item) (b, s)).1)
      (declare_as-IsScoped c m i (declared_type item) b s h))

pub add_modules-Extends :
    (c m : ℕ) (modules : List Module) (b : Built) → Extends b (add_modules c m modules b).0
unfolding add_modules
add_modules-Extends c m [] b id d e = e
add_modules-Extends c m (md ∷ modules) b id d e =
    add_modules-Extends c (suc m) modules _ id d
      (add_items-Extends c m 0 md.items b empty_scope id d e)

pub add_crates-Extends :
    (c : ℕ) (crates : List Crate) (b : Built) → Extends b (add_crates c crates b).0
unfolding add_crates
add_crates-Extends c [] b id d e = e
add_crates-Extends c (krate ∷ crates) b id d e =
    add_crates-Extends (suc c) crates _ id d (add_modules-Extends c 0 krate.modules b id d e)

-- each module gets its scope
add_modules-IsScoped :
    (c m i n : ℕ) (modules : List Module) (md : Module) (b : Built)
    → m + i ≡ n
    → get_elem? modules i ≡ some md
    → (s : Scope) × (get_elem? (add_modules c m modules b).1 i ≡ some s)
      × IsScoped c n (add_modules c m modules b).0 s.types
unfolding add_modules
add_modules-IsScoped c m i n [] md b q e = cc
add_modules-IsScoped c m zero n (x ∷ modules) md b q e =
    let z : n ≡ m = omega arith in
    (
      _,
      refl,
      rw z (
          IsScoped-Extends c m (add_items c m 0 x.items (b, empty_scope)).0
            (add_modules c (suc m) modules (add_items c m 0 x.items (b, empty_scope)).0).0
            (add_items c m 0 x.items (b, empty_scope)).1.types
            (add_items-IsScoped c m 0 x.items b empty_scope (empty-IsScoped c m b))
            (add_modules-Extends c (suc m) modules (add_items c m 0 x.items (b, empty_scope)).0)),
    )
add_modules-IsScoped c m (suc i) n (x ∷ modules) md b q e =
    add_modules-IsScoped c (suc m) i n modules md _ (omega arith) e

pub add_crates-IsScoped :
    (k c n m : ℕ) (crates : List Crate) (krate : Crate) (md : Module) (b : Built)
    → k + c ≡ n
    → get_elem? crates c ≡ some krate
    → get_elem? krate.modules m ≡ some md
    → (scopes : List Scope) × (s : Scope) × (get_elem? (add_crates k crates b).1 c ≡ some scopes)
      × (get_elem? scopes m ≡ some s)
      × IsScoped n m (add_crates k crates b).0 s.types
unfolding add_crates
add_crates-IsScoped k c n m [] krate md b q e f = cc
add_crates-IsScoped k zero n m (x ∷ crates) krate md b q e f =
    let z : n ≡ k = omega arith in
    let g : get_elem? x.modules m ≡ some md =
      subst (λ y. get_elem? y.modules m ≡ some md) (sym (some-injective _ _ e)) f in
    let (s, p, h) = add_modules-IsScoped k 0 m m x.modules md b (omega arith) g in
    (
      (add_modules k 0 x.modules b).1,
      s,
      refl,
      p,
      rw z (
          IsScoped-Extends k m (add_modules k 0 x.modules b).0
            (add_crates (suc k) crates (add_modules k 0 x.modules b).0).0 s.types h
            (add_crates-Extends (suc k) crates (add_modules k 0 x.modules b).0)),
    )
add_crates-IsScoped k (suc c) n m (x ∷ crates) krate md b q e f =
    add_crates-IsScoped (suc k) c n m crates krate md _ (omega arith) e f
