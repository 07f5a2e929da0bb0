-- ===== src/ActorGraph/Resolve/Lookup.antt =====
-- The lookups of rsactor-graph/src/resolve.rs. `active` is the set of names that are being looked up,
-- which the code keeps in a cell, inserts into before a lookup and removes from after it. Each
-- function but the last is written over the lookup that it calls back.
use text.Mathlib.Text.{◌==◌}
use rsactor.Base.{
  ℕ, zero, suc, String, ◌<>◌, Bool, true, false, ◌&&◌, Option, none, some, List, [], ◌∷◌, ◌++◌,
  get_elem?, if◌then◌else◌, ◌>>=◌,
}
use rsactor.Base as Base
use rsactor.Base.Text.{join}
use rsactor.ActorGraph.Render.Labels.{contains}
use rsactor.ActorGraph.Crates.{module_path}
use rsactor.ActorGraph.Resolve.{
  Res, in_module, declaration, variant, rsactor_name, std_name, external_name, value_name, Import,
  named, glob, Scope, Index, is_enum, value_of, module_of, scope_of,
}
use rsactor.ActorGraph.Resolve.Names.{rsactor_names, prelude}

-- An answer, `None`, the panic of an index out of range, or fuel that ran out.
pub data Lookup (A : Type 0) : Type 0 where
  found : A → Lookup A
  missing : Lookup A
  out_of_range : Lookup A
  exhausted : Lookup A

module _ {A B : Type 0} where
  -- `?`
  unfoldable pub then_find : Lookup A → (A → Lookup B) → Lookup B
  then_find (found a) next = next a
  then_find missing next = missing
  then_find out_of_range next = out_of_range
  then_find exhausted next = exhausted

  -- the second where the first is `None`, and `None` where the first is not
  unfoldable pub when_missing : Lookup A → Lookup B → Lookup B
  when_missing (found a) other = missing
  when_missing missing other = other
  when_missing out_of_range other = out_of_range
  when_missing exhausted other = exhausted

module _ {A : Type 0} where
  -- `Option::or_else`
  unfoldable pub or_find : Lookup A → Lookup A → Lookup A
  or_find (found a) other = found a
  or_find missing other = other
  or_find out_of_range other = out_of_range
  or_find exhausted other = exhausted

  unfoldable pub of_option : Option A → Lookup A
  of_option none = missing
  of_option (some a) = found a

  unfoldable pub in_range : Option A → Lookup A
  in_range none = out_of_range
  in_range (some a) = found a

-- the key of the guard
pub record Key : Type 0 where
  pub krate : ℕ
  pub module_id : ℕ
  pub name : String

unfoldable pub same_key : Key → Key → Bool
same_key a b =
    (Base.◌==◌ a.krate b.krate) && (Base.◌==◌ a.module_id b.module_id) && (a.name == b.name)

unfoldable pub is_active : Key → List Key → Bool
unfolding same_key
is_active key [] = false
is_active key (k ∷ keys) = let rest = is_active key keys in if same_key key k then true else rest

module _ (ix : Index) where
  unfoldable pub extern_root : String → Option Res
  unfolding value_of
  extern_root name = elim (value_of name ix.crate_by_name) [
    | some c ↦ some (in_module c 0)
    | none ↦
        if name == "rsactor"
        then some (rsactor_name "")
        else if contains name ("std" ∷ "core" ∷ "alloc" ∷ [])
        then some (std_name "std")
        else none
  ]

  -- `super`
  unfoldable pub parent_of : ℕ → ℕ → Lookup Res
  unfolding module_of then_find in_range of_option
  parent_of c m =
      then_find (in_range (module_of ix c m))
        (λ md. then_find (of_option md.parent) (λ p. found (in_module c p)))

  -- the variant of an enum; another type has no names in it
  unfoldable pub variant_of : ℕ → String → Lookup Res
  unfolding is_enum then_find in_range
  variant_of id name =
      then_find (in_range (get_elem? ix.decls id))
        (λ d. if is_enum d.kind then found (variant id name) else missing)

  -- the path of a local value, under its crate's name
  unfoldable pub value_path : ℕ → ℕ → String → Lookup Res
  unfolding module_of module_path join then_find in_range
  value_path c m name = then_find (in_range (get_elem? ix.crates c)) (λ krate.
      then_find (in_range (get_elem? krate.modules m))
        (λ md. found (value_name (join "::" (module_path krate md ++ name ∷ [])))))

  module _ (look : ℕ → ℕ → String → Lookup Res) where
    unfoldable pub step : Res → String → Lookup Res
    unfolding parent_of variant_of
    step (in_module c m) segment =
        if segment == "super"
        then parent_of c m
        else if segment == "self"
        then found (in_module c m)
        else look c m segment
    step (declaration id) segment = variant_of id segment
    step (rsactor_name name) segment = found (rsactor_name segment)
    step (std_name prefix) segment = found (std_name (prefix <> ("::" <> segment)))
    step (external_name prefix) segment = found (external_name (prefix <> ("::" <> segment)))
    step (variant id name) segment = missing
    step (value_name path) segment = missing

    unfoldable pub steps : Res → List String → Lookup Res
    unfolding step then_find
    steps res [] = found res
    steps res (segment ∷ rest) = then_find (step res segment) (λ r. steps r rest)

    -- what the first segment names
    unfoldable pub root : ℕ → ℕ → String → Bool → Lookup Res
    unfolding extern_root parent_of or_find of_option prelude
    root c m first colon =
        if colon
        then of_option (extern_root first)
        else if first == "crate"
        then found (in_module c 0)
        else if first == "self"
        then found (in_module c m)
        else if first == "super"
        then parent_of c m
        else or_find (or_find (look c m first) (of_option (extern_root first)))
            (of_option (prelude first))

    unfoldable pub resolve_exact : ℕ → ℕ → List String → Bool → Lookup Res
    unfolding root steps then_find
    resolve_exact c m [] colon = missing
    resolve_exact c m (first ∷ rest) colon =
        then_find (root c m first colon) (λ res. steps res rest)

    unfoldable pub resolve_outside : ℕ → ℕ → List String → Bool → Lookup Res
    unfolding steps when_missing
    resolve_outside c m [] colon = missing
    resolve_outside c m (first ∷ rest) colon =
        if colon
        then steps (external_name first) rest
        else when_missing (look c m first) (steps (external_name first) rest)

    unfoldable pub resolve_use : ℕ → ℕ → List String → Bool → Lookup Res
    unfolding resolve_exact resolve_outside or_find
    resolve_use c m path colon =
        or_find (resolve_exact c m path colon) (resolve_outside c m path colon)

    unfoldable pub from_named : ℕ → ℕ → String → List Import → Lookup Res
    unfolding resolve_use or_find
    from_named c m name [] = missing
    from_named c m name (named alias path colon ∷ imports) =
        let rest = from_named c m name imports in
        if alias == name then or_find (resolve_use c m path colon) rest else rest
    from_named c m name (glob path colon ∷ imports) = from_named c m name imports

    -- what a glob brings in under a name
    unfoldable pub through_glob : String → Res → Lookup Res
    unfolding variant_of contains
    through_glob name (in_module c m) = look c m name
    through_glob name (declaration id) = variant_of id name
    through_glob name (rsactor_name other) =
        if contains name rsactor_names then found (rsactor_name name) else missing
    through_glob name (std_name path) = missing
    through_glob name (external_name path) = missing
    through_glob name (variant id other) = missing
    through_glob name (value_name path) = missing

    unfoldable pub from_globs : ℕ → ℕ → String → List Import → Lookup Res
    unfolding resolve_use through_glob or_find then_find
    from_globs c m name [] = missing
    from_globs c m name (named alias path colon ∷ imports) = from_globs c m name imports
    from_globs c m name (glob path colon ∷ imports) =
        or_find (then_find (resolve_use c m path colon) (through_glob name))
          (from_globs c m name imports)

    -- a module's types, values, named imports and globs, in this order
    unfoldable pub in_scope : ℕ → ℕ → String → Scope → Lookup Res
    unfolding value_of contains value_path or_find from_named from_globs
    in_scope c m name scope = elim (value_of name scope.types) [
      | some id ↦ found (declaration id)
      | none ↦
          if contains name scope.values
          then value_path c m name
          else or_find (from_named c m name scope.imports) (from_globs c m name scope.imports)
    ]

    unfoldable pub lookup_inner : ℕ → ℕ → String → Lookup Res
    unfolding value_of module_of scope_of then_find in_range in_scope
    lookup_inner c m name = then_find (in_range (module_of ix c m)) (λ md.
        elim (value_of name md.children) [
          | some child ↦ found (in_module c child)
          | none ↦ then_find (in_range (scope_of ix c m)) (in_scope c m name)
        ])

  unfoldable pub lookup : ℕ → List Key → ℕ → ℕ → String → Lookup Res
  unfolding lookup_inner is_active
  lookup zero active c m name = exhausted
  lookup (suc fuel) active c m name =
      let key : Key = record { krate = c; module_id = m; name = name } in
      let inner = lookup_inner (lookup fuel (key ∷ active)) c m name in
      if is_active key active then missing else inner
