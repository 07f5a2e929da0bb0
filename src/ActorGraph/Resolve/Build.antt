-- ===== src/ActorGraph/Resolve/Build.antt =====
-- `Index::build` of rsactor-graph/src/resolve.rs: one pass over the crates, their modules and items.
pub mod Named
pub mod Scopes
pub mod WellFormed
use text.Mathlib.Text.{◌==◌, starts_with}
use rsactor.Base.{
  ℕ, suc, ◌+◌, String, Bool, true, false, ◌||◌, not, ◌&&◌, Option, none, some, List, [], ◌∷◌, ◌++◌,
  length, get_elem?, if◌then◌else◌,
}
use rsactor.ActorGraph.Crates.{Module, Crate}
use rsactor.ActorGraph.Syntax.{
  Item, GenericParam, type_param, lifetime_param, const_param, struct_item, enum_item, union_item,
  trait_item, type_item, fn_item, const_item, static_item, use_item, mod_item, mod_file_item,
  other_item,
}
use rsactor.ActorGraph.Resolve.{
  DeclKind, struct_kind, enum_kind, union_kind, trait_kind, type_alias_kind, Decl, Scope, Index,
  value_of,
}
use rsactor.ActorGraph.Resolve.Imports.{flatten_use}

-- what the whole pass fills
pub record Built : Type 0 where
  pub decls : List Decl
  pub by_last_segment : List (String × List ℕ)

unfoldable pub type_params : List GenericParam → List String
type_params [] = []
type_params (type_param name ∷ params) = name ∷ type_params params
type_params (lifetime_param name ∷ params) = type_params params
type_params (const_param name ∷ params) = type_params params

unfoldable pub declared_type : Item → Option (String × DeclKind × List String)
unfolding type_params
declared_type (struct_item name params attrs) = some (name, struct_kind, type_params params)
declared_type (enum_item name params attrs) = some (name, enum_kind, type_params params)
declared_type (union_item name params attrs) = some (name, union_kind, type_params params)
declared_type (trait_item name params attrs) = some (name, trait_kind, type_params params)
declared_type (type_item name params attrs) = some (name, type_alias_kind, type_params params)
declared_type (fn_item name attrs) = none
declared_type (const_item name attrs) = none
declared_type (static_item name attrs) = none
declared_type (use_item colon tree attrs) = none
declared_type (mod_item name items attrs) = none
declared_type (mod_file_item name line attrs) = none
declared_type (other_item attrs) = none

-- the values and imports of one item
unfoldable pub add_item : Item → Scope → Scope
unfolding flatten_use
add_item (fn_item name attrs) s = record {
  types = s.types;
  values = name ∷ s.values;
  imports = s.imports;
}
add_item (const_item name attrs) s = record {
  types = s.types;
  values = name ∷ s.values;
  imports = s.imports;
}
add_item (static_item name attrs) s = record {
  types = s.types;
  values = name ∷ s.values;
  imports = s.imports;
}
add_item (use_item colon tree attrs) s = record {
  types = s.types;
  values = s.values;
  imports = flatten_use tree [] colon s.imports;
}
add_item (struct_item name params attrs) s = s
add_item (enum_item name params attrs) s = s
add_item (union_item name params attrs) s = s
add_item (trait_item name params attrs) s = s
add_item (type_item name params attrs) s = s
add_item (mod_item name items attrs) s = s
add_item (mod_file_item name line attrs) s = s
add_item (other_item attrs) s = s

-- `by_last_segment.entry(name).or_default().push(id)`
unfoldable pub push_named : String → ℕ → List (String × List ℕ) → List (String × List ℕ)
push_named name id [] = (name, id ∷ []) ∷ []
push_named name id ((key, ids) ∷ entries) =
    let rest = (key, ids) ∷ push_named name id entries in
    if key == name then (key, ids ++ id ∷ []) ∷ entries else rest

unfoldable pub declare_as :
    ℕ → ℕ → ℕ → Option (String × DeclKind × List String) → Built × Scope → Built × Scope
unfolding push_named
declare_as c m i none st = st
declare_as c m i (some (name, kind, generics)) (b, s) = (
  record {
    decls =
        b.decls
        ++ record {
          krate = c;
          module_id = m;
          item = i;
          name = name;
          kind = kind;
          generics = generics;
        }
          ∷ [];
    by_last_segment = push_named name (length b.decls) b.by_last_segment;
  },
  record { types = (name, length b.decls) ∷ s.types; values = s.values; imports = s.imports },
)

unfoldable pub declare_type : ℕ → ℕ → ℕ → Item → Built × Scope → Built × Scope
unfolding declared_type declare_as
declare_type c m i item st = declare_as c m i (declared_type item) st

unfoldable pub add_items : ℕ → ℕ → ℕ → List Item → Built × Scope → Built × Scope
unfolding declare_type add_item
add_items c m i [] st = st
add_items c m i (item ∷ items) st =
    let next = declare_type c m i item st in
    add_items c m (suc i) items (next.0, add_item item next.1)

abbrev pub empty_scope : Scope
empty_scope = record { types = []; values = []; imports = [] }

unfoldable pub add_modules : ℕ → ℕ → List Module → Built → Built × List Scope
unfolding add_items
add_modules c m [] b = (b, [])
add_modules c m (md ∷ modules) b =
    let (b', scope) = add_items c m 0 md.items (b, empty_scope) in
    let (b'', scopes) = add_modules c (suc m) modules b' in (b'', scope ∷ scopes)

unfoldable pub add_crates : ℕ → List Crate → Built → Built × List (List Scope)
unfolding add_modules
add_crates c [] b = (b, [])
add_crates c (krate ∷ crates) b =
    let (b', scopes) = add_modules c 0 krate.modules b in
    let (b'', rest) = add_crates (suc c) crates b' in (b'', scopes ∷ rest)

unfoldable pub is_lib : Crate → Bool
is_lib krate = starts_with krate.spec.target "lib:"

-- a crate takes a name that is free, and a lib takes it from one that is no lib
unfoldable pub takes_name : List Crate → Crate → Option ℕ → Bool
unfolding is_lib
takes_name crates krate none = true
takes_name crates krate (some existing) = elim (get_elem? crates existing) [
  | some other ↦ is_lib krate && not (is_lib other)
  | none ↦ false
]

unfoldable pub name_crates : List Crate → ℕ → List Crate → List (String × ℕ) → List (String × ℕ)
unfolding takes_name value_of
name_crates crates c [] names = names
name_crates crates c (krate ∷ rest) names = name_crates crates (suc c) rest (
    if takes_name crates krate (value_of krate.spec.name names)
    then (krate.spec.name, c) ∷ names
    else names)

-- `Index::build`
unfoldable pub build : List Crate → Index
unfolding add_crates name_crates
build crates =
    let (b, scopes) = add_crates 0 crates (record { decls = []; by_last_segment = [] }) in
    record {
      crates = crates;
      decls = b.decls;
      scopes = scopes;
      crate_by_name = name_crates crates 0 crates [];
      by_last_segment = b.by_last_segment;
    }
