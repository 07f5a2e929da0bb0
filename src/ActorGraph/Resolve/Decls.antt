-- ===== src/ActorGraph/Resolve/Decls.antt =====
-- The declarations of the index of rsactor-graph/src/resolve.rs, their paths and items.
use mathlib.Core.List.{Memᴰ}
use mathlib.Core.List.Memᴰ
use rsactor.Base.{ℕ, ◌↔◌, String, List, [], ◌∷◌, ◌++◌, get_elem?}
use rsactor.Base.Text.{join}
use rsactor.ActorGraph.Syntax.{
  Attribute, GenericParam, type_param, Item, struct_item, enum_item, union_item, trait_item,
  type_item,
}
use rsactor.ActorGraph.Crates.{module_path}
use rsactor.ActorGraph.Resolve.{
  DeclKind, struct_kind, enum_kind, union_kind, trait_kind, type_alias_kind, Decl, Index, value_of,
  scope_of,
}
use rsactor.ActorGraph.Resolve.Lookup.{Lookup, found, then_find, in_range, of_option}

module _ (ix : Index) where
  -- `Index::local_decl`
  unfoldable pub local_decl : ℕ → ℕ → String → Lookup ℕ
  unfolding scope_of value_of then_find in_range of_option
  local_decl c m name =
      then_find (in_range (scope_of ix c m)) (λ s. of_option (value_of name s.types))

  -- `Index::decl_path`
  unfoldable pub decl_path : ℕ → Lookup String
  unfolding module_path join then_find in_range
  decl_path id = then_find (in_range (get_elem? ix.decls id)) (λ d.
      then_find (in_range (get_elem? ix.crates d.krate)) (λ krate.
        then_find (in_range (get_elem? krate.modules d.module_id))
          (λ md. found (join "::" (module_path krate md ++ d.name ∷ [])))))

  -- `Index::decl_item`
  unfoldable pub decl_item : ℕ → Lookup Item
  unfolding then_find in_range
  decl_item id = then_find (in_range (get_elem? ix.decls id)) (λ d.
      then_find (in_range (get_elem? ix.crates d.krate)) (λ krate.
        then_find (in_range (get_elem? krate.modules d.module_id))
          (λ md. in_range (get_elem? md.items d.item))))

-- The item declares a type of the kind with the name and the generic parameters.
pub data Declares : Item → String → DeclKind → List GenericParam → Type 0 where
  declares_struct :
      {name : String} {ps : List GenericParam} {attrs : List Attribute}
      → Declares (struct_item name ps attrs) name struct_kind ps
  declares_enum :
      {name : String} {ps : List GenericParam} {attrs : List Attribute}
      → Declares (enum_item name ps attrs) name enum_kind ps
  declares_union :
      {name : String} {ps : List GenericParam} {attrs : List Attribute}
      → Declares (union_item name ps attrs) name union_kind ps
  declares_trait :
      {name : String} {ps : List GenericParam} {attrs : List Attribute}
      → Declares (trait_item name ps attrs) name trait_kind ps
  declares_alias :
      {name : String} {ps : List GenericParam} {attrs : List Attribute}
      → Declares (type_item name ps attrs) name type_alias_kind ps

-- The item declares the type of `d`, whose generics are the type parameters among the item's.
abbrev pub IsItemOf : Item → Decl → Type 0
IsItemOf item d =
    (ps : List GenericParam) × Declares item d.name d.kind ps
    × ((x : String) → Memᴰ x d.generics ↔ Memᴰ (type_param x) ps)
