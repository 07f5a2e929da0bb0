-- ===== src/ActorGraph/Resolve.antt =====
-- The name index of rsactor-graph/src/resolve.rs. A HashMap that is only filled and read is the list
-- of its insertions, the newest first.
pub mod Imports
pub mod Build
pub mod Names
pub mod Lookup
pub mod Paths
pub mod Segments
pub mod Settled
pub mod Answers
pub mod Inferred
pub mod Reach
pub mod Decls
use text.Mathlib.Text.{◌==◌}
use rsactor.Base.{
  ℕ, String, Bool, true, false, ◌||◌, Option, none, some, List, [], ◌∷◌, ◌++◌, get_elem?, ◌>>=◌,
  if◌then◌else◌,
}
use rsactor.ActorGraph.Crates.{Module, Crate}

pub data DeclKind : Type 0 where
  struct_kind : DeclKind
  enum_kind : DeclKind
  union_kind : DeclKind
  trait_kind : DeclKind
  type_alias_kind : DeclKind

unfoldable pub is_enum : DeclKind → Bool
is_enum enum_kind = true
is_enum struct_kind = false
is_enum union_kind = false
is_enum trait_kind = false
is_enum type_alias_kind = false

-- A declared type: its crate, module, the index of its item, its name, kind and type parameters.
pub record Decl : Type 0 where
  pub krate : ℕ
  pub module_id : ℕ
  pub item : ℕ
  pub name : String
  pub kind : DeclKind
  pub generics : List String

-- What a path resolves to.
pub data Res : Type 0 where
  in_module : ℕ → ℕ → Res
  declaration : ℕ → Res
  variant : ℕ → String → Res
  rsactor_name : String → Res
  std_name : String → Res
  external_name : String → Res
  value_name : String → Res

pub record Resolved : Type 0 where
  pub res : Res
  pub is_inferred : Bool

-- One name brought in by a `use`, and whether its path has a leading `::`.
pub data Import : Type 0 where
  named : String → List String → Bool → Import
  glob : List String → Bool → Import

pub record Scope : Type 0 where
  pub types : List (String × ℕ)
  pub values : List String
  pub imports : List Import

pub record Index : Type 0 where
  pub crates : List Crate
  pub decls : List Decl
  pub scopes : List (List Scope)
  pub crate_by_name : List (String × ℕ)
  pub by_last_segment : List (String × List ℕ)

-- `HashMap::get`
unfoldable pub value_of : {A : Type 0} → String → List (String × A) → Option A
value_of name [] = none
value_of name ((key, a) ∷ entries) =
    let rest = value_of name entries in if key == name then some a else rest

-- `self.crates[krate].modules[module]`; `none` is the panic of an index out of range
unfoldable pub module_of : Index → ℕ → ℕ → Option Module
module_of ix c m = get_elem? ix.crates c >>= λ krate. get_elem? krate.modules m

-- `self.scopes[krate][module]`
unfoldable pub scope_of : Index → ℕ → ℕ → Option Scope
scope_of ix c m = get_elem? ix.scopes c >>= λ scopes. get_elem? scopes m
