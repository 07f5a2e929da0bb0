-- ===== src/ActorGraph/Crates.antt =====
-- The module trees of rsactor-graph/src/crate_tree.rs. An inline module owns its items, and test-only
-- items are dropped.
pub mod Attributes
pub mod Files
pub mod Load
pub mod Tree
pub mod Ends
pub mod Scan
use rsactor.Base.{ℕ, String, Bool, Option, List, [], ◌∷◌, ◌++◌}
use rsactor.ActorGraph.Workspace.{CrateSpec}
use rsactor.ActorGraph.Syntax.{Item}

-- The path below the crate root, the file, the module above, the modules below, and the items.
pub record Module : Type 0 where
  pub path : List String
  pub file : String
  pub parent : Option ℕ
  pub children : List (String × ℕ)
  pub items : List Item

pub record Crate : Type 0 where
  pub spec : CrateSpec
  pub is_target : Bool
  pub modules : List Module

-- `Crate::module_path`, of the module itself
unfoldable pub module_path : Crate → Module → List String
module_path krate m = krate.spec.name ∷ m.path
