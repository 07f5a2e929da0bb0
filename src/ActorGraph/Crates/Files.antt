-- ===== src/ActorGraph/Crates/Files.antt =====
-- The files that rsactor-graph/src/crate_tree.rs looks for and reads. What `std::path`, the file
-- system and the parser of `syn` answer is the record `Files`.
use rsactor.Base.{ℕ, String, ◌<>◌, Bool, Option, none, some, List, [], ◌∷◌, ◌++◌, if◌then◌else◌}
use rsactor.Base.Text.{join}
use text.Mathlib.Text.{◌==◌}
use rsactor.ActorGraph.Syntax.{Attribute, Items, no_items}
use rsactor.ActorGraph.Model.{Location, Category, declaration, Report}
use rsactor.ActorGraph.Crates.Attributes.{path_attr}

-- The items of a file, or the error of the read or of the parser.
pub data Parsed : Type 0 where
  parsed : Items → Parsed
  unreadable : String → Parsed
  unparsable : String → Parsed

pub record Files : Type 0 where
  pub join_path : String → String → String
  pub parent : String → Option String
  pub file_stem : String → Option String
  pub strip_base : String → String → Option String
  pub components : String → List String
  pub is_file : String → Bool
  pub parse : String → Parsed

-- Where the modules below are looked for, and what a `#[path]` starts at.
pub record Dirs : Type 0 where
  pub children : String
  pub path_attr_base : String

-- `Report::push`
unfoldable pub push : Category → Option Location → String → Report → Report
push category location detail r = record {
  entries =
      r.entries
      ++ record { category = category; location = location; sender = none; detail = detail } ∷ [];
}

module _ (f : Files) where
  -- `path.parent().unwrap_or_default()`
  unfoldable pub dir_of : String → String
  dir_of path = elim (f.parent path) [ none ↦ "" | some dir ↦ dir ]

  unfoldable pub relative : String → String → String
  unfolding join
  relative path base =
      join "/" (f.components (elim (f.strip_base path base) [ none ↦ path | some rest ↦ rest ]))

  unfoldable pub location_of : String → ℕ → String → Location
  unfolding relative
  location_of file line base = record { file = relative file base; line = line }

  -- the items of a file and the report; none where it cannot be read
  unfoldable pub parse_file : String → String → Report → Items × Report
  unfolding location_of push
  parse_file path base r = elim (f.parse path) [
    | parsed items ↦ (items, r)
    | unreadable error ↦
        (no_items, push declaration (some (location_of path 1 base)) ("cannot read: " <> error) r)
    | unparsable error ↦
        (no_items, push declaration (some (location_of path 1 base)) ("cannot parse: " <> error) r)
  ]

  unfoldable pub if_file : String → Option String
  if_file path = if f.is_file path then some path else none

  unfoldable pub locate_module_file : List Attribute → String → Dirs → Option String
  unfolding path_attr if_file
  locate_module_file attrs name dirs = elim (path_attr attrs) [
    | some path ↦ if_file (f.join_path dirs.path_attr_base path)
    | none ↦ elim (if_file (f.join_path dirs.children (name <> ".rs"))) [
      | some flat ↦ some flat
      | none ↦ if_file (f.join_path (f.join_path dirs.children name) "mod.rs")
    ]
  ]

  unfoldable pub module_dir_of : String → String
  unfolding dir_of
  module_dir_of file = elim (f.file_stem file) [
    | none ↦ dir_of file
    | some stem ↦ if stem == "mod" then dir_of file else f.join_path (dir_of file) stem
  ]
