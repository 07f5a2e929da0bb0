-- ===== src/ActorGraph/Resolve/Imports.antt =====
-- The imports of a `use` tree, as rsactor-graph/src/resolve.rs flattens them.
use text.Mathlib.Text.{◌==◌}
use rsactor.Base.{String, Bool, none, some, List, [], ◌∷◌, ◌++◌, get_last?, if◌then◌else◌}
use rsactor.ActorGraph.Syntax.{
  UseTree, UseTrees, use_path, use_name, use_rename, use_glob, use_group, no_uses, and_use,
}
use rsactor.ActorGraph.Resolve.{Import, named, glob}

-- the import of a name at the end of a `use` path; `self` names the path itself
unfoldable pub name_import : String → List String → Bool → List Import → List Import
name_import ident prefix colon out =
    if ident == "self"
    then elim (get_last? prefix) [ some last ↦ out ++ named last prefix colon ∷ [] | none ↦ out ]
    else out ++ named ident (prefix ++ ident ∷ []) colon ∷ []

unfoldable pub rename_import : String → String → List String → Bool → List Import → List Import
rename_import ident alias prefix colon out =
    if alias == "_"
    then out
    else out ++ named alias (if ident == "self" then prefix else prefix ++ ident ∷ []) colon ∷ []

unfoldable mutual
  unfolding name_import rename_import

  pub flatten_use : UseTree → List String → Bool → List Import → List Import
  flatten_use (use_path ident tree) prefix colon out =
      flatten_use tree (prefix ++ ident ∷ []) colon out
  flatten_use (use_name ident) prefix colon out = name_import ident prefix colon out
  flatten_use (use_rename ident alias) prefix colon out = rename_import ident alias prefix colon out
  flatten_use use_glob prefix colon out = out ++ glob prefix colon ∷ []
  flatten_use (use_group trees) prefix colon out = flatten_all trees prefix colon out

  pub flatten_all : UseTrees → List String → Bool → List Import → List Import
  flatten_all no_uses prefix colon out = out
  flatten_all (and_use tree trees) prefix colon out =
      flatten_all trees prefix colon (flatten_use tree prefix colon out)

-- `imports_of`
unfoldable pub imports_of : Bool → UseTree → List Import
unfolding flatten_use
imports_of colon tree = flatten_use tree [] colon []
