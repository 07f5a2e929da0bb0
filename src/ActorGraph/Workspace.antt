-- ===== src/ActorGraph/Workspace.antt =====
-- The choice of what to scan in rsactor-graph/src/workspace.rs, from the output of `cargo metadata`.
-- `canonical` is `Path::canonicalize`, which asks the file system.
pub mod Scope
use text.Mathlib.Text.{◌==◌}
use rsactor.Base.{
  ℕ, String, ◌<>◌, Bool, true, false, not, ◌&&◌, ◌||◌, Option, none, some, List, [], ◌∷◌, ◌++◌, map,
  get_elem?, if◌then◌else◌,
}
use rsactor.ActorGraph.Output.{sort}
use rsactor.ActorGraph.Output.Derived.Basic.{text_order}
use rsactor.ActorGraph.Focus.{retain}
use rsactor.ActorGraph.Render.Labels.{contains}
use rsactor.ActorGraph.Render.Escape.{replace}

-- What the user asked to scan.
pub record Selection : Type 0 where
  pub manifest_path : Option String
  pub package_name : Option String
  pub example : Option String

pub record Target : Type 0 where
  pub name : String
  pub kind : List String
  pub src_path : String

pub record Dependency : Type 0 where
  pub name : String
  pub path : Option String

pub record Package : Type 0 where
  pub name : String
  pub id : String
  pub manifest_path : String
  pub targets : List Target
  pub dependencies : List Dependency

pub record Metadata : Type 0 where
  pub packages : List Package
  pub workspace_members : List String
  pub workspace_root : String

pub record Workspace : Type 0 where
  pub metadata : Metadata
  pub manifest_package : Option ℕ

pub record CrateSpec : Type 0 where
  pub target : String
  pub name : String
  pub root : String

pub record ScanInput : Type 0 where
  pub name : String
  pub targets : List CrateSpec
  pub declarations : List CrateSpec
  pub base_dir : String

-- A result, its error, or the panic of an index out of range.
pub data Chosen (A : Type 0) : Type 0 where
  chosen : A → Chosen A
  refused : String → Chosen A
  panics : Chosen A

abbrev pub rsactor_package : String
rsactor_package = "rsactor"

-- `Target::is`
unfoldable pub is : Target → String → Bool
unfolding contains
is t kind = contains kind t.kind

-- `name.replace('-', "_")`
unfoldable pub spec : Target → String → CrateSpec
unfolding replace
spec t kind =
    let name = replace b'-' "_" t.name in
    record { target = kind <> (":" <> name); name = name; root = t.src_path }

-- `Iterator::find`
unfoldable pub find : {A : Type 0} → (A → Bool) → List A → Option A
find test [] = none
find test (x ∷ xs) = let rest = find test xs in if test x then some x else rest

unfoldable pub members : Workspace → List Package
unfolding retain contains
members w = retain (λ p. contains p.id w.metadata.workspace_members) w.metadata.packages

unfoldable pub same_file : (String → Option String) → String → String → Bool
same_file canonical a b = elim (canonical a) [
  | none ↦ a == b
  | some x ↦ elim (canonical b) [ none ↦ a == b | some y ↦ x == y ]
]

unfoldable pub or_refused : {A : Type 0} → Option A → String → Chosen A
or_refused none error = refused error
or_refused (some a) error = chosen a

-- `Workspace::package`; `join_path` is `Path::join`
unfoldable pub selected_package :
    (String → Option String) → (String → String → String) → Workspace → Selection → Chosen Package
unfolding members same_file or_refused find
selected_package canonical join_path w s = elim s.package_name [
  | some name ↦
      or_refused (find (λ p. p.name == name) (members w))
        ("package `" <> (name <> "` is not a workspace member"))
  | none ↦ elim w.manifest_package [
    | some index ↦ elim (get_elem? w.metadata.packages index) [ some p ↦ chosen p | none ↦ panics ]
    | none ↦
        or_refused
          (find
            (λ p.
              same_file canonical p.manifest_path
                (join_path w.metadata.workspace_root "Cargo.toml"))
            (members w))
          "virtual workspace: pass --package NAME"
  ]
]

unfoldable pub libs : List Target → List Target
unfolding is retain
libs targets = retain (λ t. is t "lib") targets

-- the lib, which is never rsactor's own, and the bins
unfoldable pub package_targets : Package → List CrateSpec
unfolding is retain spec
package_targets p =
    map (λ t. spec t (if is t "lib" then "lib" else "bin"))
      (retain (λ t. (is t "lib" && not (p.name == rsactor_package)) || is t "bin") p.targets)

unfoldable pub scan_targets : Package → Selection → Chosen (List CrateSpec)
unfolding package_targets find is spec
scan_targets p s = elim s.example [
  | none ↦ chosen (package_targets p)
  | some example ↦ elim (find (λ t. is t "example" && (t.name == example)) p.targets) [
    | some t ↦ chosen (spec t "example" ∷ [])
    | none ↦ refused ("package `" <> (p.name <> ("` has no example `" <> (example <> "`"))))
  ]
]

unfoldable pub is_known : String → List CrateSpec → Bool
is_known target [] = false
is_known target (s ∷ specs) = (s.target == target) || is_known target specs

-- the libs of one dependency, of those that are not known yet
unfoldable pub declare_libs : List CrateSpec → List Target → List CrateSpec → List CrateSpec
unfolding is_known spec
declare_libs targets [] declarations = declarations
declare_libs targets (t ∷ ts) declarations =
    elim (is_known (spec t "lib").target (targets ++ declarations)) [
      | true ↦ declare_libs targets ts declarations
      | false ↦ declare_libs targets ts (declarations ++ spec t "lib" ∷ [])
    ]

unfoldable pub is_local : Dependency → Bool
is_local d = elim d.path [ none ↦ false | some path ↦ not (d.name == rsactor_package) ]

unfoldable pub declare_dependencies :
    Workspace → List CrateSpec → List Dependency → List CrateSpec → List CrateSpec
unfolding is_local find members declare_libs libs
declare_dependencies w targets [] declarations = declarations
declare_dependencies w targets (d ∷ ds) declarations = elim (is_local d) [
  | false ↦ declare_dependencies w targets ds declarations
  | true ↦ elim (find (λ m. m.name == d.name) (members w)) [
    | none ↦ declare_dependencies w targets ds declarations
    | some m ↦
        declare_dependencies w targets ds (declare_libs targets (libs m.targets) declarations)
  ]
]

-- the package's own lib, for an example
unfoldable pub own_libs : Package → Selection → List CrateSpec
unfolding libs spec
own_libs p s = elim s.example [
  | none ↦ []
  | some example ↦
      if p.name == rsactor_package then [] else map (λ t. spec t "lib") (libs p.targets)
]

unfoldable pub input_of : Workspace → Selection → Package → List CrateSpec → ScanInput
unfolding declare_dependencies own_libs
input_of w s p targets = record {
  name = elim s.example [ none ↦ p.name | some example ↦ example ];
  targets = targets;
  declarations = declare_dependencies w targets p.dependencies (own_libs p s);
  base_dir = w.metadata.workspace_root;
}

-- `?`
unfoldable pub and_then : {A B : Type 0} → Chosen A → (A → Chosen B) → Chosen B
and_then (chosen a) next = next a
and_then (refused error) next = refused error
and_then panics next = panics

-- `Workspace::input`
unfoldable pub input :
    (String → Option String) → (String → String → String) → Workspace → Selection → Chosen ScanInput
unfolding selected_package scan_targets input_of and_then
input canonical join_path w s =
    and_then (selected_package canonical join_path w s)
      (λ p. and_then (scan_targets p s) (λ targets. chosen (input_of w s p targets)))

-- `Workspace::examples`
unfoldable pub examples :
    (String → Option String)
    → (String → String → String)
    → Workspace
    → Selection
    → Chosen (List String)
unfolding selected_package and_then retain is sort
examples canonical join_path w s =
    and_then (selected_package canonical join_path w s)
      (λ p. chosen (sort text_order (map (λ t. t.name) (retain (λ t. is t "example") p.targets))))
