-- ===== src/ActorGraph/Crates/Ends/Whole.antt =====
-- The loads of `Crate::load` of rsactor-graph/src/crate_tree.rs and of `scan` of
-- rsactor-graph/src/lib.rs, with finitely many files.
use mathlib.Core.List.{Memᴰ}
use rsactor.Base.{
  suc, ◌≡◌, refl, String, Bool, true, false, Option, none, some, List, [], ◌∷◌, ◌++◌, length, arith,
  unless-length,
}
use rsactor.ActorGraph.Render.Labels.{contains}
use rsactor.ActorGraph.Model.{Report}
use rsactor.ActorGraph.Workspace.{CrateSpec}
use rsactor.ActorGraph.Crates.{Crate}
use rsactor.ActorGraph.Crates.Attributes.{CharClasses}
use rsactor.ActorGraph.Crates.Files.{dir_of, parse_file, Files}
use rsactor.ActorGraph.Crates.Load.{load_crate}
use rsactor.ActorGraph.Workspace.{ScanInput}
use rsactor.ActorGraph.Resolve.{Index}
use rsactor.ActorGraph.Crates.Scan.{load_all, scan_crates, scan_index}
use rsactor.ActorGraph.Crates.Ends.{Ends, ends, Ends-bind}
use rsactor.ActorGraph.Crates.Ends.Loads.{loads-Ends}
use rsactor.ActorGraph.Crates.Tree.{IfSome, is_some}
use rsactor.ActorGraph.Crates.Tree.Whole.{IsWhole, load_crate-IsWhole, scan_index-IsWellFormed}
use rsactor.ActorGraph.Resolve.Settled.{IsWellFormed}

abbrev Any : {A : Type 0} → A → Type 0
Any a = Unit {0}

taken :
    {A : Type 0} {P Q : A → Type 0} {o : Option A}
    → Ends P o
    → IfSome Q o
    → (a : A) × (o ≡ some a) × Q a
taken (ends h) (is_some q) = (_, refl, q)

module _ (k : CharClasses) (f : Files) (files : List String)
    (all : (file : String) → f.is_file file ≡ true → Memᴰ file files) where
  load_crate-Ends :
      (base : String) (spec : CrateSpec) (is_target : Bool) (r : Report)
      → Ends Any (load_crate k f base (suc (length files)) spec is_target r)
  unfolding load_crate
  load_crate-Ends base spec is_target r =
      Ends-bind
        (loads-Ends k f base files all (suc (length files)) none [] spec.root
          (record { children = dir_of f spec.root; path_attr_base = dir_of f spec.root })
          (parse_file f spec.root base r).0
          (record {
            modules = [];
            report = (parse_file f spec.root base r).1;
            seen = spec.root ∷ [];
          })
          (omega (arith, unless-length (λ x. contains x (spec.root ∷ [])) files)))
        (λ p h. ends tt)

  load_all-Ends :
      (base : String) (is_target : Bool) (specs : List CrateSpec) (crates : List Crate) (r : Report)
      → Ends Any (load_all k f (suc (length files)) base is_target specs crates r)
  unfolding load_all
  load_all-Ends base is_target [] crates r = ends tt
  load_all-Ends base is_target (spec ∷ specs) crates r =
      Ends-bind (load_crate-Ends base spec is_target r)
        (λ p h. load_all-Ends base is_target specs (crates ++ p.0 ∷ []) p.1)

  -- A crate's load ends, where the paths by which the file system finds a file, those through `..`
  -- too, are all among `files`: the fuel of one step for each such path, and one more, is enough. It gives a tree: the first module is the root, a
  -- module comes after the one that it is below, and a name in a module leads to a module that knows
  -- the first as its parent and whose path is longer by this name.
  pub load_crate_links :
      (base : String) (spec : CrateSpec) (is_target : Bool) (r : Report)
      → (p : Crate × Report) × (load_crate k f base (suc (length files)) spec is_target r ≡ some p)
        × IsWhole p.0
  load_crate_links base spec is_target r =
      taken (load_crate-Ends base spec is_target r)
        (load_crate-IsWhole k f base (suc (length files)) spec is_target r)

  scan_index-Ends :
      (input : ScanInput)
      → Ends (Any {A = Index × Report}) (scan_index k f (suc (length files)) input)
  unfolding scan_index scan_crates
  scan_index-Ends input =
      Ends-bind {P = Any}
        (Ends-bind (load_all-Ends input.base_dir true input.targets [] _)
          (λ t h. load_all-Ends input.base_dir false input.declarations t.0 t.1))
        (λ p h. ends tt)

  -- A scan loads its crates and builds an index, where the paths by which the file system finds a
  -- file, those through `..` too, are all among `files`: the fuel of one step for each such path,
  -- and one more, is enough. The index is well-formed:
  -- every module has its scope, and the modules, declarations and crates that the index names exist.
  pub scan_index_builds :
      (input : ScanInput)
      → (p : Index × Report) × (scan_index k f (suc (length files)) input ≡ some p)
        × IsWellFormed p.0
  scan_index_builds input =
      taken (scan_index-Ends input) (scan_index-IsWellFormed k f (suc (length files)) input)
