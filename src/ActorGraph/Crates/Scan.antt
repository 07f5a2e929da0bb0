-- ===== src/ActorGraph/Crates/Scan.antt =====
-- `scan` of rsactor-graph/src/lib.rs up to the index: the crates to scan, then those that only
-- declare.
use rsactor.Base.{ℕ, String, Bool, true, false, Option, some, List, [], ◌∷◌, ◌++◌, ◌>>=◌}
use rsactor.ActorGraph.Model.{Report}
use rsactor.ActorGraph.Workspace.{CrateSpec, ScanInput}
use rsactor.ActorGraph.Crates.{Crate}
use rsactor.ActorGraph.Crates.Attributes.{CharClasses}
use rsactor.ActorGraph.Crates.Files.{Files}
use rsactor.ActorGraph.Crates.Load.{load_crate}
use rsactor.ActorGraph.Resolve.{Index}
use rsactor.ActorGraph.Resolve.Build.{build}

module _ (k : CharClasses) (f : Files) (fuel : ℕ) where
  unfoldable pub load_all :
      String → Bool → List CrateSpec → List Crate → Report → Option (List Crate × Report)
  unfolding load_crate
  load_all base is_target [] crates r = some (crates, r)
  load_all base is_target (spec ∷ specs) crates r =
      load_crate k f base fuel spec is_target r >>= λ p.
      load_all base is_target specs (crates ++ p.0 ∷ []) p.1

  unfoldable pub scan_crates : ScanInput → Option (List Crate × Report)
  unfolding load_all
  scan_crates input = do
    (targets, r) ← load_all input.base_dir true input.targets [] (record { entries = [] })
    load_all input.base_dir false input.declarations targets r

  unfoldable pub scan_index : ScanInput → Option (Index × Report)
  unfolding scan_crates build
  scan_index input = do (crates, r) ← scan_crates input; some (build crates, r)
