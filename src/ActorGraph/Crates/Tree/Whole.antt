-- ===== src/ActorGraph/Crates/Tree/Whole.antt =====
-- The parents of the modules of `Crate::load` of rsactor-graph/src/crate_tree.rs, and the index of
-- the crates of `scan` of rsactor-graph/src/lib.rs.
use mathlib.Core.Option.{none-ne-some}
use rsactor.Base.{
  true, false, subst, get_elem?-snoc, ℕ, zero, suc, ◌<◌, ◌≡◌, refl, inl, inr, String, Bool, none,
  some, List, [], ◌∷◌, ◌++◌, get_elem?, arith,
}
use rsactor.ActorGraph.Model.{Report}
use rsactor.ActorGraph.Workspace.{CrateSpec, ScanInput}
use rsactor.ActorGraph.Crates.{Module, Crate}
use rsactor.ActorGraph.Crates.Attributes.{CharClasses}
use rsactor.ActorGraph.Crates.Files.{Files}
use rsactor.ActorGraph.Crates.Load.{load_crate}
use rsactor.ActorGraph.Crates.Scan.{load_all, scan_crates, scan_index}
use rsactor.ActorGraph.Crates.Tree.{IfSome, is_some, IsLinked}
use rsactor.ActorGraph.Crates.Tree.Loads.{IfSome-bind, loads-IsLoader}
use rsactor.ActorGraph.Resolve.{Index}
use rsactor.ActorGraph.Resolve.Build.WellFormed.{IsTree, build-IsWellFormed}
use rsactor.ActorGraph.Resolve.Settled.{IsWellFormed, get_elem?-first}

get_elem?-before :
    {A : Type 0} (xs : List A) (i m : ℕ) (y : A)
    → get_elem? xs m ≡ some y
    → i < m
    → (x : A) × (get_elem? xs i ≡ some x)
get_elem?-before [] i m y e h = absurd (none-ne-some y e)
get_elem?-before (x ∷ xs) i zero y e h = absurd (omega arith)
get_elem?-before (x ∷ xs) zero (suc m) y e h = (x, refl)
get_elem?-before (x ∷ xs) (suc i) (suc m) y e h = get_elem?-before xs i m y e (omega arith)

-- A crate of linked modules, one of them the root.
abbrev pub IsWhole : Crate → Type 0
IsWhole krate = IsLinked krate.modules × ((md : Module) × (get_elem? krate.modules 0 ≡ some md))

IsWhole-IsTree : (krate : Crate) → IsWhole krate → IsTree krate
IsWhole-IsTree krate (links, root) = record {
  root = root;
  below = λ m md name k e f. let (x, g, p, q) = (links m md e).1 name k f in (x, g);
  above = λ m md p e f. get_elem?-before krate.modules p m md e ((links m md e).0 p f);
}

module _ (k : CharClasses) (f : Files) (base : String) where
  -- A crate that is loaded is a tree: its first module is the root, each other module comes after the
  -- one that it is below, and a name in a module leads to a module that is below it and whose path
  -- ends with this name.
  pub load_crate-IsWhole :
      (fuel : ℕ) (spec : CrateSpec) (is_target : Bool) (r : Report)
      → IfSome (λ (p : Crate × Report). IsWhole p.0) (load_crate k f base fuel spec is_target r)
  unfolding load_crate
  load_crate-IsWhole fuel spec is_target r =
      IfSome-bind
        (loads-IsLoader k f base fuel none [] spec.root _ _ _ (λ p e. absurd (none-ne-some p e)))
        (λ x h. is_some (
          h.0.links (λ m md e. absurd (none-ne-some md e)),
          get_elem?-first x.1.modules x.0 h.1.0 h.1.1,
        ))

  -- every crate of the list
  abbrev AreTrees : List Crate → Type 0
  AreTrees crates = (c : ℕ) (krate : Crate) → get_elem? crates c ≡ some krate → IsTree krate

  load_all-AreTrees :
      (fuel : ℕ) (is_target : Bool) (specs : List CrateSpec) (crates : List Crate) (r : Report)
      → AreTrees crates
      → IfSome
          (λ (p : List Crate × Report). AreTrees p.0)
          (load_all k f fuel base is_target specs crates r)
  unfolding load_all
  load_all-AreTrees fuel is_target [] crates r h = is_some h
  load_all-AreTrees fuel is_target (spec ∷ specs) crates r h =
      IfSome-bind (load_crate-IsWhole fuel spec is_target r) (λ p w.
        load_all-AreTrees fuel is_target specs (crates ++ p.0 ∷ []) p.1 (λ c krate e.
          elim (get_elem?-snoc crates p.0 krate c e) [
            | inl g ↦ h c krate g
            | inr (z, g) ↦ subst IsTree g (IsWhole-IsTree p.0 w)
          ]))

-- The index of the crates that a scan loads is well-formed.
pub scan_index-IsWellFormed :
    (k : CharClasses) (f : Files) (fuel : ℕ) (input : ScanInput)
    → IfSome (λ (p : Index × Report). IsWellFormed p.0) (scan_index k f fuel input)
unfolding scan_index scan_crates
scan_index-IsWellFormed k f fuel input =
    IfSome-bind {P = λ p. (c : ℕ) (krate : Crate) → get_elem? p.0 c ≡ some krate → IsTree krate}
      (IfSome-bind
        (load_all-AreTrees k f input.base_dir fuel true input.targets [] _
          (λ c krate e. absurd (none-ne-some krate e)))
        (λ t h. load_all-AreTrees k f input.base_dir fuel false input.declarations t.0 t.1 h))
      (λ p h. is_some (build-IsWellFormed p.0 h))
