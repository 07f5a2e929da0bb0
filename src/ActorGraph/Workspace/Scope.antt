-- ===== src/ActorGraph/Workspace/Scope.antt =====
-- The crates that `Workspace::input` of rsactor-graph/src/workspace.rs adds to the ones it scans.
use mathlib.Core.List.{append_assoc, append-nil}
use text.Mathlib.Text.{◌==◌}
use rsactor.Base.{
  ◌≡◌, subst, ◌⊎◌, inl, inr, true, false, none, some, List, [], ◌∷◌, ◌++◌, Bool-cases, Option-cases,
}
use rsactor.ActorGraph.Workspace.{
  Selection, Target, Dependency, Package, Workspace, CrateSpec, spec, find, members, libs, is_known,
  is_local, declare_libs, declare_dependencies, own_libs, input_of,
}

-- Each crate has a target that is not among `seen` and the crates before it.
abbrev pub AllNew : List CrateSpec → List CrateSpec → Type 0
AllNew seen [] = Unit {0}
AllNew seen (s ∷ specs) = (is_known s.target seen ≡ false) × AllNew (seen ++ s ∷ []) specs

AllNew-snoc :
    (seen ds : List CrateSpec) (s : CrateSpec)
    → AllNew seen ds
    → is_known s.target (seen ++ ds) ≡ false
    → AllNew seen (ds ++ s ∷ [])
AllNew-snoc seen [] s v h = (subst (λ x. is_known s.target x ≡ false) (append-nil seen) h, tt)
AllNew-snoc seen (d ∷ ds) s (n, v) h =
    (n, AllNew-snoc (seen ++ d ∷ []) ds s v (rw (append_assoc seen (d ∷ []) ds) h))

declare_libs-AllNew :
    (targets : List CrateSpec) (ts : List Target) (ds : List CrateSpec)
    → AllNew targets ds
    → AllNew targets (declare_libs targets ts ds)
unfolding declare_libs
declare_libs-AllNew targets [] ds v = v
declare_libs-AllNew targets (t ∷ ts) ds v =
    elim (Bool-cases (is_known (spec t "lib").target (targets ++ ds))) [
      | inl y ↦ rw (y, declare_libs) (declare_libs-AllNew targets ts ds v)
      | inr n ↦
          rw (n, declare_libs)
            (declare_libs-AllNew targets ts (ds ++ spec t "lib" ∷ [])
              (AllNew-snoc targets ds (spec t "lib") v n))
    ]

declare_dependencies-AllNew :
    (w : Workspace) (targets : List CrateSpec) (deps : List Dependency) (ds : List CrateSpec)
    → AllNew targets ds
    → AllNew targets (declare_dependencies w targets deps ds)
unfolding declare_dependencies
declare_dependencies-AllNew w targets [] ds v = v
declare_dependencies-AllNew w targets (d ∷ deps) ds v = elim (Bool-cases (is_local d)) [
  | inr n ↦ rw (n, declare_dependencies) (declare_dependencies-AllNew w targets deps ds v)
  | inl y ↦
      by_member (Option-cases (find (λ m. m.name == d.name) (members w))) y
        (declare_dependencies-AllNew w targets deps)
]
  where
    by_member :
        (find (λ m. m.name == d.name) (members w) ≡ none)
          ⊎ ((m : Package) × (find (λ m. m.name == d.name) (members w) ≡ some m))
        → is_local d ≡ true
        → ((xs : List CrateSpec)
            → AllNew targets xs
            → AllNew targets (declare_dependencies w targets deps xs))
        → AllNew targets (declare_dependencies w targets (d ∷ deps) ds)
    by_member (inl e) y next = rw (y, e, declare_dependencies) (next ds v)
    by_member (inr (m, e)) y next =
        rw (y, e, declare_dependencies)
          (next (declare_libs targets (libs m.targets) ds)
            (declare_libs-AllNew targets (libs m.targets) ds v))

-- Where no example is selected, no crate is in the scope twice: the target of each crate that
-- `input` declares is neither one that is scanned nor that of another crate it declares.
pub input_of-AllNew :
    (w : Workspace) (s : Selection) (p : Package) (targets : List CrateSpec)
    → s.example ≡ none
    → AllNew (input_of w s p targets).targets (input_of w s p targets).declarations
unfolding input_of own_libs
input_of-AllNew w s p targets h =
    rw (h, own_libs) (declare_dependencies-AllNew w targets p.dependencies [] tt)
