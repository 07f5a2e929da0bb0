-- ===== src/ActorGraph/Resolve/Settled/Steps.antt =====
-- Each function of rsactor-graph/src/resolve.rs that calls a lookup back settles where that lookup
-- does.
use mathlib.Core.List.{Memᴰ}
use mathlib.Core.List.Memᴰ
use text.Mathlib.Text.{◌==◌}
use rsactor.Base.{
  ℕ, ◌≡◌, refl, String, Bool, true, false, Option, none, some, List, [], ◌∷◌, get_elem?,
  if◌then◌else◌,
}
use rsactor.ActorGraph.Render.Labels.{contains}
use rsactor.ActorGraph.Resolve.{
  Decl, is_enum, Res, in_module, declaration, variant, rsactor_name, std_name, external_name,
  value_name, Import, named, glob, Index, value_of,
}
use rsactor.ActorGraph.Resolve.Names.{rsactor_names, std_prelude, primitives, prelude}
use rsactor.ActorGraph.Resolve.Lookup.{
  Lookup, found, missing, of_option, extern_root, parent_of, variant_of, step, steps, root,
  resolve_exact, resolve_outside, resolve_use, from_named, through_glob, from_globs,
}
use rsactor.ActorGraph.Resolve.Paths.{import_names}
use rsactor.ActorGraph.Resolve.Settled.{
  Settles, is_found, is_missing, IsModule, IsDeclared, IsValid, IsWellFormed, Settles-then,
  Settles-when, Settles-or, Settles-if, Settles-of_option, Settles-in_range, IsModule-root,
}

-- Each name of the list is among the others.
abbrev pub Within : List String → List String → Type 0
Within xs ys = (x : String) → Memᴰ x xs → Memᴰ x ys

module _ (ix : Index) (w : IsWellFormed ix) where
  variant_of-Settles :
      (id : ℕ) (name : String) → IsDeclared ix id → Settles (IsValid ix) (variant_of ix id name)
  unfolding variant_of
  variant_of-Settles id name (d, e) =
      Settles-then (Settles-in_range e) (λ x p. by_kind x p (is_enum x.kind) refl)
    where
      by_kind :
          (x : Decl)
          → get_elem? ix.decls id ≡ some x
          → (b : Bool) → is_enum x.kind ≡ b
          → Settles (IsValid ix) (if b then found (variant id name) else missing)
      by_kind x p true q = is_found (x, p, q)
      by_kind x p false q = is_missing

  parent_of-Settles : (c m : ℕ) → IsModule ix c m → Settles (IsValid ix) (parent_of ix c m)
  unfolding parent_of
  parent_of-Settles c m (md, e) = Settles-then (Settles-in_range e) (λ x p.
      Settles-then (Settles-of_option x.parent (λ q f. f)) (λ q f. is_found (w.above c m x q p f)))

  extern_root-Settles : (name : String) → Settles (IsValid ix) (of_option (extern_root ix name))
  unfolding extern_root of_option
  extern_root-Settles name = by_crate (value_of name ix.crate_by_name) refl
    where
      others :
          (b d : Bool)
          → Settles (IsValid ix) (
              of_option
                (if b then some (rsactor_name "") else if d then some (std_name "std") else none))
      others true d = is_found tt
      others false true = is_found tt
      others false false = is_missing

      by_crate :
          (o : Option ℕ)
          → value_of name ix.crate_by_name ≡ o
          → Settles (IsValid ix) (
              of_option (elim o [
                | some c ↦ some (in_module c 0)
                | none ↦
                    if name == "rsactor"
                    then some (rsactor_name "")
                    else if contains name ("std" ∷ "core" ∷ "alloc" ∷ [])
                    then some (std_name "std")
                    else none
              ]))
      by_crate none e = others (name == "rsactor") (contains name ("std" ∷ "core" ∷ "alloc" ∷ []))
      by_crate (some c) e = is_found (w.rooted name c e)

  prelude-Settles : (name : String) → Settles (IsValid ix) (of_option (prelude name))
  unfolding prelude of_option
  prelude-Settles name = by_path (value_of name std_prelude) (contains name primitives)
    where
      by_path :
          (o : Option String) (b : Bool)
          → Settles (IsValid ix) (
              of_option (elim o [
                | some path ↦ some (std_name path)
                | none ↦ if b then some (std_name name) else none
              ]))
      by_path (some path) b = is_found tt
      by_path none true = is_found tt
      by_path none false = is_missing

  module _ (look : ℕ → ℕ → String → Lookup Res) (names : List String)
      (looks : (c m : ℕ) (n : String)
        → IsModule ix c m
        → Memᴰ n names
        → Settles (IsValid ix) (look c m n)) where
    step-Settles :
        (r : Res) (s : String)
        → IsValid ix r
        → Memᴰ s names
        → Settles (IsValid ix) (step ix look r s)
    unfolding step
    step-Settles (in_module c m) s v n =
        Settles-if (s == "super") (parent_of-Settles c m v)
          (Settles-if (s == "self") (is_found v) (looks c m s v n))
    step-Settles (declaration id) s v n = variant_of-Settles id s v
    step-Settles (rsactor_name name) s v n = is_found tt
    step-Settles (std_name prefix) s v n = is_found tt
    step-Settles (external_name prefix) s v n = is_found tt
    step-Settles (variant id name) s v n = is_missing
    step-Settles (value_name path) s v n = is_missing

    pub steps-Settles :
        (r : Res) (path : List String)
        → IsValid ix r
        → Within path names
        → Settles (IsValid ix) (steps ix look r path)
    unfolding steps
    steps-Settles r [] v n = is_found v
    steps-Settles r (s ∷ rest) v n =
        Settles-then (step-Settles r s v (n s (Memᴰ.head refl)))
          (λ q u. steps-Settles q rest u (λ x m. n x (Memᴰ.tail m)))

    root-Settles :
        (c m : ℕ) (first : String) (colon : Bool)
        → IsModule ix c m
        → Memᴰ first names
        → Settles (IsValid ix) (root ix look c m first colon)
    unfolding root
    root-Settles c m first colon v n = Settles-if colon (extern_root-Settles first) (
        Settles-if (first == "crate") (is_found (IsModule-root ix c m v)) (
          Settles-if (first == "self") (is_found v) (
            Settles-if (first == "super") (parent_of-Settles c m v) (
              Settles-or (Settles-or (looks c m first v n) (extern_root-Settles first))
                (prelude-Settles first)))))

    pub resolve_exact-Settles :
        (c m : ℕ) (path : List String) (colon : Bool)
        → IsModule ix c m
        → Within path names
        → Settles (IsValid ix) (resolve_exact ix look c m path colon)
    unfolding resolve_exact
    resolve_exact-Settles c m [] colon v n = is_missing
    resolve_exact-Settles c m (first ∷ rest) colon v n =
        Settles-then (root-Settles c m first colon v (n first (Memᴰ.head refl)))
          (λ q u. steps-Settles q rest u (λ x k. n x (Memᴰ.tail k)))

    resolve_outside-Settles :
        (c m : ℕ) (path : List String) (colon : Bool)
        → IsModule ix c m
        → Within path names
        → Settles (IsValid ix) (resolve_outside ix look c m path colon)
    unfolding resolve_outside
    resolve_outside-Settles c m [] colon v n = is_missing
    resolve_outside-Settles c m (first ∷ rest) colon v n =
        let out = steps-Settles (external_name first) rest tt (λ x k. n x (Memᴰ.tail k)) in
        Settles-if colon out (Settles-when (looks c m first v (n first (Memᴰ.head refl))) out)

    pub resolve_use-Settles :
        (c m : ℕ) (path : List String) (colon : Bool)
        → IsModule ix c m
        → Within path names
        → Settles (IsValid ix) (resolve_use ix look c m path colon)
    unfolding resolve_use
    resolve_use-Settles c m path colon v n =
        Settles-or (resolve_exact-Settles c m path colon v n)
          (resolve_outside-Settles c m path colon v n)

    pub from_named-Settles :
        (c m : ℕ) (name : String) (imports : List Import)
        → IsModule ix c m
        → Within (import_names imports) names
        → Settles (IsValid ix) (from_named ix look c m name imports)
    unfolding from_named import_names
    from_named-Settles c m name [] v n = is_missing
    from_named-Settles c m name (named alias path colon ∷ imports) v n =
        let rest = from_named-Settles c m name imports v (λ x k. n x (Memᴰ.append_right path k)) in
        Settles-if (alias == name)
          (Settles-or (resolve_use-Settles c m path colon v (λ x k. n x (Memᴰ.append_left _ k)))
            rest)
          rest
    from_named-Settles c m name (glob path colon ∷ imports) v n =
        from_named-Settles c m name imports v (λ x k. n x (Memᴰ.append_right path k))

    pub through_glob-Settles :
        (name : String) (r : Res)
        → IsValid ix r
        → Memᴰ name names
        → Settles (IsValid ix) (through_glob ix look name r)
    unfolding through_glob
    through_glob-Settles name (in_module c m) v n = looks c m name v n
    through_glob-Settles name (declaration id) v n = variant_of-Settles id name v
    through_glob-Settles name (rsactor_name other) v n =
        Settles-if (contains name rsactor_names) (is_found tt) is_missing
    through_glob-Settles name (std_name path) v n = is_missing
    through_glob-Settles name (external_name path) v n = is_missing
    through_glob-Settles name (variant id other) v n = is_missing
    through_glob-Settles name (value_name path) v n = is_missing

    pub from_globs-Settles :
        (c m : ℕ) (name : String) (imports : List Import)
        → IsModule ix c m
        → Memᴰ name names
        → Within (import_names imports) names
        → Settles (IsValid ix) (from_globs ix look c m name imports)
    unfolding from_globs import_names
    from_globs-Settles c m name [] v k n = is_missing
    from_globs-Settles c m name (named alias path colon ∷ imports) v k n =
        from_globs-Settles c m name imports v k (λ x j. n x (Memᴰ.append_right path j))
    from_globs-Settles c m name (glob path colon ∷ imports) v k n =
        Settles-or
          (Settles-then (resolve_use-Settles c m path colon v (λ x j. n x (Memᴰ.append_left _ j)))
            (λ r u. through_glob-Settles name r u k))
          (from_globs-Settles c m name imports v k (λ x j. n x (Memᴰ.append_right path j)))
