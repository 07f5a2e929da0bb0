-- ===== src/ActorGraph/Resolve/Settled/Fuel.antt =====
-- The fuel and the answers of the lookups of rsactor-graph/src/resolve.rs.
use mathlib.Core.List.{Memᴰ}
use mathlib.Core.List.Memᴰ
use rsactor.Base.{
  unless-length, ℕ, zero, suc, ◌<◌, ◌≡◌, refl, inl, inr, String, false, Option, none, some, List,
  [], ◌∷◌, ◌++◌, length, get_elem?, if◌then◌else◌, ◌>>=◌, Bool-cases, arith,
}
use rsactor.Base.Text.{join}
use rsactor.ActorGraph.Render.Labels.{contains}
use rsactor.ActorGraph.Crates.{Module, Crate, module_path}
use rsactor.ActorGraph.Resolve.{
  Res, in_module, declaration, value_name, Scope, Index, value_of, module_of, scope_of,
}
use rsactor.ActorGraph.Resolve.Lookup.{
  Lookup, found, then_find, or_find, in_range, Key, is_active, value_path, from_named, from_globs,
  in_scope, lookup_inner, lookup,
}
use rsactor.ActorGraph.Resolve.Paths.{all_keys, import_names, all_names, look_from}
use rsactor.ActorGraph.Resolve.Settled.{
  Settles, is_found, is_missing, IsModule, IsValid, IsWellFormed, Settles-then, Settles-or,
  Settles-in_range, Settles-if,
}
use rsactor.ActorGraph.Resolve.Settled.Keys.{free, free-lt, all_keys-mem, all_names-Within}
use rsactor.ActorGraph.Resolve.Settled.Steps.{Within, from_named-Settles, from_globs-Settles}

module _ (ix : Index) (w : IsWellFormed ix) where
  value_path-Settles :
      (c m : ℕ) (name : String) → IsModule ix c m → Settles (IsValid ix) (value_path ix c m name)
  unfolding value_path module_of
  value_path-Settles c m name (md, e) = by_crate (get_elem? ix.crates c) md e
    where
      by_crate :
          (o : Option Crate) (md : Module)
          → (o >>= λ krate. get_elem? krate.modules m) ≡ some md
          → Settles (IsValid ix) (
              then_find (in_range o) (λ krate.
                then_find
                  (in_range (get_elem? krate.modules m))
                  (λ x. found (value_name (join "::" (module_path krate x ++ name ∷ []))))))
      by_crate none x f = cc
      by_crate (some krate) x f = Settles-then (Settles-in_range f) (λ y p. is_found tt)

  module _ (look : ℕ → ℕ → String → Lookup Res) (names : List String)
      (looks : (c m : ℕ) (n : String)
        → IsModule ix c m
        → Memᴰ n names
        → Settles (IsValid ix) (look c m n))
      (closed : (c m : ℕ) (s : Scope)
        → scope_of ix c m ≡ some s
        → Within (import_names s.imports) names) where
    in_scope-Settles :
        (c m : ℕ) (name : String) (s : Scope)
        → IsModule ix c m
        → Memᴰ name names
        → scope_of ix c m ≡ some s
        → Settles (IsValid ix) (in_scope ix look c m name s)
    unfolding in_scope
    in_scope-Settles c m name s v n e = by_type (value_of name s.types) refl
      where
        within : Settles (IsValid ix) (
            or_find (from_named ix look c m name s.imports) (from_globs ix look c m name s.imports))
        within =
            Settles-or
              (from_named-Settles ix w look names looks c m name s.imports v (closed c m s e))
              (from_globs-Settles ix w look names looks c m name s.imports v n (closed c m s e))

        by_type :
            (o : Option ℕ)
            → value_of name s.types ≡ o
            → Settles (IsValid ix) (elim o [
              | some id ↦ found (declaration id)
              | none ↦
                  if contains name s.values
                  then value_path ix c m name
                  else or_find
                      (from_named ix look c m name s.imports)
                      (from_globs ix look c m name s.imports)
            ])
        by_type (some id) f = is_found (w.typed c m s name id v e f)
        by_type none f = Settles-if (contains name s.values) (value_path-Settles c m name v) within

    lookup_inner-Settles :
        (c m : ℕ) (name : String)
        → IsModule ix c m
        → Memᴰ name names
        → Settles (IsValid ix) (lookup_inner ix look c m name)
    unfolding lookup_inner
    lookup_inner-Settles c m name v n =
        Settles-then (Settles-in_range v.1) (λ md p. by_child md p (value_of name md.children) refl)
      where
        scope : (s : Scope) × (scope_of ix c m ≡ some s)
        scope = w.scoped c m v

        by_child :
            (md : Module)
            → module_of ix c m ≡ some md
            → (o : Option ℕ) → value_of name md.children ≡ o
            → Settles (IsValid ix) (elim o [
              | some child ↦ found (in_module c child)
              | none ↦ then_find (in_range (scope_of ix c m)) (in_scope ix look c m name)
            ])
        by_child md p (some child) f = is_found (w.below c m md name child p f)
        by_child md p none f =
            Settles-then (Settles-in_range scope.1) (λ s e. in_scope-Settles c m name s v n e)

  module _ (names : List String)
      (closed : (c m : ℕ) (s : Scope)
        → scope_of ix c m ≡ some s
        → Within (import_names s.imports) names) where
    pub lookup-Settles :
        (fuel : ℕ) (active : List Key)
        → free (all_keys 0 ix.crates names) active < fuel
        → (c m : ℕ) (name : String) → IsModule ix c m
        → Memᴰ name names
        → Settles (IsValid ix) (lookup ix fuel active c m name)
    unfolding lookup
    lookup-Settles zero active h c m name v n = absurd (omega arith)
    lookup-Settles (suc fuel) active h c m name v n = elim (Bool-cases (is_active key active)) [
      | inl y ↦ rw (y, lookup) is_missing
      | inr new ↦
          rw (new, lookup)
            (lookup_inner-Settles (lookup ix fuel (key ∷ active)) names
              (lookup-Settles fuel (key ∷ active) (omega (arith, less new))) closed c m name v n)
    ]
      where
        key : Key
        key = record { krate = c; module_id = m; name = name }

        less :
            is_active key active ≡ false
            → free (all_keys 0 ix.crates names) (key ∷ active)
              < free (all_keys 0 ix.crates names) active
        less =
            free-lt (all_keys 0 ix.crates names) active key
              (all_keys-mem 0 c m c name names ix.crates v.0 (omega arith) v.1 n)

  -- a lookup at the top, with the fuel it is given there
  pub look_from-Settles :
      (segments : List String) (c m : ℕ) (name : String)
      → IsModule ix c m
      → Memᴰ name (segments ++ all_names ix.scopes)
      → Settles (IsValid ix) (look_from ix segments c m name)
  unfolding look_from
  look_from-Settles segments c m name v n =
      lookup-Settles (segments ++ all_names ix.scopes) closed
        (suc (length (all_keys 0 ix.crates (segments ++ all_names ix.scopes)))) []
        (omega (
          arith,
          unless-length (λ k. is_active k [])
              (all_keys 0 ix.crates (segments ++ all_names ix.scopes)),
        ))
        c m name v n
    where
      closed :
          (c m : ℕ) (s : Scope)
          → scope_of ix c m ≡ some s
          → Within (import_names s.imports) (segments ++ all_names ix.scopes)
      closed c m s e x k = Memᴰ.append_right segments (all_names-Within ix.scopes c m s e x k)
