-- ===== src/ActorGraph/Resolve/Paths.antt =====
-- The paths that rsactor-graph/src/resolve.rs resolves, with the fallback to the only type of a name
-- and the imports of blocks.
use rsactor.Base.{
  ℕ, zero, suc, String, Bool, true, false, not, ◌&&◌, ◌||◌, Option, none, some, List, [], ◌∷◌, ◌++◌,
  map, length, get_last?, if◌then◌else◌,
}
use rsactor.Base as Base
use rsactor.ActorGraph.Crates.{Module, Crate}
use rsactor.ActorGraph.Resolve.{
  Res, in_module, declaration, variant, rsactor_name, std_name, external_name, value_name, Import,
  named, glob, Scope, Index, scope_of,
}
use rsactor.ActorGraph.Resolve.Lookup.{
  Lookup, found, missing, out_of_range, exhausted, then_find, in_range, Key, lookup, resolve_use,
}

-- The keys that a lookup can meet: each module with each name that a path or an import can ask for.
-- There are finitely many, so a lookup that guards them ends, and their number is fuel enough.
module _ where
  unfoldable pub module_keys : ℕ → ℕ → List String → List Key
  module_keys c m names = map (λ name. record { krate = c; module_id = m; name = name }) names

  unfoldable pub crate_keys : ℕ → ℕ → List Module → List String → List Key
  unfolding module_keys
  crate_keys c m [] names = []
  crate_keys c m (md ∷ modules) names = module_keys c m names ++ crate_keys c (suc m) modules names

  unfoldable pub all_keys : ℕ → List Crate → List String → List Key
  unfolding crate_keys
  all_keys c [] names = []
  all_keys c (krate ∷ crates) names =
      crate_keys c 0 krate.modules names ++ all_keys (suc c) crates names

  unfoldable pub import_names : List Import → List String
  import_names [] = []
  import_names (named alias path colon ∷ imports) = path ++ import_names imports
  import_names (glob path colon ∷ imports) = path ++ import_names imports

  unfoldable pub scopes_names : List Scope → List String
  unfolding import_names
  scopes_names [] = []
  scopes_names (s ∷ scopes) = import_names s.imports ++ scopes_names scopes

  unfoldable pub all_names : List (List Scope) → List String
  unfolding scopes_names
  all_names [] = []
  all_names (scopes ∷ rest) = scopes_names scopes ++ all_names rest

-- a place is a crate and a module in it
unfoldable pub is_visited : ℕ → ℕ → List (ℕ × ℕ) → Bool
is_visited c m [] = false
is_visited c m ((k, n) ∷ visited) =
    let rest = is_visited c m visited in if (Base.◌==◌ c k) && (Base.◌==◌ m n) then true else rest

module _ (ix : Index) where
  -- a lookup for paths of these segments, outside of any other
  unfoldable pub look_from : List String → ℕ → ℕ → String → Lookup Res
  unfolding all_keys all_names lookup
  look_from segments =
      lookup ix (suc (length (all_keys 0 ix.crates (segments ++ all_names ix.scopes)))) []

  module _ (look : ℕ → ℕ → String → Lookup Res) where
    -- the loop over the imports, with the set `visited` passed along
    module _ (go : ℕ → ℕ → List (ℕ × ℕ) → Lookup (Bool × List (ℕ × ℕ))) where
      unfoldable pub outside_of : Lookup Res → List (ℕ × ℕ) → Lookup (Bool × List (ℕ × ℕ))
      outside_of (found (in_module c m)) visited = go c m visited
      outside_of (found (rsactor_name name)) visited = found (false, visited)
      outside_of (found (declaration id)) visited = found (false, visited)
      outside_of (found (std_name path)) visited = found (true, visited)
      outside_of (found (external_name path)) visited = found (true, visited)
      outside_of (found (variant id name)) visited = found (true, visited)
      outside_of (found (value_name path)) visited = found (true, visited)
      outside_of missing visited = found (true, visited)
      outside_of out_of_range visited = out_of_range
      outside_of exhausted visited = exhausted

      unfoldable pub some_outside :
          ℕ → ℕ → List Import → List (ℕ × ℕ) → Lookup (Bool × List (ℕ × ℕ))
      unfolding resolve_use outside_of then_find
      some_outside c m [] visited = found (false, visited)
      some_outside c m (named alias path colon ∷ imports) visited = some_outside c m imports visited
      some_outside c m (glob path colon ∷ imports) visited =
          then_find (outside_of (resolve_use ix look c m path colon) visited)
            (λ r. if r.0 then found (true, r.1) else some_outside c m imports r.1)

    -- each call that goes on visits another module
    unfoldable pub glob_reaches_outside : ℕ → ℕ → ℕ → List (ℕ × ℕ) → Lookup (Bool × List (ℕ × ℕ))
    unfolding is_visited some_outside scope_of in_range then_find
    glob_reaches_outside zero c m visited = exhausted
    glob_reaches_outside (suc fuel) c m visited =
        let inner =
          then_find (in_range (scope_of ix c m))
            (λ s. some_outside (glob_reaches_outside fuel) c m s.imports ((c, m) ∷ visited)) in
        if is_visited c m visited then found (false, visited) else inner
