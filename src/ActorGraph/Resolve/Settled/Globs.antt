-- ===== src/ActorGraph/Resolve/Settled/Globs.antt =====
-- The fuel of the search of rsactor-graph/src/resolve.rs through globs, by the modules that are not
-- visited yet.
use mathlib.Core.List.{Memᴰ}
use mathlib.Core.List.Memᴰ
use rsactor.Base.{
  unless, unless-lt, unless-length, ℕ, zero, suc, ◌<◌, ◌≤◌, ◌≡◌, refl, inl, inr, String, Bool, true,
  false, some, List, [], ◌∷◌, if◌then◌else◌, Bool-cases, arith,
}
use rsactor.ActorGraph.Resolve.{
  Res, in_module, declaration, variant, rsactor_name, std_name, external_name, value_name, Import,
  named, glob, Scope, Index, scope_of,
}
use rsactor.ActorGraph.Resolve.Lookup.{Lookup, found, missing, out_of_range, exhausted, Key}
use rsactor.ActorGraph.Resolve.Paths.{
  all_keys, import_names, is_visited, outside_of, some_outside, glob_reaches_outside,
}
use rsactor.ActorGraph.Resolve.Segments.{module_fuel}
use rsactor.ActorGraph.Resolve.Settled.{
  Settles, is_found, is_missing, IsModule, IsValid, IsWellFormed, Settles-then, Settles-in_range,
  Settles-weaken,
}
use rsactor.ActorGraph.Resolve.Settled.Keys.{all_keys-mem}
use rsactor.ActorGraph.Resolve.Settled.Steps.{Within, resolve_use-Settles}

-- the modules that are still to be visited
abbrev pub unvisited : List Key → List (ℕ × ℕ) → ℕ
unvisited keys visited = unless (λ k. is_visited k.krate k.module_id visited) keys

unvisited-lt :
    (keys : List Key) (visited : List (ℕ × ℕ)) (k : Key)
    → Memᴰ k keys
    → is_visited k.krate k.module_id visited ≡ false
    → unvisited keys ((k.krate, k.module_id) ∷ visited) < unvisited keys visited
unfolding is_visited
unvisited-lt keys visited k m h =
    unless-lt (λ x. is_visited x.krate x.module_id visited)
      (λ x. is_visited x.krate x.module_id ((k.krate, k.module_id) ∷ visited)) keys k
      (λ x e. ground arith) m h (ground arith)

module _ (ix : Index) (w : IsWellFormed ix) where
  -- the call leaves no more modules unvisited than there were
  abbrev Visits : List (ℕ × ℕ) → Bool × List (ℕ × ℕ) → Type 0
  Visits visited r =
      unvisited (all_keys 0 ix.crates ("" ∷ [])) r.1
      ≤ unvisited (all_keys 0 ix.crates ("" ∷ [])) visited

  module _ (look : ℕ → ℕ → String → Lookup Res) (names : List String)
      (looks : (c m : ℕ) (n : String)
        → IsModule ix c m
        → Memᴰ n names
        → Settles (IsValid ix) (look c m n)) where
    module _ (bound : ℕ) (go : ℕ → ℕ → List (ℕ × ℕ) → Lookup (Bool × List (ℕ × ℕ)))
        (goes : (c m : ℕ) (visited : List (ℕ × ℕ))
          → IsModule ix c m
          → unvisited (all_keys 0 ix.crates ("" ∷ [])) visited < bound
          → Settles (Visits visited) (go c m visited)) where
      pub outside_of-Settles :
          (l : Lookup Res) (visited : List (ℕ × ℕ))
          → Settles (IsValid ix) l
          → unvisited (all_keys 0 ix.crates ("" ∷ [])) visited < bound
          → Settles (Visits visited) (outside_of ix look go l visited)
      unfolding outside_of
      outside_of-Settles (found (in_module c m)) visited (is_found v) b = goes c m visited v b
      outside_of-Settles (found (declaration id)) visited (is_found v) b = is_found (omega arith)
      outside_of-Settles (found (variant id name)) visited (is_found v) b = is_found (omega arith)
      outside_of-Settles (found (rsactor_name name)) visited (is_found v) b = is_found (omega arith)
      outside_of-Settles (found (std_name path)) visited (is_found v) b = is_found (omega arith)
      outside_of-Settles (found (external_name path)) visited (is_found v) b =
          is_found (omega arith)
      outside_of-Settles (found (value_name path)) visited (is_found v) b = is_found (omega arith)
      outside_of-Settles missing visited is_missing b = is_found (omega arith)
      outside_of-Settles out_of_range visited h b = elim h [ ]
      outside_of-Settles exhausted visited h b = elim h [ ]

      some_outside-Settles :
          (c m : ℕ) (imports : List Import) (visited : List (ℕ × ℕ))
          → IsModule ix c m
          → Within (import_names imports) names
          → unvisited (all_keys 0 ix.crates ("" ∷ [])) visited < bound
          → Settles (Visits visited) (some_outside ix look go c m imports visited)
      unfolding some_outside import_names
      some_outside-Settles c m [] visited v n b = is_found (omega arith)
      some_outside-Settles c m (named alias path colon ∷ imports) visited v n b =
          some_outside-Settles c m imports visited v (λ x k. n x (Memᴰ.append_right path k)) b
      some_outside-Settles c m (glob path colon ∷ imports) visited v n b =
          Settles-then
            (outside_of-Settles _ visited
              (resolve_use-Settles ix w look names looks c m path colon v
                (λ x k. n x (Memᴰ.append_left _ k)))
              b)
            (λ r h. by_answer r h (
              some_outside-Settles c m imports r.1 v (λ x k. n x (Memᴰ.append_right path k))
                (omega arith)))
        where
          by_answer :
              (r : Bool × List (ℕ × ℕ))
              → Visits visited r
              → Settles (Visits r.1) (some_outside ix look go c m imports r.1)
              → Settles
                  (Visits visited)
                  (if r.0 then found (true, r.1) else some_outside ix look go c m imports r.1)
          by_answer (true, vs) h s = is_found h
          by_answer (false, vs) h s = Settles-weaken (λ a p. omega arith) s

    module _
        (closed : (c m : ℕ) (s : Scope)
          → scope_of ix c m ≡ some s
          → Within (import_names s.imports) names) where
      pub glob_reaches_outside-Settles :
          (fuel c m : ℕ) (visited : List (ℕ × ℕ))
          → IsModule ix c m
          → unvisited (all_keys 0 ix.crates ("" ∷ [])) visited < fuel
          → Settles (Visits visited) (glob_reaches_outside ix look fuel c m visited)
      unfolding glob_reaches_outside
      glob_reaches_outside-Settles zero c m visited v b = absurd (omega arith)
      glob_reaches_outside-Settles (suc fuel) c m visited v b =
          elim (Bool-cases (is_visited c m visited)) [
            | inl y ↦ rw (y, glob_reaches_outside) (is_found (omega arith))
            | inr new ↦
                rw (new, glob_reaches_outside)
                  (Settles-then (Settles-in_range scope.1) (λ s e.
                    Settles-weaken (λ r p. omega (arith, less new))
                      (some_outside-Settles fuel (glob_reaches_outside ix look fuel)
                        (λ c m vs. glob_reaches_outside-Settles fuel c m vs) c m s.imports
                        ((c, m) ∷ visited) v (closed c m s e) (omega (arith, less new)))))
          ]
        where
          scope : (s : Scope) × (scope_of ix c m ≡ some s)
          scope = w.scoped c m v

          less :
              is_visited c m visited ≡ false
              → unvisited (all_keys 0 ix.crates ("" ∷ [])) ((c, m) ∷ visited)
                < unvisited (all_keys 0 ix.crates ("" ∷ [])) visited
          less =
              unvisited-lt (all_keys 0 ix.crates ("" ∷ [])) visited
                (record { krate = c; module_id = m; name = "" })
                (all_keys-mem 0 c m c "" ("" ∷ []) ix.crates v.0 (omega arith) v.1 (Memᴰ.head refl))

      -- the fuel that each search is given
      pub search-Settles :
          (c m : ℕ) (visited : List (ℕ × ℕ))
          → IsModule ix c m
          → Settles (Visits visited) (glob_reaches_outside ix look (module_fuel ix) c m visited)
      search-Settles c m visited v = glob_reaches_outside-Settles (module_fuel ix) c m visited v (
          omega (
            arith,
            unless-length (λ k. is_visited k.krate k.module_id visited)
                (all_keys 0 ix.crates ("" ∷ [])),
          ))
