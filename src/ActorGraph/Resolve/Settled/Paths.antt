-- ===== src/ActorGraph/Resolve/Settled/Paths.antt =====
-- The answers of the path lookups of rsactor-graph/src/resolve.rs in a well-formed index.
use mathlib.Core.List.{Memᴰ}
use mathlib.Core.List.Memᴰ
use rsactor.Base.{
  ℕ, suc, ◌≡◌, refl, String, arith, Bool, true, not, ◌&&◌, Option, none, some, List, [], ◌∷◌, ◌++◌,
  get_last?, if◌then◌else◌,
}
use rsactor.ActorGraph.Render.Labels.{contains}
use rsactor.ActorGraph.Resolve.{
  Res, declaration, Resolved, Import, named, glob, Index, Scope, value_of, scope_of,
}
use rsactor.ActorGraph.Resolve.Lookup.{Lookup, found, missing, or_find, resolve_use}
use rsactor.ActorGraph.Resolve.Paths.{
  all_keys, all_names, import_names, look_from, glob_reaches_outside,
}
use rsactor.ActorGraph.Resolve.Segments.{
  is_empty, named_path, reversed, module_fuel, outside, only_declared, fall_back, inexact,
  resolve_with, resolve_segments_inner, resolve_segments, block_globs, in_blocks, block_outside,
  blocks_outside, after_blocks, resolve_segments_scoped,
}
use rsactor.ActorGraph.Resolve.Settled.{
  Settles, is_found, is_missing, IsModule, IsValid, IsWellFormed, Settles-then, Settles-when,
  Settles-or, Settles-if,
}
use rsactor.ActorGraph.Resolve.Settled.Keys.{all_names-Within}
use rsactor.ActorGraph.Resolve.Settled.Steps.{Within, resolve_exact-Settles, resolve_use-Settles}
use rsactor.ActorGraph.Resolve.Settled.Fuel.{look_from-Settles}
use rsactor.ActorGraph.Resolve.Settled.Globs.{unvisited, outside_of-Settles, search-Settles}

abbrev pub IsAnswer : Index → Resolved → Type 0
IsAnswer ix r = IsValid ix r.res

abbrev Any : {A : Type 0} → A → Type 0
Any a = Unit {0}

module _ (ix : Index) (w : IsWellFormed ix) where
  only_declared-Settles :
      (look : ℕ → ℕ → String → Lookup Res) (last : String)
      → Settles (IsAnswer ix) (only_declared ix look last)
  unfolding only_declared
  only_declared-Settles look last = by_ids (value_of last ix.by_last_segment) refl
    where
      by_ids :
          (o : Option (List ℕ))
          → value_of last ix.by_last_segment ≡ o
          → Settles (IsAnswer ix) (elim o [
            | some (id ∷ []) ↦ found (record { res = declaration id; is_inferred = true })
            | some (id ∷ other ∷ ids) ↦ missing
            | some [] ↦ missing
            | none ↦ missing
          ])
      by_ids none e = is_missing
      by_ids (some []) e = is_missing
      by_ids (some (id ∷ [])) e = is_found (w.listed last (id ∷ []) id e (Memᴰ.head refl))
      by_ids (some (id ∷ other ∷ ids)) e = is_missing

  module _ (look : ℕ → ℕ → String → Lookup Res) (names : List String)
      (looks : (c m : ℕ) (n : String)
        → IsModule ix c m
        → Memᴰ n names
        → Settles (IsValid ix) (look c m n))
      (closed : (c m : ℕ) (s : Scope)
        → scope_of ix c m ≡ some s
        → Within (import_names s.imports) names) where
    fall_back-Settles :
        (c m : ℕ) (last : Option String) (allow : Bool)
        → IsModule ix c m
        → Settles (IsAnswer ix) (fall_back ix look c m last allow)
    unfolding fall_back outside
    fall_back-Settles c m none allow v = is_missing
    fall_back-Settles c m (some last) allow v =
        Settles-if allow
          (Settles-then
            (Settles-then {Q = Any} (search-Settles ix w look names looks closed c m [] v)
              (λ r h. is_found tt))
            (λ o h. Settles-if o is_missing (only_declared-Settles look last)))
          is_missing

    inexact-Settles :
        (c m : ℕ) (segments : List String) (allow : Bool)
        → IsModule ix c m
        → Within segments names
        → Settles (IsAnswer ix) (inexact ix look c m segments allow)
    unfolding inexact
    inexact-Settles c m [] allow v n = is_missing
    inexact-Settles c m (first ∷ rest) allow v n =
        let back = fall_back-Settles c m (get_last? (first ∷ rest)) allow v in
        Settles-if
          (not (is_empty rest) && not (contains first ("crate" ∷ "self" ∷ "super" ∷ "Self" ∷ [])))
          (Settles-or (Settles-when (looks c m first v (n first (Memᴰ.head refl))) (is_found tt))
            back)
          back

    pub resolve_with-Settles :
        (c m : ℕ) (segments : List String) (colon allow : Bool)
        → IsModule ix c m
        → Within segments names
        → Settles (IsAnswer ix) (resolve_with ix look c m segments colon allow)
    unfolding resolve_with
    resolve_with-Settles c m segments colon allow v n =
        Settles-or
          (Settles-then (resolve_exact-Settles ix w look names looks c m segments colon v n)
            (λ r u. is_found u))
          (inexact-Settles c m segments allow v n)

  -- every scope's names are among those that a lookup for `segments` can meet
  pub closed_from :
      (segments : List String) (c m : ℕ) (s : Scope)
      → scope_of ix c m ≡ some s
      → Within (import_names s.imports) (segments ++ all_names ix.scopes)
  unfolding scope_of
  closed_from segments c m s e x k =
      Memᴰ.append_right segments (all_names-Within ix.scopes c m s e x k)

  resolve_segments_inner-Settles :
      (c m : ℕ) (segments : List String) (colon allow : Bool)
      → IsModule ix c m
      → Settles (IsAnswer ix) (resolve_segments_inner ix c m segments colon allow)
  unfolding resolve_segments_inner
  resolve_segments_inner-Settles c m segments colon allow v =
      resolve_with-Settles (look_from ix segments) (segments ++ all_names ix.scopes)
        (look_from-Settles ix w segments) (closed_from segments) c m segments colon allow v
        (λ x k. Memᴰ.append_left _ k)

  block_globs-Settles :
      (c m : ℕ) (first : String) (imports : List Import)
      → IsModule ix c m
      → Settles (IsAnswer ix) (block_globs ix c m first imports)
  unfolding block_globs
  block_globs-Settles c m first [] v = is_missing
  block_globs-Settles c m first (named alias path colon ∷ imports) v =
      block_globs-Settles c m first imports v
  block_globs-Settles c m first (glob path colon ∷ imports) v =
      Settles-or
        (Settles-then
          (resolve_exact-Settles ix w (look_from ix (path ++ first ∷ []))
            ((path ++ first ∷ []) ++ all_names ix.scopes)
            (look_from-Settles ix w (path ++ first ∷ [])) c m (path ++ first ∷ []) colon v
            (λ x k. Memᴰ.append_left _ k))
          (λ r u. is_found u))
        (block_globs-Settles c m first imports v)

  in_blocks-Settles :
      (c m : ℕ) (first : String) (rest : List String) (blocks : List (List Import))
      (after : Lookup Resolved)
      → IsModule ix c m
      → Settles (IsAnswer ix) after
      → Settles (IsAnswer ix) (in_blocks ix c m first rest blocks after)
  unfolding in_blocks resolve_segments
  in_blocks-Settles c m first rest [] after v h = h
  in_blocks-Settles c m first rest (imports ∷ blocks) after v h =
      by_name (named_path first imports) (in_blocks-Settles c m first rest blocks after v h)
    where
      by_name :
          (o : Option (List String × Bool))
          → Settles (IsAnswer ix) (in_blocks ix c m first rest blocks after)
          → Settles (IsAnswer ix) (elim o [
            | some (path, colon) ↦ resolve_segments ix c m (path ++ rest) colon
            | none ↦
                if is_empty rest
                then or_find
                    (block_globs ix c m first imports)
                    (in_blocks ix c m first rest blocks after)
                else in_blocks ix c m first rest blocks after
          ])
      by_name (some (path, colon)) next =
          resolve_segments_inner-Settles c m (path ++ rest) colon true v
      by_name none next =
          Settles-if (is_empty rest) (Settles-or (block_globs-Settles c m first imports v) next)
            next

  block_outside-Settles :
      (c m : ℕ) (imports : List Import)
      → IsModule ix c m
      → Settles Any (block_outside ix c m imports)
  unfolding block_outside
  block_outside-Settles c m [] v = is_found tt
  block_outside-Settles c m (named alias path colon ∷ imports) v =
      block_outside-Settles c m imports v
  block_outside-Settles c m (glob path colon ∷ imports) v =
      Settles-then
        (outside_of-Settles ix w look names (look_from-Settles ix w path)
          (suc (unvisited (all_keys 0 ix.crates ("" ∷ [])) []))
          (glob_reaches_outside ix look (module_fuel ix))
          (λ k n vs u b.
            search-Settles ix w look names (look_from-Settles ix w path) (closed_from path) k n vs
              u)
          (resolve_use ix look c m path colon) []
          (resolve_use-Settles ix w look names (look_from-Settles ix w path) c m path colon v
            (λ x k. Memᴰ.append_left _ k))
          (omega arith))
        (λ r h. Settles-if r.0 (is_found tt) (block_outside-Settles c m imports v))
    where
      look : ℕ → ℕ → String → Lookup Res
      look = look_from ix path

      names : List String
      names = path ++ all_names ix.scopes

  blocks_outside-Settles :
      (c m : ℕ) (blocks : List (List Import))
      → IsModule ix c m
      → Settles Any (blocks_outside ix c m blocks)
  unfolding blocks_outside
  blocks_outside-Settles c m [] v = is_found tt
  blocks_outside-Settles c m (imports ∷ blocks) v =
      Settles-then (block_outside-Settles c m imports v)
        (λ o h. Settles-if o (is_found tt) (blocks_outside-Settles c m blocks v))

  after_blocks-Settles :
      (c m : ℕ) (segments : List String) (colon : Bool) (blocks : List (List Import))
      → IsModule ix c m
      → Settles (IsAnswer ix) (after_blocks ix c m segments colon blocks)
  unfolding after_blocks
  after_blocks-Settles c m segments colon blocks v =
      Settles-then (blocks_outside-Settles c m blocks v)
        (λ o h. resolve_segments_inner-Settles c m segments colon (not o) v)

  -- In a well-formed index, a path that is resolved from a module and the imports of the blocks
  -- around it ends with nothing or with an answer that is there: a module of a crate, a declaration
  -- or a variant of one; or with a path that leads outside of the crates, or with one that names a
  -- value, such as a function, of which the index has no more to say. No index is out of range.
  pub resolve_answers :
      (c m : ℕ) (segments : List String) (colon : Bool) (blocks : List (List Import))
      → IsModule ix c m
      → Settles (IsAnswer ix) (resolve_segments_scoped ix c m segments colon blocks)
  unfolding resolve_segments_scoped resolve_segments
  resolve_answers c m [] colon blocks v =
      let all = resolve_segments_inner-Settles c m [] colon true v in
      Settles-if (is_empty blocks) all (Settles-if colon all is_missing)
  resolve_answers c m (first ∷ rest) colon blocks v =
      let all = resolve_segments_inner-Settles c m (first ∷ rest) colon true v in
      let after = after_blocks-Settles c m (first ∷ rest) colon blocks v in
      Settles-if (is_empty blocks) all (
        Settles-if colon all (
          Settles-if (contains first ("crate" ∷ "self" ∷ "super" ∷ [])) after
            (in_blocks-Settles c m first rest (reversed blocks []) _ v after)))
