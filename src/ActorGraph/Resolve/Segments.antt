-- ===== src/ActorGraph/Resolve/Segments.antt =====
-- How rsactor-graph/src/resolve.rs resolves the segments of a path: exactly, as a path into another
-- crate, or as the only declared type with its last name.
use rsactor.Base.{
  ℕ, suc, String, Bool, true, false, not, ◌&&◌, Option, none, some, List, [], ◌∷◌, ◌++◌, length,
  get_last?, if◌then◌else◌,
}
use rsactor.Base.Text.{join}
use text.Mathlib.Text.{◌==◌}
use rsactor.ActorGraph.Render.Labels.{contains}
use rsactor.ActorGraph.Resolve.{
  Res, declaration, external_name, Resolved, Import, named, glob, Index, value_of,
}
use rsactor.ActorGraph.Resolve.Lookup.{
  Lookup, found, missing, then_find, when_missing, or_find, resolve_exact, resolve_use,
}
use rsactor.ActorGraph.Resolve.Paths.{all_keys, look_from, outside_of, glob_reaches_outside}

unfoldable pub is_empty : {A : Type 0} → List A → Bool
is_empty [] = true
is_empty (x ∷ xs) = false

abbrev pub exactly : Res → Lookup Resolved
exactly res = found (record { res = res; is_inferred = false })

-- the path that a `use` of a block gives a name
unfoldable pub named_path : String → List Import → Option (List String × Bool)
named_path first [] = none
named_path first (named alias path colon ∷ imports) =
    let rest = named_path first imports in if alias == first then some (path, colon) else rest
named_path first (glob path colon ∷ imports) = named_path first imports

unfoldable pub reversed : {A : Type 0} → List A → List A → List A
reversed [] acc = acc
reversed (x ∷ xs) acc = reversed xs (x ∷ acc)

module _ (ix : Index) where
  abbrev pub module_fuel : ℕ
  module_fuel = suc (length (all_keys 0 ix.crates ("" ∷ [])))

  module _ (look : ℕ → ℕ → String → Lookup Res) where
    -- with a new set of visited modules
    unfoldable pub outside : ℕ → ℕ → Lookup Bool
    unfolding glob_reaches_outside then_find
    outside c m = then_find (glob_reaches_outside ix look module_fuel c m []) (λ r. found r.0)

    unfoldable pub only_declared : String → Lookup Resolved
    unfolding value_of
    only_declared last = elim (value_of last ix.by_last_segment) [
      | some (id ∷ []) ↦ found (record { res = declaration id; is_inferred = true })
      | some (id ∷ other ∷ ids) ↦ missing
      | some [] ↦ missing
      | none ↦ missing
    ]

    -- the fallback, where it is allowed
    unfoldable pub fall_back : ℕ → ℕ → Option String → Bool → Lookup Resolved
    unfolding outside only_declared then_find
    fall_back c m none allow = missing
    fall_back c m (some last) allow =
        if allow
        then then_find (outside c m) (λ o. if o then missing else only_declared last)
        else missing

    unfoldable pub inexact : ℕ → ℕ → List String → Bool → Lookup Resolved
    unfolding fall_back or_find when_missing contains join is_empty
    inexact c m [] allow = missing
    inexact c m (first ∷ rest) allow =
        if not (is_empty rest) && not (contains first ("crate" ∷ "self" ∷ "super" ∷ "Self" ∷ []))
        then or_find
            (when_missing (look c m first) (exactly (external_name (join "::" (first ∷ rest)))))
            (fall_back c m (get_last? (first ∷ rest)) allow)
        else fall_back c m (get_last? (first ∷ rest)) allow

    unfoldable pub resolve_with : ℕ → ℕ → List String → Bool → Bool → Lookup Resolved
    unfolding resolve_exact inexact or_find then_find
    resolve_with c m segments colon allow =
        or_find (then_find (resolve_exact ix look c m segments colon) exactly)
          (inexact c m segments allow)

  unfoldable pub resolve_segments_inner : ℕ → ℕ → List String → Bool → Bool → Lookup Resolved
  unfolding look_from resolve_with
  resolve_segments_inner c m segments colon allow =
      resolve_with (look_from ix segments) c m segments colon allow

  unfoldable pub resolve_segments : ℕ → ℕ → List String → Bool → Lookup Resolved
  unfolding resolve_segments_inner
  resolve_segments c m segments colon = resolve_segments_inner c m segments colon true

  -- what the globs of a block bring in under a name
  unfoldable pub block_globs : ℕ → ℕ → String → List Import → Lookup Resolved
  unfolding look_from resolve_exact or_find then_find
  block_globs c m first [] = missing
  block_globs c m first (named alias path colon ∷ imports) = block_globs c m first imports
  block_globs c m first (glob path colon ∷ imports) =
      or_find
        (then_find
          (resolve_exact ix (look_from ix (path ++ first ∷ [])) c m (path ++ first ∷ []) colon)
          exactly)
        (block_globs c m first imports)

  -- the loop over the blocks, the innermost first, and what follows it
  unfoldable pub in_blocks :
      ℕ → ℕ → String → List String → List (List Import) → Lookup Resolved → Lookup Resolved
  unfolding named_path resolve_segments block_globs or_find is_empty
  in_blocks c m first rest [] after = after
  in_blocks c m first rest (imports ∷ blocks) after =
      let next = in_blocks c m first rest blocks after in
      elim (named_path first imports) [
        | some (path, colon) ↦ resolve_segments c m (path ++ rest) colon
        | none ↦ if is_empty rest then or_find (block_globs c m first imports) next else next
      ]

  -- whether a glob among the imports of a block leads outside
  unfoldable pub block_outside : ℕ → ℕ → List Import → Lookup Bool
  unfolding look_from resolve_use outside_of glob_reaches_outside then_find
  block_outside c m [] = found false
  block_outside c m (named alias path colon ∷ imports) = block_outside c m imports
  block_outside c m (glob path colon ∷ imports) =
      then_find
        (outside_of ix (look_from ix path) (glob_reaches_outside ix (look_from ix path) module_fuel)
          (resolve_use ix (look_from ix path) c m path colon) [])
        (λ r. if r.0 then found true else block_outside c m imports)

  unfoldable pub blocks_outside : ℕ → ℕ → List (List Import) → Lookup Bool
  unfolding block_outside then_find
  blocks_outside c m [] = found false
  blocks_outside c m (imports ∷ blocks) =
      then_find (block_outside c m imports)
        (λ o. if o then found true else blocks_outside c m blocks)

  unfoldable pub after_blocks : ℕ → ℕ → List String → Bool → List (List Import) → Lookup Resolved
  unfolding blocks_outside resolve_segments_inner then_find
  after_blocks c m segments colon blocks =
      then_find (blocks_outside c m blocks) (λ o. resolve_segments_inner c m segments colon (not o))

  unfoldable pub resolve_segments_scoped :
      ℕ → ℕ → List String → Bool → List (List Import) → Lookup Resolved
  unfolding resolve_segments in_blocks after_blocks reversed contains is_empty
  resolve_segments_scoped c m [] colon blocks =
      if is_empty blocks
      then resolve_segments c m [] colon
      else if colon
      then resolve_segments c m [] colon
      else missing
  resolve_segments_scoped c m (first ∷ rest) colon blocks =
      if is_empty blocks
      then resolve_segments c m (first ∷ rest) colon
      else if colon
      then resolve_segments c m (first ∷ rest) colon
      else if contains first ("crate" ∷ "self" ∷ "super" ∷ [])
      then after_blocks c m (first ∷ rest) colon blocks
      else in_blocks c m first rest (reversed blocks [])
          (after_blocks c m (first ∷ rest) colon blocks)
