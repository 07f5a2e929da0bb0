-- ===== src/ActorGraph/Resolve/Inferred.antt =====
-- When rsactor-graph/src/resolve.rs answers with the only type of a name.
use rsactor.Base.{
  ℕ, ◌≡◌, refl, sym, ◌∙◌, String, Bool, true, false, not, ◌&&◌, Option, none, some, List, [], ◌∷◌,
  get_last?, if◌then◌else◌,
}
use rsactor.ActorGraph.Render.Labels.{contains}
use rsactor.ActorGraph.Crates.{Crate}
use rsactor.ActorGraph.Resolve.{Res, declaration, Resolved, Index, value_of}
use rsactor.ActorGraph.Resolve.Build.{build}
use rsactor.ActorGraph.Resolve.Build.Named.{ids_named, ids_of-some}
use rsactor.ActorGraph.Resolve.Build.WellFormed.{build_lists}
use rsactor.ActorGraph.Resolve.Lookup.{
  Lookup, found, missing, out_of_range, exhausted, then_find, or_find, resolve_exact,
}
use rsactor.ActorGraph.Resolve.Paths.{look_from}
use rsactor.ActorGraph.Resolve.Segments.{
  exactly, is_empty, outside, only_declared, fall_back, inexact, resolve_with,
  resolve_segments_inner, resolve_segments,
}
use rsactor.ActorGraph.Resolve.Answers.{
  Answers, with_answer, with_none, with_panic, with_fuel, Answers-weaken, Answers-or, Answers-when,
  Answers-if, answer_of,
}

module _ (ix : Index) (look : ℕ → ℕ → String → Lookup Res) (c m : ℕ) where
  -- An inferred answer is the only declaration that is listed under the last name, and no glob leads
  -- outside.
  abbrev IsOnly : Option String → Resolved → Type 0
  IsOnly last r =
      r.is_inferred ≡ true
      → (name : String) × (id : ℕ) × (last ≡ some name)
        × (r.res ≡ declaration id)
        × (value_of name ix.by_last_segment ≡ some (id ∷ []))
        × (outside ix look c m ≡ found false)

  fall_back-Answers :
      (last : Option String) (allow : Bool)
      → Answers (IsOnly last) (fall_back ix look c m last allow)
  unfolding fall_back then_find only_declared
  fall_back-Answers none allow = with_none
  fall_back-Answers (some last) false = with_none
  fall_back-Answers (some last) true = by_outside (outside ix look c m) refl
    where
      by_ids :
          (o : Option (List ℕ))
          → value_of last ix.by_last_segment ≡ o
          → outside ix look c m ≡ found false
          → Answers (IsOnly (some last)) (elim o [
            | some (id ∷ []) ↦ found (record { res = declaration id; is_inferred = true })
            | some (id ∷ other ∷ ids) ↦ missing
            | some [] ↦ missing
            | none ↦ missing
          ])
      by_ids none e q = with_none
      by_ids (some []) e q = with_none
      by_ids (some (id ∷ [])) e q = with_answer (λ i. (last, id, refl, refl, e, q))
      by_ids (some (id ∷ other ∷ ids)) e q = with_none

      by_outside :
          (l : Lookup Bool)
          → outside ix look c m ≡ l
          → Answers
              (IsOnly (some last))
              (then_find l (λ o. if o then missing else only_declared ix look last))
      by_outside (found true) q = with_none
      by_outside (found false) q = by_ids (value_of last ix.by_last_segment) refl q
      by_outside missing q = with_none
      by_outside out_of_range q = with_panic
      by_outside exhausted q = with_fuel

  inexact-Answers :
      (segments : List String) (allow : Bool)
      → Answers (IsOnly (get_last? segments)) (inexact ix look c m segments allow)
  unfolding inexact
  inexact-Answers [] allow = with_none
  inexact-Answers (first ∷ rest) allow =
      let back = fall_back-Answers (get_last? (first ∷ rest)) allow in
      Answers-if
        (not (is_empty rest) && not (contains first ("crate" ∷ "self" ∷ "super" ∷ "Self" ∷ [])))
        (Answers-or (Answers-when (look c m first) (with_answer (λ i. cc))) back) back

  resolve_with-Answers :
      (segments : List String) (colon allow : Bool)
      → Answers
          (λ r.
            r.is_inferred ≡ true
            → (resolve_exact ix look c m segments colon ≡ missing) × IsOnly (get_last? segments) r)
          (resolve_with ix look c m segments colon allow)
  unfolding resolve_with
  resolve_with-Answers segments colon allow =
      by_exact (resolve_exact ix look c m segments colon) refl
    where
      by_exact :
          (l : Lookup Res)
          → resolve_exact ix look c m segments colon ≡ l
          → Answers
              (λ r.
                r.is_inferred ≡ true
                → (resolve_exact ix look c m segments colon ≡ missing)
                  × IsOnly (get_last? segments) r)
              (or_find (then_find l exactly) (inexact ix look c m segments allow))
      by_exact (found res) q = with_answer (λ i. cc)
      by_exact missing q = Answers-weaken (λ r h i. (q, h)) (inexact-Answers segments allow)
      by_exact out_of_range q = with_panic
      by_exact exhausted q = with_fuel

-- In the index of any crates, a path resolves to an inferred answer only where it does not resolve
-- exactly, no glob of its module leads outside of the crates, and the answer is the declaration of
-- its last name that is the only one of this name in all crates.
pub inferred_answer :
    (crates : List Crate) (c m : ℕ) (segments : List String) (colon : Bool) (r : Resolved)
    → resolve_segments (build crates) c m segments colon ≡ found r
    → r.is_inferred ≡ true
    → (resolve_exact (build crates) (look_from (build crates) segments) c m segments colon
        ≡ missing)
      × (name : String) × (id : ℕ) × (get_last? segments ≡ some name)
      × (r.res ≡ declaration id)
      × (ids_named name 0 (build crates).decls ≡ id ∷ [])
      × (outside (build crates) (look_from (build crates) segments) c m ≡ found false)
unfolding resolve_segments resolve_segments_inner
inferred_answer crates c m segments colon r e i =
    let (q, only) =
      answer_of r
        (resolve_with-Answers (build crates) (look_from (build crates) segments) c m segments colon
          true)
        e i in
    let (name, id, last, res, listed, within) = only i in
    (
      q,
      name,
      id,
      last,
      res,
      sym (build_lists crates name)
          ∙ ids_of-some name (build crates).by_last_segment (id ∷ []) listed,
      within,
    )
