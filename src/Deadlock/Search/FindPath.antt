-- ===== src/Deadlock/Search/FindPath.antt =====
-- `find_path` of src/deadlock.rs: it makes the rounds of `has_path`, and returns a walk of the graph.
use mathlib.Core.List.{Memᴰ}
use rsactor.Base.{
  ℕ, zero, suc, ◌≡◌, refl, ap, ◌∙◌, subst, ◌⊎◌, inl, inr, Bool, true, false, Option, none, some,
  List, [], ◌∷◌, ◌++◌, get_last?, get_last?-concat, ◌==◌, Bool-cases, map, arith,
}
use rsactor.Identity.{Identity}
use rsactor.Deadlock.Graph.{Graph, callees}
use rsactor.Deadlock.Graph.Paths.{Reach}
use rsactor.Deadlock.Search.{
  member, enough, push_ids, path_loop, has_path, Found, found, not_found, empty_path, out_of_fuel,
  push_paths, find_loop, find_path,
}
use rsactor.Deadlock.Search.HasPath.{path_loop_ends, has_path_correct}

-- `path` follows edges of the graph from `start`, and ends with `last`.
pub data Walk (g : Graph) (start : Identity) : List Identity → Identity → Type 0 where
  single : Walk g start (start ∷ []) start
  extend :
      {path : List Identity} {last next : Identity}
      → Walk g start path last
      → Memᴰ next (callees g last.id)
      → Walk g start (path ++ next ∷ []) next

Walk-last :
    {g : Graph} {start last : Identity} {path : List Identity}
    → Walk g start path last
    → get_last? path ≡ some last
Walk-last single = refl
Walk-last (extend {path} {next} w m) = get_last?-concat path next

end_id : List Identity → ℕ
end_id path = elim (get_last? path) [ none ↦ 0 | some c ↦ c.id ]

end_id-Walk :
    {g : Graph} {start last : Identity} {path : List Identity}
    → Walk g start path last
    → end_id path ≡ last.id
unfolding end_id
end_id-Walk w = rw (Walk-last w, end_id)

end_id-concat : (path : List Identity) (c : Identity) → end_id (path ++ c ∷ []) ≡ c.id
unfolding end_id
end_id-concat path c = rw (get_last?-concat path c, end_id)

abbrev end_ids : List (List Identity) → List ℕ
end_ids = map end_id

module _ (g : Graph) (start : Identity) (target : ℕ) where
  abbrev pub Answer : List Identity → Type 0
  Answer path = (last : Identity) × Walk g start path last × (last.id ≡ target)

  abbrev AllWalks : List (List Identity) → Type 0
  AllWalks [] = Unit {0}
  AllWalks (path ∷ stack) = ((last : Identity) × Walk g start path last) × AllWalks stack

  -- The two loops give the same answer.
  abbrev Agrees : Option Bool → Found → Type 0
  Agrees none out_of_fuel = Unit {0}
  Agrees (some false) not_found = Unit {0}
  Agrees (some true) (found path) = Answer path
  Agrees _ _ = ⊥

  end_ids-push_paths :
      (path : List Identity) (cs : List Identity) (stack : List (List Identity))
      → end_ids (push_paths path cs stack) ≡ push_ids cs (end_ids stack)
  unfolding push_paths push_ids
  end_ids-push_paths path [] stack = refl
  end_ids-push_paths path (c ∷ cs) stack =
      end_ids-push_paths path cs ((path ++ c ∷ []) ∷ stack)
      ∙ ap (λ (k : ℕ). push_ids cs (k ∷ end_ids stack)) (end_id-concat path c)

  AllWalks-push_paths :
      (path : List Identity) (last : Identity) (cs : List Identity) (stack : List (List Identity))
      → Walk g start path last
      → ((c : Identity) → Memᴰ c cs → Memᴰ c (callees g last.id))
      → AllWalks stack
      → AllWalks (push_paths path cs stack)
  unfolding push_paths
  AllWalks-push_paths path last [] stack w sub all = all
  AllWalks-push_paths path last (c ∷ cs) stack w sub all =
      AllWalks-push_paths path last cs ((path ++ c ∷ []) ∷ stack) w (λ d m. sub d (Memᴰ.tail m))
        ((c, extend w (sub c (Memᴰ.head refl))), all)

  find_loop-Agrees :
      (fuel : ℕ) (stack : List (List Identity)) (visited : List ℕ)
      → AllWalks stack
      → Agrees
          (path_loop g target fuel (end_ids stack) visited)
          (find_loop g target fuel stack visited)
  unfolding path_loop find_loop
  find_loop-Agrees zero stack visited all = tt
  find_loop-Agrees (suc fuel) [] visited all = tt
  find_loop-Agrees (suc fuel) (path ∷ stack) visited ((last, w), all) =
      rw (Walk-last w, end_id-Walk w, find_loop, path_loop)
        (elim (Bool-cases (last.id == target)) [
          | inl hit ↦ rw (hit, path_loop, find_loop) (last, w, ground arith)
          | inr miss ↦ elim (Bool-cases (member last.id visited)) [
            | inl old ↦
                rw (miss, end_id-Walk w, old, path_loop, find_loop)
                  (find_loop-Agrees fuel stack visited all)
            | inr new ↦
                rw
                  (
                    miss,
                    end_id-Walk w,
                    new,
                    path_loop,
                    find_loop,
                    end_id-Walk w,
                    ← end_ids-push_paths path (callees g last.id) stack,
                  )
                  (find_loop-Agrees fuel (push_paths path (callees g last.id) stack)
                    (last.id ∷ visited)
                    (AllWalks-push_paths path last (callees g last.id) stack w (λ c m. m) all))
          ]
        ])

-- `find_path` always returns: a walk of the graph from `start` to the actor `target` where one
-- exists, and otherwise `None`.
pub find_path_correct :
    (g : Graph) (start : Identity) (target : ℕ)
    → ((path : List Identity) × (find_path g start target ≡ found path)
        × Answer g start target path)
      ⊎ ((find_path g start target ≡ not_found) × (¬ Reach g start.id target))
unfolding find_path end_id has_path
find_path_correct g start target =
    let (b, e) = path_loop_ends g start.id target in
    answer b (find_path g start target)
      (subst (λ o. Agrees g start target o (find_path g start target)) e
        (find_loop-Agrees g start target (enough g) ((start ∷ []) ∷ []) [] ((start, single), tt)))
      refl (rw (e, has_path))
  where
    answer :
        (b : Bool) (r : Found)
        → Agrees g start target (some b) r
        → find_path g start target ≡ r
        → (has_path g start.id target ≡ b)
        → ((path : List Identity) × (find_path g start target ≡ found path)
            × Answer g start target path)
          ⊎ ((find_path g start target ≡ not_found) × (¬ Reach g start.id target))
    answer true (found path) a e h = inl (path, e, a)
    answer false not_found a e h = inr (e, λ r. cc ((has_path_correct g start.id target).1 r))
    answer true not_found a e h = absurd a
    answer true empty_path a e h = absurd a
    answer true out_of_fuel a e h = absurd a
    answer false (found path) a e h = absurd a
    answer false empty_path a e h = absurd a
    answer false out_of_fuel a e h = absurd a
