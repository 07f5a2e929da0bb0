-- ===== src/Deadlock/Search/HasPath.antt =====
-- `has_path` of src/deadlock.rs: its loop ends, and its answer is right in both directions.
use rsactor.Base.{
  ℕ, zero, suc, ◌+◌, ◌≤◌, ◌<◌, ◌≡◌, refl, ◌≢◌, ◌⊎◌, inl, inr, ◌↔◌, Bool, true, false, some, List,
  [], ◌∷◌, length, ◌==◌, if◌then◌else◌, Bool-cases, arith,
}
use rsactor.Identity.{Identity}
use rsactor.Deadlock.Graph.{Graph, callees, count}
use rsactor.Deadlock.Graph.Paths.{Edge, Reach, here, step}
use rsactor.Deadlock.Search.{member, size, enough, push_ids, path_loop, has_path}

-- the edges that leave actors which are still to be visited
pub pending : Graph → List ℕ → ℕ
unfolding member
pending [] visited = 0
pending ((j, es) ∷ g) visited = (if member j visited then 0 else length es) + pending g visited

pending_mono : (g : Graph) (k : ℕ) (visited : List ℕ) → pending g (k ∷ visited) ≤ pending g visited
unfolding pending
pending_mono [] k visited = omega arith
pending_mono ((j, es) ∷ g) k visited = ground (arith, pending_mono g k visited)

pub pending_visit :
    (g : Graph) (k : ℕ) (visited : List ℕ)
    → member k visited ≡ false
    → pending g (k ∷ visited) + length (callees g k) ≤ pending g visited
unfolding pending callees
pending_visit [] k visited h = omega arith
pending_visit ((j, es) ∷ g) k visited h =
    ground (arith, pending_mono g k visited, pending_visit g k visited h)

pub pending-nil : (g : Graph) → pending g [] ≡ size g
unfolding pending size
pending-nil [] = refl
pending-nil ((j, es) ∷ g) = omega (arith, pending-nil g)

length-push_ids :
    (cs : List Identity) (stack : List ℕ) → length (push_ids cs stack) ≡ length cs + length stack
unfolding push_ids
length-push_ids [] stack = omega arith
length-push_ids (c ∷ cs) stack = omega (arith, length-push_ids cs (c.id ∷ stack))

pub member-push_ids :
    (v : ℕ) (cs : List Identity) (stack : List ℕ)
    → (member v (push_ids cs stack) ≡ true) ↔ ((0 < count v cs) ⊎ (member v stack ≡ true))
unfolding member push_ids count
member-push_ids v [] stack = ground arith
member-push_ids v (c ∷ cs) stack = ground (arith, member-push_ids v cs (c.id ∷ stack))

module _ (g : Graph) (to : ℕ) where
  -- Each round pops one entry, and pushes only edges of an actor that it visits for the first time.
  path_loop_total :
      (fuel : ℕ) (stack visited : List ℕ)
      → pending g visited + length stack < fuel
      → (b : Bool) × (path_loop g to fuel stack visited ≡ some b)
  unfolding path_loop
  path_loop_total zero stack visited h = absurd (omega arith)
  path_loop_total (suc fuel) [] visited h = (false, refl)
  path_loop_total (suc fuel) (current ∷ stack) visited h = elim (Bool-cases (current == to)) [
    | inl hit ↦ (true, rw (hit, path_loop))
    | inr miss ↦ elim (Bool-cases (member current visited)) [
      | inl old ↦
          let (b, e) = path_loop_total fuel stack visited (omega arith) in
          (b, rw (miss, old, path_loop) e)
      | inr new ↦
          let (b, e) =
            path_loop_total fuel (push_ids (callees g current) stack) (current ∷ visited) (
              omega (
                arith,
                pending_visit g current visited new,
                length-push_ids (callees g current) stack,
              )) in
          (b, rw (miss, new, path_loop) e)
    ]
  ]

  module _ (from : ℕ) where
    abbrev AllReach : List ℕ → Type 0
    AllReach [] = Unit {0}
    AllReach (k ∷ ks) = Reach g from k × AllReach ks

    AllReach-push_ids :
        (u : ℕ) (cs : List Identity) (stack : List ℕ)
        → ((v : ℕ) → 0 < count v cs → Reach g from v)
        → AllReach stack
        → AllReach (push_ids cs stack)
    unfolding push_ids count
    AllReach-push_ids u [] stack reach all = all
    AllReach-push_ids u (c ∷ cs) stack reach all =
        AllReach-push_ids u cs (c.id ∷ stack) (λ v h. reach v (ground arith))
          (reach c.id (ground arith), all)

    path_loop_sound :
        (fuel : ℕ) (stack visited : List ℕ)
        → AllReach stack
        → path_loop g to fuel stack visited ≡ some true
        → Reach g from to
    unfolding path_loop
    path_loop_sound zero stack visited all e = cc
    path_loop_sound (suc fuel) [] visited all e = cc
    path_loop_sound (suc fuel) (current ∷ stack) visited all e = elim (Bool-cases (current == to)) [
      | inl hit ↦ let same : current ≡ to = ground arith in rw (← same) all.0
      | inr miss ↦ elim (Bool-cases (member current visited)) [
        | inl old ↦ path_loop_sound fuel stack visited all.1 (rw (miss, old, path_loop) at e)
        | inr new ↦
            path_loop_sound fuel (push_ids (callees g current) stack) (current ∷ visited)
              (AllReach-push_ids current (callees g current) stack (λ v h. step all.0 h) all.1)
              (rw (miss, new, path_loop) at e)
      ]
    ]

    -- The edges of what was visited lead to what was visited or waits on the stack.
    record Explored (stack visited : List ℕ) : Type 0 where
      start : (member from visited ≡ true) ⊎ (member from stack ≡ true)
      passed : (u : ℕ) → member u visited ≡ true → u ≢ to
      closed :
          (u v : ℕ)
          → member u visited ≡ true
          → Edge g u v
          → (member v visited ≡ true) ⊎ (member v stack ≡ true)

    Explored-skip :
        (current : ℕ) (stack visited : List ℕ)
        → member current visited ≡ true
        → Explored (current ∷ stack) visited
        → Explored stack visited
    unfolding member
    Explored-skip current stack visited old x = record {
      start = ground (arith, x.start);
      passed = x.passed;
      closed = λ u v m e. ground (arith, x.closed u v m e);
    }

    Explored-visit :
        (current : ℕ) (stack visited : List ℕ)
        → current ≢ to
        → Explored (current ∷ stack) visited
        → Explored (push_ids (callees g current) stack) (current ∷ visited)
    unfolding member
    Explored-visit current stack visited miss x = record {
      start = ground (arith, x.start, member-push_ids from (callees g current) stack);
      passed = λ u m. ground (arith, x.passed u);
      closed = λ u v m e. ground (arith, x.closed u v, member-push_ids v (callees g current) stack);
    }

    Explored-end :
        (visited : List ℕ)
        → Explored [] visited
        → {v : ℕ} → Reach g from v
        → member v visited ≡ true
    unfolding member
    Explored-end visited x here = ground (arith, x.start)
    Explored-end visited x (step {v = u} {w} p e) =
        ground (arith, x.closed u w (Explored-end visited x p) e)

    path_loop_complete :
        (fuel : ℕ) (stack visited : List ℕ)
        → Explored stack visited
        → path_loop g to fuel stack visited ≡ some false
        → ¬ Reach g from to
    unfolding path_loop
    path_loop_complete zero stack visited x e r = cc
    path_loop_complete (suc fuel) [] visited x e r = x.passed to (Explored-end visited x r) refl
    path_loop_complete (suc fuel) (current ∷ stack) visited x e r =
        elim (Bool-cases (current == to)) [
          | inl hit ↦ cc (rw (hit, path_loop) at e)
          | inr miss ↦ elim (Bool-cases (member current visited)) [
            | inl old ↦
                path_loop_complete fuel stack visited (Explored-skip current stack visited old x)
                  (rw (miss, old, path_loop) at e) r
            | inr new ↦
                path_loop_complete fuel (push_ids (callees g current) stack) (current ∷ visited)
                  (Explored-visit current stack visited (λ same. ground arith) x)
                  (rw (miss, new, path_loop) at e) r
          ]
        ]

-- The loop of `has_path` ends within `enough g` rounds, from any actor and to any actor.
pub path_loop_ends :
    (g : Graph) (from to : ℕ) → (b : Bool) × (path_loop g to (enough g) (from ∷ []) [] ≡ some b)
unfolding enough
path_loop_ends g from to =
    path_loop_total g to (enough g) (from ∷ []) [] (omega (arith, pending-nil g))

-- `has_path` answers true exactly when the graph has a directed path between the two actors.
pub has_path_correct : (g : Graph) (from to : ℕ) → (has_path g from to ≡ true) ↔ Reach g from to
unfolding has_path member
has_path_correct g from to = let (b, e) = path_loop_ends g from to in answer b e
  where
    unvisited : Explored g to from (from ∷ []) []
    unvisited = record { start = inr (ground arith); passed = λ u m. cc; closed = λ u v m e. cc }

    answer :
        (b : Bool)
        → path_loop g to (enough g) (from ∷ []) [] ≡ some b
        → (has_path g from to ≡ true) ↔ Reach g from to
    answer true e = (
      λ _. path_loop_sound g to from (enough g) (from ∷ []) [] (here, tt) e,
      λ _. rw (e, has_path),
    )
    answer false e = (
      λ h. cc (rw (e, has_path) at h),
      λ r. absurd (path_loop_complete g to from (enough g) (from ∷ []) [] unvisited e r),
    )
