-- ===== src/Deadlock/Edges/Removal.antt =====
-- `AskEdge::remove_once`, which the drops of the guard and of the token both call.
use rsactor.Base.{
  ℕ, ◌+◌, ◌≡◌, refl, ◌∙◌, ap, true, false, ◌&&◌, some, set, get_elem?, get_elem?-set_self, ◌==◌,
  if◌then◌else◌, arith,
}
use rsactor.Deadlock.Graph.{callees, count, remove_edge}
use rsactor.Deadlock.Edges.{
  AskEdge, WaitFor, claim_edge, claim, remove_once, Reachable, drops, next,
}
use rsactor.Deadlock.Edges.Invariant.{outstanding, outstanding-set, Reachable-IsConsistent}

removed_edge : WaitFor → ℕ → AskEdge → WaitFor
removed_edge w i e = record {
  graph = remove_edge w.graph e.caller e.callee_id;
  edges = set w.edges i (record e { removed = true });
}

remove_once_live :
    (w : WaitFor) (i : ℕ) (e : AskEdge)
    → get_elem? w.edges i ≡ some e
    → e.removed ≡ false
    → remove_once w i ≡ removed_edge w i e
unfolding remove_once claim claim_edge removed_edge
remove_once_live w i e at live = rw (at, live, remove_once) (rw (at, claim) (rw (live, claim_edge)))

remove_once_removed :
    (w : WaitFor) (i : ℕ) (e : AskEdge)
    → get_elem? w.edges i ≡ some e
    → e.removed ≡ true
    → (remove_once w i ≡ w) × (claim w i ≡ w)
unfolding remove_once claim claim_edge
remove_once_removed w i e at old =
    (rw (at, old, remove_once), rw (at, claim) (rw (old, claim_edge)))

-- In a reachable state, the first owner to drop a live edge takes exactly that one edge out of the
-- graph, whatever other edges there are between the two actors. After that a drop by the other
-- owner changes nothing, and neither does one that had read the flag before.
pub remove_once_exact :
    {w : WaitFor} (i : ℕ) (e : AskEdge)
    → Reachable w
    → get_elem? w.edges i ≡ some e
    → e.removed ≡ false
    → ((a c : ℕ)
        → count c (callees (remove_once w i).graph a)
            + (if (e.caller == a) && (e.callee_id == c) then 1 else 0)
          ≡ count c (callees w.graph a))
      × (remove_once (remove_once w i) i ≡ remove_once w i)
      × (claim (remove_once w i) i ≡ remove_once w i)
unfolding removed_edge
remove_once_exact {w} i e r at live =
    let done = remove_once_live w i e at live in
    let again =
      remove_once_removed (removed_edge w i e) i (record e { removed = true })
        (get_elem?-set_self w.edges i (record e { removed = true }) at) refl in
    let before = Reachable-IsConsistent r in
    let after = Reachable-IsConsistent (next r (drops i)) in
    (
      λ a c. omega (
        arith,
        before.counted a c,
        after.counted a c ∙ ap (λ (x : WaitFor). outstanding x.edges a c) done,
        outstanding-set w.edges i e a c at live,
      ),
      rw done again.0,
      rw done again.1,
    )
