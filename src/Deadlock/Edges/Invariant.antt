-- ===== src/Deadlock/Edges/Invariant.antt =====
-- What holds of the wait-for graph in every state of a process.
use rsactor.Base.{
  ℕ, zero, suc, ◌+◌, ◌<◌, ◌≡◌, refl, inl, inr, ◌↔◌, sym, subst, true, false, ◌&&◌, not, none, some,
  List, [], ◌∷◌, ◌++◌, set, get_elem?, ◌==◌, if◌then◌else◌, Bool-cases, Option-cases, arith, String,
}
use rsactor.Identity.{Identity}
use rsactor.Deadlock.Graph.{Graph, contains_key, callees, count, IsMap}
use rsactor.Deadlock.Graph.Laws.{callees-contains_key-false, push_edge-IsMap, remove_edge-IsMap}
use rsactor.Deadlock.Graph.Paths.{
  Reach, here, step, IsAcyclic, push_edge-IsAcyclic, remove_edge-IsAcyclic, count-push_edge,
  count-remove_edge,
}
use rsactor.Deadlock.Search.HasPath.{has_path_correct}
use rsactor.Deadlock.Edges.{
  AskEdge, WaitFor, guard, closes_cycle, new_edge, add_edge, register_as, register_ask_edge,
  claim_edge, claim, remove_once, Step, registers, drops, claims, Reachable, initial, next,
}

-- How many asks of the actor `a` to the actor `c` are outstanding: registered, and not removed.
unfoldable pub outstanding : List AskEdge → ℕ → ℕ → ℕ
outstanding [] a c = 0
outstanding (e ∷ es) a c =
    (if not e.removed && ((e.caller == a) && (e.callee_id == c)) then 1 else 0) + outstanding es a c

outstanding-concat :
    (es : List AskEdge) (e : AskEdge) (a c : ℕ)
    → outstanding (es ++ e ∷ []) a c ≡ outstanding (e ∷ []) a c + outstanding es a c
unfolding outstanding
outstanding-concat [] e a c = omega arith
outstanding-concat (x ∷ es) e a c = omega (arith, outstanding-concat es e a c)

pub outstanding-set :
    (es : List AskEdge) (i : ℕ) (e : AskEdge) (a c : ℕ)
    → get_elem? es i ≡ some e
    → e.removed ≡ false
    → outstanding (set es i (record e { removed = true })) a c
        + (if (e.caller == a) && (e.callee_id == c) then 1 else 0)
      ≡ outstanding es a c
unfolding outstanding
outstanding-set [] i e a c f h = cc
outstanding-set (x ∷ es) zero e a c f h = ground arith
outstanding-set (x ∷ es) (suc i) e a c f h = omega (arith, outstanding-set es i e a c f h)

-- The graph has one edge for each outstanding ask, and no cycle.
pub record IsConsistent (w : WaitFor) : Type 0 where
  pub keys : IsMap w.graph
  pub acyclic : IsAcyclic w.graph
  pub counted : (a c : ℕ) → count c (callees w.graph a) ≡ outstanding w.edges a c

Reach-eq_of_callees : {g : Graph} {u v : ℕ} → callees g u ≡ [] → Reach g u v → v ≡ u
unfolding count
Reach-eq_of_callees h here = refl
Reach-eq_of_callees {g} {u} h (step {v = x} {w} p e) =
    let none_from_x = subst (λ y. callees g y ≡ []) (sym (Reach-eq_of_callees h p)) h in
    elim (subst (λ cs. 0 < count w cs) none_from_x e) [ ]

-- The test of `register_ask_edge` holds exactly when the callee waits, through a chain of zero or
-- more edges, on the caller. The look-up before the search changes nothing.
pub closes_cycle_correct :
    (g : Graph) (caller callee : Identity)
    → (closes_cycle g caller callee ≡ true) ↔ Reach g callee.id caller.id
unfolding closes_cycle
closes_cycle_correct g caller callee = (forth, back)
  where
    forth : closes_cycle g caller callee ≡ true → Reach g callee.id caller.id
    forth h = elim (Bool-cases (caller.id == callee.id)) [
      | inl same ↦ let e : callee.id ≡ caller.id = ground arith in subst (Reach g callee.id) e here
      | inr other ↦ (has_path_correct g callee.id caller.id).0 (ground arith)
    ]

    back : Reach g callee.id caller.id → closes_cycle g caller callee ≡ true
    back r = elim (Bool-cases (contains_key g callee.id)) [
      | inl known ↦ ground (arith, (has_path_correct g callee.id caller.id).1 r)
      | inr unknown ↦
          ground (arith, Reach-eq_of_callees (callees-contains_key-false g callee.id unknown) r)
    ]

add_edge-IsConsistent :
    (w : WaitFor) (caller callee : Identity)
    → ¬ Reach w.graph callee.id caller.id
    → IsConsistent w
    → IsConsistent (add_edge w caller callee)
unfolding add_edge outstanding
add_edge-IsConsistent w caller callee free v = record {
  keys = push_edge-IsMap w.graph caller.id callee v.keys;
  acyclic = push_edge-IsAcyclic w.graph caller.id callee free v.acyclic;
  counted = λ a c. ground (
    arith,
    count-push_edge w.graph caller.id callee a c,
    outstanding-concat w.edges (new_edge caller callee) a c,
    v.counted a c,
  );
}

register_as-IsConsistent :
    (w w' : WaitFor) (caller callee : Identity) (operation : String) (i : ℕ)
    → register_as w caller callee operation ≡ guard i w'
    → IsConsistent w
    → IsConsistent w'
unfolding register_as
register_as-IsConsistent w w' caller callee operation i e v =
    elim (Bool-cases (closes_cycle w.graph caller callee)) [
      | inl cycle ↦ cc (rw (cycle, register_as) at e)
      | inr free ↦
          let same : add_edge w caller callee ≡ w' = cc (rw (free, register_as) at e) in
          let clear : ¬ Reach w.graph callee.id caller.id =
            λ r. cc ((closes_cycle_correct w.graph caller callee).1 r) in
          subst IsConsistent same (add_edge-IsConsistent w caller callee clear v)
    ]

claim_edge-IsConsistent :
    (w : WaitFor) (i : ℕ) (e : AskEdge)
    → get_elem? w.edges i ≡ some e
    → IsConsistent w
    → IsConsistent (claim_edge w i e)
unfolding claim_edge
claim_edge-IsConsistent w i e at v = elim (Bool-cases e.removed) [
  | inl old ↦ rw (old, claim_edge) v
  | inr live ↦
      rw (live, claim_edge)
        (record {
          keys = remove_edge-IsMap w.graph e.caller e.callee_id v.keys;
          acyclic = remove_edge-IsAcyclic w.graph e.caller e.callee_id v.keys v.acyclic;
          counted = λ a c. ground (
            arith,
            count-remove_edge w.graph e.caller e.callee_id a c v.keys,
            outstanding-set w.edges i e a c at live,
            v.counted a c,
          );
        })
]

claim-IsConsistent : (w : WaitFor) (i : ℕ) → IsConsistent w → IsConsistent (claim w i)
unfolding claim
claim-IsConsistent w i v = elim (Option-cases (get_elem? w.edges i)) [
  | inl missing ↦ rw (missing, claim) v
  | inr (e, at) ↦ rw (at, claim) (claim_edge-IsConsistent w i e at v)
]

remove_once-IsConsistent : (w : WaitFor) (i : ℕ) → IsConsistent w → IsConsistent (remove_once w i)
unfolding remove_once
remove_once-IsConsistent w i v = elim (Option-cases (get_elem? w.edges i)) [
  | inl missing ↦ rw (missing, remove_once) v
  | inr (e, at) ↦ elim (Bool-cases e.removed) [
    | inl old ↦ rw (at, old, remove_once) v
    | inr live ↦ rw (at, live, remove_once) (claim-IsConsistent w i v)
  ]
]

Step-IsConsistent : {w w' : WaitFor} → Step w w' → IsConsistent w → IsConsistent w'
unfolding register_ask_edge
Step-IsConsistent {w} {w'} (registers none callee operation i e) v = cc
Step-IsConsistent {w} {w'} (registers (some caller) callee operation i e) v =
    register_as-IsConsistent w w' caller callee operation i e v
Step-IsConsistent {w} (drops i) v = remove_once-IsConsistent w i v
Step-IsConsistent {w} (claims i) v = claim-IsConsistent w i v

-- In every state that a process reaches, in whatever order its threads register and remove edges,
-- the graph has one edge for each outstanding ask, and no actor waits on itself.
pub Reachable-IsConsistent : {w : WaitFor} → Reachable w → IsConsistent w
unfolding callees count outstanding
Reachable-IsConsistent initial = record {
  keys = tt;
  acyclic = λ u v e r. elim e [ ];
  counted = λ a c. refl;
}
Reachable-IsConsistent (next r s) = Step-IsConsistent s (Reachable-IsConsistent r)
