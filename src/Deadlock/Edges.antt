-- ===== src/Deadlock/Edges.antt =====
-- Registration and removal of wait-for edges in src/deadlock.rs. An `Arc<AskEdge>` is an index into
-- the edges made so far; the graph and the `removed` flags change together under the lock.
pub mod Invariant
pub mod Detection
pub mod Removal
pub mod Message
use rsactor.Base.{
  ℕ, zero, suc, ◌+◌, ◌≡◌, String, ◌<>◌, Bool, true, false, ◌&&◌, ◌||◌, Option, none, some, List, [],
  ◌∷◌, ◌++◌, map, length, set, get_elem?, ◌==◌, if◌then◌else◌,
}
use rsactor.Identity.{Identity, show_identity}
use rsactor.Deadlock.Graph.{Graph, contains_key, push_edge, remove_edge}
use rsactor.Deadlock.Search.{has_path, find_path, found}

-- `DEADLOCK_PANIC_PREFIX`
abbrev pub deadlock_panic_prefix : String
deadlock_panic_prefix = "Deadlock detected"

-- `path.join(" -> ")`
pub join_arrows : List String → String
join_arrows [] = ""
join_arrows (p ∷ []) = p
join_arrows (p ∷ q ∷ ps) = p <> (" -> " <> join_arrows (q ∷ ps))

-- the path from the callee on, or the callee alone where `find_path` gives none
pub rest_of_cycle : Graph → Identity → Identity → List Identity
rest_of_cycle g caller callee = elim (find_path g callee caller.id) [
  | found nodes ↦ nodes
  | _ ↦ callee ∷ []
]

pub format_cycle_path : Graph → Identity → Identity → String
unfolding join_arrows rest_of_cycle show_identity
format_cycle_path g caller callee =
    if caller.id == callee.id
    then show_identity caller <> (" -> " <> show_identity caller)
    else join_arrows (show_identity caller ∷ map show_identity (rest_of_cycle g caller callee))

pub record AskEdge : Type 0 where
  pub caller : ℕ
  pub callee_id : ℕ
  pub removed : Bool

-- the process-global graph, and the edges that guards and tokens point to
pub record WaitFor : Type 0 where
  pub graph : Graph
  pub edges : List AskEdge

pub data Registered : Type 0 where
  -- no current actor: the ask is not tracked
  untracked : Registered
  -- the panic, with its message
  panics : String → Registered
  -- the guard, by the index of its edge, and the state after
  guard : ℕ → WaitFor → Registered

pub panic_message : String → String → String
panic_message operation cycle =
    deadlock_panic_prefix
    <> (": "
        <> (operation
            <> (" cycle "
                <> (cycle
                    <> "\nThis is a design error. Use `tell` to break the cycle, or restructure actor dependencies."))))

-- the test under which `register_ask_edge` panics
unfoldable pub closes_cycle : Graph → Identity → Identity → Bool
closes_cycle g caller callee =
    (caller.id == callee.id) || (contains_key g callee.id && has_path g callee.id caller.id)

unfoldable pub new_edge : Identity → Identity → AskEdge
new_edge caller callee = record { caller = caller.id; callee_id = callee.id; removed = false }

-- `graph.entry(caller.id).or_default().push(callee)`, with the new `AskEdge`
unfoldable pub add_edge : WaitFor → Identity → Identity → WaitFor
unfolding new_edge
add_edge w caller callee = record {
  graph = push_edge w.graph caller.id callee;
  edges = w.edges ++ new_edge caller callee ∷ [];
}

unfoldable pub register_as : WaitFor → Identity → Identity → String → Registered
register_as w caller callee operation =
    if closes_cycle w.graph caller callee
    then panics (panic_message operation (format_cycle_path w.graph caller callee))
    else guard (length w.edges) (add_edge w caller callee)

-- `register_ask_edge`; the second argument is `CURRENT_ACTOR`
unfoldable pub register_ask_edge : WaitFor → Option Identity → Identity → String → Registered
unfolding register_as
register_ask_edge w none callee operation = untracked
register_ask_edge w (some caller) callee operation = register_as w caller callee operation

-- the part of `remove_once` under the lock: the flag is swapped, and the edge removed by the owner
-- that found it unset
claim_edge : WaitFor → ℕ → AskEdge → WaitFor
claim_edge w i e = if e.removed then w else record {
  graph = remove_edge w.graph e.caller e.callee_id;
  edges = set w.edges i (record e { removed = true });
}

pub claim : WaitFor → ℕ → WaitFor
unfolding claim_edge
claim w i = elim (get_elem? w.edges i) [ none ↦ w | some e ↦ claim_edge w i e ]

-- `remove_once`, which the drops of `WaitForGuard` and `AskEdgeToken` call: the flag is read first
-- without the lock
pub remove_once : WaitFor → ℕ → WaitFor
unfolding claim
remove_once w i = elim (get_elem? w.edges i) [
  | none ↦ w
  | some e ↦ if e.removed then w else claim w i
]

abbrev pub empty_graph : WaitFor
empty_graph = record { graph = []; edges = [] }

-- What the threads of the process do to the graph, one locked section after another. `claims` is
-- an owner whose read of the flag came before another owner's removal.
pub data Step (w : WaitFor) : WaitFor → Type 0 where
  registers :
      {w' : WaitFor} (caller : Option Identity) (callee : Identity) (operation : String) (i : ℕ)
      → register_ask_edge w caller callee operation ≡ guard i w'
      → Step w w'
  drops : (i : ℕ) → Step w (remove_once w i)
  claims : (i : ℕ) → Step w (claim w i)

-- The states of a process that starts with the empty graph.
pub data Reachable : WaitFor → Type 0 where
  initial : Reachable empty_graph
  next : {w w' : WaitFor} → Reachable w → Step w w' → Reachable w'
