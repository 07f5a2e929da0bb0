-- ===== src/Tests/Deadlock.antt =====
-- The wait-for graph of src/deadlock.rs while one actor asks a second, which asks a third.
use rsactor.Base.{
  ℕ, ◌+◌, ◌≡◌, refl, ◌↔◌, ◌⊎◌, Bool, true, false, ◌&&◌, some, List, [], ◌∷◌, ◌++◌, length, ◌==◌,
  if◌then◌else◌, arith,
}
use rsactor.Identity.{Identity}
use rsactor.Deadlock.Graph.{Graph, contains_key, push_edge, callees, count}
use rsactor.Deadlock.Graph.Paths.{Reach}
use rsactor.Deadlock.Search.{
  member, size, push_ids, enough, path_loop, has_path, found, not_found, find_path,
}
use rsactor.Deadlock.Search.HasPath.{path_loop_ends, has_path_correct}
use rsactor.Deadlock.Search.FindPath.{Answer, find_path_correct}
use rsactor.Deadlock.Edges.{
  AskEdge, WaitFor, register_ask_edge, register_as, new_edge, add_edge, guard, closes_cycle,
  rest_of_cycle, remove_once, claim, empty_graph, Reachable, initial, next, registers,
}
use rsactor.Deadlock.Edges.Invariant.{
  outstanding, IsConsistent, closes_cycle_correct, Reachable-IsConsistent,
}
use rsactor.Deadlock.Edges.Detection.{Waits, itself, asks, Panics, register_ask_edge_detects}
use rsactor.Deadlock.Edges.Removal.{remove_once_exact}
use rsactor.Deadlock.Edges.Message.{rest_of_cycle_walk}

abbrev pub first : Identity
first = record { id = 1; type_name = "First" }

abbrev second : Identity
second = record { id = 2; type_name = "Second" }

abbrev pub third : Identity
third = record { id = 3; type_name = "Third" }

abbrev asking : Graph
asking = (1, second ∷ []) ∷ (2, third ∷ []) ∷ []

abbrev first_asks : AskEdge
first_asks = record { caller = 1; callee_id = 2; removed = false }

abbrev second_asks : AskEdge
second_asks = record { caller = 2; callee_id = 3; removed = false }

abbrev pub waiting : WaitFor
waiting = record { graph = asking; edges = first_asks ∷ second_asks ∷ [] }

abbrev once_asked : WaitFor
once_asked = record { graph = (1, second ∷ []) ∷ []; edges = first_asks ∷ [] }

first_registers : register_ask_edge empty_graph (some first) second "ask" ≡ guard 0 once_asked
unfolding register_ask_edge register_as closes_cycle new_edge add_edge contains_key push_edge member
    size enough push_ids path_loop has_path callees
first_registers = refl

second_registers : register_ask_edge once_asked (some second) third "ask" ≡ guard 1 waiting
unfolding register_ask_edge register_as closes_cycle new_edge add_edge contains_key push_edge member
    size enough push_ids path_loop has_path callees
second_registers = refl

pub waiting-Reachable : Reachable waiting
waiting-Reachable =
    next (next initial (registers (some first) second "ask" 0 first_registers))
      (registers (some second) third "ask" 1 second_registers)

pub first_Waits : Waits waiting.edges 1 3
unfolding outstanding
first_Waits = asks {b = 2} (asks {b = 1} itself (omega arith)) (omega arith)

path_loop_ends_example : (b : Bool) × (path_loop asking 3 (enough asking) (1 ∷ []) [] ≡ some b)
path_loop_ends_example = path_loop_ends asking 1 3

has_path_correct_example : (has_path asking 1 3 ≡ true) ↔ Reach asking 1 3
has_path_correct_example = has_path_correct asking 1 3

find_path_correct_example :
    ((path : List Identity) × (find_path asking first 3 ≡ found path) × Answer asking first 3 path)
    ⊎ ((find_path asking first 3 ≡ not_found) × (¬ Reach asking 1 3))
find_path_correct_example = find_path_correct asking first 3

closes_cycle_correct_example : (closes_cycle asking third first ≡ true) ↔ Reach asking 1 3
closes_cycle_correct_example = closes_cycle_correct asking third first

Reachable-IsConsistent_example : IsConsistent waiting
Reachable-IsConsistent_example = Reachable-IsConsistent waiting-Reachable

register_ask_edge_detects_example :
    (Waits waiting.edges 1 3 × Panics (register_ask_edge waiting (some third) first "ask"))
    ⊎ ((¬ Waits waiting.edges 1 3)
        × (register_ask_edge waiting (some third) first "ask"
            ≡ guard (length waiting.edges) (add_edge waiting third first))
        × ((add_edge waiting third first).edges
            ≡ waiting.edges ++ record { caller = 3; callee_id = 1; removed = false } ∷ []))
register_ask_edge_detects_example = register_ask_edge_detects third first "ask" waiting-Reachable

remove_once_exact_example :
    ((a c : ℕ)
      → count c (callees (remove_once waiting 0).graph a) + (if (1 == a) && (2 == c) then 1 else 0)
        ≡ count c (callees waiting.graph a))
    × (remove_once (remove_once waiting 0) 0 ≡ remove_once waiting 0)
    × (claim (remove_once waiting 0) 0 ≡ remove_once waiting 0)
remove_once_exact_example = remove_once_exact 0 first_asks waiting-Reachable refl refl

third_closes : closes_cycle asking third first ≡ true
unfolding register_ask_edge register_as closes_cycle new_edge add_edge contains_key push_edge member
    size enough push_ids path_loop has_path callees
third_closes = refl

rest_of_cycle_walk_example : Answer asking first 3 (rest_of_cycle asking third first)
rest_of_cycle_walk_example = rest_of_cycle_walk asking third first third_closes
