-- ===== src/Deadlock/Search.antt =====
-- The two depth-first searches of src/deadlock.rs, `has_path` and `find_path`. The head of a stack
-- is the end of the vector. A round pops one entry, so the loops take as many rounds of fuel as
-- there are edges, and two more; the modules below prove that this is enough.
pub mod HasPath
pub mod FindPath
use rsactor.Base.{
  ℕ, zero, suc, ◌+◌, Bool, true, false, ◌||◌, Option, none, some, List, [], ◌∷◌, ◌++◌, length,
  get_last?, ◌==◌,
}
use rsactor.Identity.{Identity}
use rsactor.Deadlock.Graph.{Graph, callees}

-- `HashSet::contains`
unfoldable pub member : ℕ → List ℕ → Bool
member k [] = false
member k (x ∷ xs) = (x == k) || member k xs

-- the number of edges in the graph
unfoldable pub size : Graph → ℕ
size [] = 0
size ((j, es) ∷ g) = length es + size g

unfoldable pub enough : Graph → ℕ
unfolding size
enough g = suc (suc (size g))

-- `for callee in edges { stack.push(callee.id) }`
unfoldable pub push_ids : List Identity → List ℕ → List ℕ
push_ids [] stack = stack
push_ids (c ∷ cs) stack = push_ids cs (c.id ∷ stack)

-- the `while` loop of `has_path`; `none` means that the fuel ran out
unfoldable pub path_loop : Graph → ℕ → ℕ → List ℕ → List ℕ → Option Bool
path_loop g to zero stack visited = none
path_loop g to (suc fuel) [] visited = some false
path_loop g to (suc fuel) (current ∷ stack) visited = elim (current == to) [
  | true ↦ some true
  | false ↦ elim (member current visited) [
    | true ↦ path_loop g to fuel stack visited
    | false ↦ path_loop g to fuel (push_ids (callees g current) stack) (current ∷ visited)
  ]
]

unfoldable pub has_path : Graph → ℕ → ℕ → Bool
unfolding path_loop push_ids member enough
has_path g from to = elim (path_loop g to (enough g) (from ∷ []) []) [
  | some found ↦ found
  | none ↦ false
]

-- a `find_path` that returns, and its two ways not to
pub data Found : Type 0 where
  found : List Identity → Found
  not_found : Found
  empty_path : Found
  out_of_fuel : Found

-- `let mut next = path.clone(); next.push(*callee); stack.push(next)`
pub push_paths : List Identity → List Identity → List (List Identity) → List (List Identity)
push_paths path [] stack = stack
push_paths path (c ∷ cs) stack = push_paths path cs ((path ++ c ∷ []) ∷ stack)

-- the `while` loop of `find_path`; `empty_path` is the panic of `expect("path is never empty")`
pub find_loop : Graph → ℕ → ℕ → List (List Identity) → List ℕ → Found
find_loop g target zero stack visited = out_of_fuel
find_loop g target (suc fuel) [] visited = not_found
find_loop g target (suc fuel) (path ∷ stack) visited = elim (get_last? path) [
  | none ↦ empty_path
  | some current ↦ elim (current.id == target) [
    | true ↦ found path
    | false ↦ elim (member current.id visited) [
      | true ↦ find_loop g target fuel stack visited
      | false ↦
          find_loop g target fuel (push_paths path (callees g current.id) stack)
            (current.id ∷ visited)
    ]
  ]
]

pub find_path : Graph → Identity → ℕ → Found
unfolding find_loop push_paths member enough
find_path g start target = find_loop g target (enough g) ((start ∷ []) ∷ []) []
