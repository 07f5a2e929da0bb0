-- ===== src/Deadlock/Graph.antt =====
-- The wait-for graph of src/deadlock.rs, `HashMap<u64, Vec<Identity>>`, as a list of entries with
-- distinct keys: its reads, `entry(..).or_default().push(..)` and `remove_edge`.
pub mod Laws
pub mod Paths
use rsactor.Base.{
  ℕ, zero, suc, ◌+◌, ◌-◌, ◌≡◌, refl, Bool, true, false, ◌&&◌, ◌||◌, Option, none, some, List, [],
  ◌∷◌, ◌++◌, length, set, get_last?, init, ◌==◌, if◌then◌else◌, arith,
}
use rsactor.Identity.{Identity}

abbrev pub Graph : Type 0
Graph = List (ℕ × List Identity)

-- `graph.contains_key`
unfoldable pub contains_key : Graph → ℕ → Bool
contains_key [] k = false
contains_key ((j, _) ∷ g) k = (j == k) || contains_key g k

-- `graph.get`, with the empty list for a missing key
unfoldable pub callees : Graph → ℕ → List Identity
callees [] k = []
callees ((j, es) ∷ g) k = if j == k then es else callees g k

-- `graph.entry(caller).or_default().push(callee)`
unfoldable pub push_edge : Graph → ℕ → Identity → Graph
push_edge [] k c = (k, c ∷ []) ∷ []
push_edge ((j, es) ∷ g) k c = if j == k then (j, es ++ c ∷ []) ∷ g else (j, es) ∷ push_edge g k c

-- `edges.iter().position(|c| c.id == callee_id)`
pub position : List Identity → ℕ → Option ℕ
position [] k = none
position (c ∷ cs) k =
    if c.id == k then some 0 else elim (position cs k) [ none ↦ none | some i ↦ some (suc i) ]

-- `edges.swap_remove(pos)`: the last element takes the place of the one removed
pub swap_remove : List Identity → ℕ → List Identity
swap_remove es i = elim (get_last? es) [ none ↦ [] | some l ↦ set (init es) i l ]

-- what `remove_edge` does to the list of an entry
pub remove_callee : List Identity → ℕ → List Identity
unfolding position swap_remove
remove_callee es k = elim (position es k) [ none ↦ es | some i ↦ swap_remove es i ]

-- the entry is dropped with its last edge
keep_entry : ℕ → List Identity → Graph → Graph
keep_entry j [] g = g
keep_entry j (e ∷ es) g = (j, e ∷ es) ∷ g

pub remove_edge : Graph → ℕ → ℕ → Graph
unfolding keep_entry
remove_edge [] k c = []
remove_edge ((j, es) ∷ g) k c =
    if j == k then keep_entry j (remove_callee es c) g else (j, es) ∷ remove_edge g k c

-- How many edges lead to the actor `k`.
unfoldable pub count : ℕ → List Identity → ℕ
count k [] = 0
count k (c ∷ cs) = if c.id == k then suc (count k cs) else count k cs

-- Keys are distinct, and no entry is empty.
abbrev pub IsMap : Graph → Type 0
IsMap [] = Unit {0}
IsMap ((j, es) ∷ g) = (contains_key g j ≡ false) × IsMap g
