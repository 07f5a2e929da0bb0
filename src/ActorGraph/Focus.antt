-- ===== src/ActorGraph/Focus.antt =====
-- `--focus` of rsactor-graph/src/view.rs: the neighbourhood of one actor. The map from an id to its
-- neighbours is a function, and `distance` is an association list whose keys are inserted once.
pub mod Walk
pub mod Search
pub mod Distances
pub mod Kept
pub mod Matches
use mathlib.Core.List.{filter}
use rsactor.Base.{
  ℕ, zero, suc, min, ltb, ◌≡◌, String, ◌<>◌, Bool, true, false, ◌||◌, ◌&&◌, Option, none, some,
  List, [], ◌∷◌, ◌++◌, map, ◌⊎◌, inl, inr, if◌then◌else◌,
}
use rsactor.Base.Text.{ends_with, join}
use text.Mathlib.Text.{◌==◌}
use rsactor.ActorGraph.Model.{ActorNode, Node, actor, node_id, Edge, Graph}
use rsactor.ActorGraph.Output.{Output, actors, node}

unfoldable pub matches : String → List ActorNode → List String
matches query [] = []
matches query (a ∷ rest) =
    let others = matches query rest in
    if (a.path == query) || ends_with a.path ("::" <> query) then a.id ∷ others else others

-- the paths of the nodes with these ids that are actors
unfoldable pub paths : Output → List String → List String
paths o [] = []
paths o (id ∷ ids) = elim (node o id) [
  | some (actor a) ↦ a.path ∷ paths o ids
  | some _ ↦ paths o ids
  | none ↦ paths o ids
]

unfoldable pub choose_start : Output → String → List String → String ⊎ String
choose_start o query [] = inl ("no actor matches `" <> (query <> "`"))
choose_start o query (only ∷ []) = inr only
choose_start o query (a ∷ b ∷ several) =
    inl ("`" <> (query <> ("` matches several actors: " <> join ", " (paths o (a ∷ b ∷ several)))))

-- what `neighbours` holds under `id`, in the order of the edges
unfoldable pub neighbours : List Edge → String → List String
neighbours [] id = []
neighbours (e ∷ es) id =
    (if e.from == id then e.to ∷ [] else [])
    ++ ((if e.to == id then e.from ∷ [] else []) ++ neighbours es id)

abbrev pub Distance : Type 0
Distance = List (String × ℕ)

-- `HashMap::get`
unfoldable pub get : Distance → String → Option ℕ
get [] id = none
get ((key, d) ∷ rest) id = let below = get rest id in if key == id then some d else below

-- the round's `distance` and `next`
pub record Round : Type 0 where
  pub distance : Distance
  pub next : List String

-- one neighbour of an id of the frontier
unfoldable pub visit_one : ℕ → String → Round → Round
unfolding get
visit_one step n r = elim (get r.distance n) [
  | some _ ↦ r
  | none ↦ record { distance = (n, step) ∷ r.distance; next = r.next ++ n ∷ [] }
]

-- the innermost loop
unfoldable pub visit : ℕ → List String → Round → Round
unfolding visit_one
visit step [] r = r
visit step (n ∷ ns) r = visit step ns (visit_one step n r)

-- `for id in &frontier`
unfoldable pub visit_frontier : List Edge → ℕ → List String → Round → Round
unfolding visit neighbours
visit_frontier es step [] r = r
visit_frontier es step (id ∷ ids) r = visit_frontier es step ids (visit step (neighbours es id) r)

-- `for step in 1..=depth`, with the number of rounds that are left
unfoldable pub search : List Edge → ℕ → ℕ → Round → Round
unfolding visit_frontier
search es step zero r = r
search es step (suc left) r =
    search es (suc step) left
      (visit_frontier es step r.next (record { distance = r.distance; next = [] }))

unfoldable pub distances : List Edge → String → ℕ → Distance
unfolding search
distances es start depth =
    (search es 1 depth (record { distance = (start, 0) ∷ []; next = start ∷ [] })).distance

unfoldable pub is_kept : Distance → Node → Bool
unfolding get
is_kept d n = elim (get d (node_id n)) [ some _ ↦ true | none ↦ false ]

unfoldable pub walked : Distance → ℕ → Edge → Bool
unfolding get
walked d depth e = elim (get d e.from) [
  | none ↦ false
  | some a ↦ elim (get d e.to) [ none ↦ false | some b ↦ ltb (min a b) depth ]
]

-- `Vec::retain`
unfoldable pub retain : {A : Type 0} → (A → Bool) → List A → List A
retain keep [] = []
retain keep (x ∷ xs) = let rest = retain keep xs in if keep x then x ∷ rest else rest

unfoldable pub focus_from : Output → ℕ → String → Output
unfolding distances is_kept walked retain
focus_from o depth start =
    let d = distances o.graph.edges start depth in
    record o {
      graph = record {
        nodes = retain (is_kept d) o.graph.nodes;
        edges = retain (walked d depth) o.graph.edges;
      };
    }

unfoldable pub focus : Output → String → ℕ → String ⊎ Output
unfolding matches choose_start focus_from actors
focus o query depth = elim (choose_start o query (matches query (actors o))) [
  | inl error ↦ inl error
  | inr start ↦ inr (focus_from o depth start)
]
