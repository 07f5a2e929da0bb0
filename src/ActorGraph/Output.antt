-- ===== src/ActorGraph/Output.antt =====
-- `Output` of rsactor-graph/src/model.rs: a scan's result, with every collection sorted. The orders
-- that `#[derive(Ord)]` generates are the instances of `TotalOrder`.
pub mod Ascending
pub mod Canonical
pub mod Derived
use rsactor.Base.{
  ℕ, ◌≡◌, ◌⊎◌, String, Bool, true, false, Option, none, some, List, [], ◌∷◌, if◌then◌else◌,
}
use rsactor.ActorGraph.Model.{Node, actor, ActorNode, Edge, Graph, ReportEntry, Report, node_id}
use text.Mathlib.Text.{◌==◌}

pub record TotalOrder {ℓ} (A : Type ℓ) : Type ℓ where
  pub le : A → A → Bool
  pub le-refl : (a : A) → le a a ≡ true
  pub le-trans : (a b c : A) → le a b ≡ true → le b c ≡ true → le a c ≡ true
  pub le-antisymm : (a b : A) → le a b ≡ true → le b a ≡ true → a ≡ b
  pub le-total : (a b : A) → (le a b ≡ true) ⊎ (le b a ≡ true)

module _ {ℓ} {A : Type ℓ} (o : TotalOrder A) where
  -- `==` of the derived `Eq`, which agrees with the order
  unfoldable pub same : A → A → Bool
  same a b = if o.le a b then o.le b a else false

  unfoldable pub insert : A → List A → List A
  insert a [] = a ∷ []
  insert a (b ∷ bs) = let rest = insert a bs in if o.le a b then a ∷ b ∷ bs else b ∷ rest

  -- `Vec::sort`
  unfoldable pub sort : List A → List A
  unfolding insert
  sort [] = []
  sort (a ∷ xs) = insert a (sort xs)

  -- `Vec::dedup` on what follows an element that is kept
  unfoldable pub dedup_after : A → List A → List A
  unfolding same
  dedup_after a [] = []
  dedup_after a (b ∷ bs) = elim (same a b) [
    | true ↦ dedup_after a bs
    | false ↦ b ∷ dedup_after b bs
  ]

  unfoldable pub dedup : List A → List A
  unfolding dedup_after
  dedup [] = []
  dedup (a ∷ xs) = a ∷ dedup_after a xs

abbrev pub schema_version : ℕ
schema_version = 1

pub record Output : Type 0 where
  pub schema_version : ℕ
  pub name : String
  pub graph : Graph
  pub report : Report

-- The orders of the three collections.
pub record Orders : Type 0 where
  pub nodes : TotalOrder Node
  pub edges : TotalOrder Edge
  pub entries : TotalOrder ReportEntry

unfoldable pub new : Orders → String → Graph → Report → Output
unfolding sort dedup
new o name graph report = record {
  schema_version = schema_version;
  name = name;
  graph = record {
    nodes = dedup o.nodes (sort o.nodes graph.nodes);
    edges = dedup o.edges (sort o.edges graph.edges);
  };
  report = record { entries = dedup o.entries (sort o.entries report.entries) };
}

-- `Output::actors`
unfoldable pub actors_of : List Node → List ActorNode
actors_of [] = []
actors_of (actor a ∷ ns) = a ∷ actors_of ns
actors_of (_ ∷ ns) = actors_of ns

unfoldable pub actors : Output → List ActorNode
unfolding actors_of
actors o = actors_of o.graph.nodes

-- `Output::node`
unfoldable pub find_node : String → List Node → Option Node
unfolding node_id
find_node id [] = none
find_node id (n ∷ ns) = let rest = find_node id ns in if node_id n == id then some n else rest

unfoldable pub node : Output → String → Option Node
unfolding find_node
node o id = find_node id o.graph.nodes
