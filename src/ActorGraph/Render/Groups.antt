-- ===== src/ActorGraph/Render/Groups.antt =====
-- How `to_dot_with` of rsactor-graph/src/render.rs draws functions with one owner as one node. A
-- `BTreeMap` of vectors is the ascending list of its keys with their values in the order of the
-- insertions, a `HashMap` the list of its insertions, the last one first.
use text.Mathlib.Text.{◌==◌}
use rsactor.Base.{
  ltb, String, ◌<>◌, Bool, true, false, Option, none, some, List, [], ◌∷◌, map, length,
  if◌then◌else◌,
}
use rsactor.ActorGraph.Model.{FnNode, Node, fn, unknown, node_id}
use rsactor.ActorGraph.Output.{TotalOrder, same, sort, dedup}
use rsactor.ActorGraph.Output.Derived.{pair_order}
use rsactor.ActorGraph.Output.Derived.Basic.{text_order}
use rsactor.ActorGraph.Focus.{retain}
use rsactor.ActorGraph.Render.Labels.{contains, or_else}

pub data HoldsMode : Type 0 where
  all_holds : HoldsMode
  uncovered : HoldsMode
  no_holds : HoldsMode

pub record DotOptions : Type 0 where
  pub group_fns : Bool
  pub holds : HoldsMode

-- `DotOptions::default`
abbrev pub default_options : DotOptions
default_options = record { group_fns = true; holds = uncovered }

module _ {K V : Type 0} (o : TotalOrder K) where
  unfoldable pub keys : List (K × V) → List K
  keys [] = []
  keys ((k, v) ∷ entries) = k ∷ keys entries

  -- what was pushed under the key
  unfoldable pub values : K → List (K × V) → List V
  unfolding same
  values key [] = []
  values key ((k, v) ∷ entries) =
      let rest = values key entries in if same o k key then v ∷ rest else rest

  -- `map.entry(key).or_default().push(value)`, for each entry in order
  unfoldable pub grouped : List (K × V) → List (K × List V)
  unfolding keys values sort dedup
  grouped entries = map (λ k. (k, values k entries)) (dedup o (sort o (keys entries)))

abbrev pub Owner : Type 0
Owner = String × String

abbrev pub owner_order : TotalOrder Owner
owner_order = pair_order text_order text_order

-- the functions that have an owner, under their target and owner
unfoldable pub owned : List Node → List (Owner × FnNode)
owned [] = []
owned (fn f ∷ ns) = elim f.owner [
  | some owner ↦ ((f.target, owner), f) ∷ owned ns
  | none ↦ owned ns
]
owned (_ ∷ ns) = owned ns

unfoldable pub is_shared : Owner × List FnNode → Bool
is_shared (owner, members) = ltb 1 (length members)

-- `owners`
unfoldable pub owners : DotOptions → List Node → List (Owner × List FnNode)
unfolding owned is_shared grouped retain
owners options nodes =
    if options.group_fns then retain is_shared (grouped owner_order (owned nodes)) else []

abbrev pub Remap : Type 0
Remap = List (String × String)

-- `HashMap::get`
unfoldable pub remap_get : Remap → String → Option String
remap_get [] id = none
remap_get ((key, to) ∷ rest) id =
    let below = remap_get rest id in if key == id then some to else below

unfoldable pub remap_members : String → List FnNode → Remap → Remap
remap_members group [] remap = remap
remap_members group (f ∷ fs) remap = remap_members group fs ((f.id, group) ∷ remap)

unfoldable pub remap_owners : List (Owner × List FnNode) → Remap → Remap
unfolding remap_members
remap_owners [] remap = remap
remap_owners (((target, owner), members) ∷ rest) remap =
    remap_owners rest (remap_members ("fngroup:" <> (target <> (":" <> owner))) members remap)

-- a sender's `?` node follows its sender into the group
unfoldable pub remap_unknown : List Node → Remap → Remap
unfolding remap_get
remap_unknown [] remap = remap
remap_unknown (unknown u ∷ ns) remap = elim (remap_get remap u.sender) [
  | some group ↦ remap_unknown ns ((u.id, "unknown:" <> group) ∷ remap)
  | none ↦ remap_unknown ns remap
]
remap_unknown (_ ∷ ns) remap = remap_unknown ns remap

unfoldable pub remap_of : DotOptions → List Node → Remap
unfolding owners remap_owners remap_unknown
remap_of options nodes = remap_unknown nodes (remap_owners (owners options nodes) [])

-- `id_of`
unfoldable pub id_of : Remap → String → String
unfolding remap_get or_else
id_of remap id = or_else (remap_get remap id) id

-- the nodes that are drawn, each under the id that it is drawn with: the first of each id
unfoldable pub emitted : Remap → List String → List Node → List (String × Node)
unfolding id_of contains
emitted remap seen [] = []
emitted remap seen (n ∷ ns) =
    let drawn = id_of remap (node_id n) in
    elim (contains drawn seen) [
      | true ↦ emitted remap seen ns
      | false ↦ (drawn, n) ∷ emitted remap (drawn ∷ seen) ns
    ]
