-- ===== src/ActorGraph/Render/Dot.antt =====
-- `to_dot_with` of rsactor-graph/src/render.rs. A `BTreeMap` of vectors is the ascending list of its
-- keys with their values in the order of the insertions, a `HashMap` the list of its insertions, the
-- last one first.
pub mod Arrows
pub mod Drawn
use text.Mathlib.Text.{◌==◌}
use rsactor.Base.{
  ◌≡◌, refl, ℕ, zero, suc, ltb, String, ◌<>◌, Bool, true, false, not, ◌&&◌, ◌||◌, Option, none,
  some, List, [], ◌∷◌, ◌++◌, map, length, if◌then◌else◌, ◌>>=◌,
}
use rsactor.ActorGraph.Model.{
  FnNode, ActorNode, HandlersNode, ExternalActorNode, UnknownNode, Node, actor, external_actor, fn,
  external, handlers, unknown, node_id, Edge,
}
use rsactor.ActorGraph.Output.{TotalOrder, same, Output, sort, dedup}
use rsactor.ActorGraph.Output.Derived.{nat_order, by_key, pair_order}
use rsactor.ActorGraph.Output.Derived.Basic.{text_order}
use rsactor.ActorGraph.Focus.{retain}
use rsactor.ActorGraph.Render.Escape.{escape_text, quote_id}
use rsactor.ActorGraph.Render.Labels.{
  ArrowClass, holds_arrow, spawn_arrow, send_arrow, arrow_class, is_holds, contains, or_else,
  group_label, arrow_attrs, handlers_label, actor_label,
}
use rsactor.ActorGraph.Render.Groups.{
  HoldsMode, all_holds, uncovered, no_holds, DotOptions, default_options, keys, values, grouped,
  Owner, owner_order, owners, Remap, remap_of, id_of, emitted, owned, is_shared, remap_get,
  remap_members, remap_owners, remap_unknown,
}

-- `&owners[&(target, owner)]`, which panics on a missing key: `none`
unfoldable pub members_of : List (Owner × List FnNode) → Owner → Option (List FnNode)
unfolding same
members_of [] owner = none
members_of ((o, members) ∷ rest) owner =
    let below = members_of rest owner in if same owner_order o owner then some members else below

unfoldable pub fn_attrs : List (Owner × List FnNode) → String → FnNode → Option String
unfolding members_of group_label escape_text or_else
fn_attrs groups id f =
    let owner = or_else f.owner "" in
    if id == f.id
    then some ("shape=box, style=rounded, label=\"fn " <> (escape_text f.path <> "\""))
    else elim (members_of groups (f.target, owner)) [
      | none ↦ none
      | some members ↦ some (
          "shape=box, style=rounded, label=\"" <> (escape_text (group_label owner members) <> "\""))
    ]

unfoldable pub node_attrs : Output → List (Owner × List FnNode) → String → Node → Option String
unfolding fn_attrs actor_label handlers_label escape_text
node_attrs o groups id (actor a) = some ("label=\"" <> (actor_label a <> "\""))
node_attrs o groups id (external_actor n) =
    some (
      "shape=box, style=dashed, label=\"" <> (escape_text n.path <> "\\n(outside the workspace)\""))
node_attrs o groups id (fn f) = fn_attrs groups id f
node_attrs o groups id (external n) = some "shape=ellipse, style=dashed, label=\"external (main)\""
node_attrs o groups id (handlers h) =
    some ("shape=box, style=\"rounded,dashed\", label=\"" <> (handlers_label o h <> "\""))
node_attrs o groups id (unknown u) = some "shape=circle, color=red, fontcolor=red, label=\"?\""

-- the lines of the drawn nodes, unless one panics
unfoldable pub node_lines :
    Output → List (Owner × List FnNode) → List (String × Node) → Option String
unfolding node_attrs quote_id
node_lines o groups [] = some ""
node_lines o groups ((id, n) ∷ rest) = do
  attrs ← node_attrs o groups id n
  lines ← node_lines o groups rest
  some ("  " <> (quote_id id <> (" [" <> (attrs <> ("];\n" <> lines)))))

abbrev pub ArrowKey : Type 0
ArrowKey = String × (String × ArrowClass)

class_order : TotalOrder ArrowClass
class_order = by_key place of_place back nat_order
  where
    place : ArrowClass → ℕ
    place holds_arrow = 0
    place spawn_arrow = 1
    place send_arrow = 2

    of_place : ℕ → ArrowClass
    of_place zero = holds_arrow
    of_place (suc zero) = spawn_arrow
    of_place (suc (suc n)) = send_arrow

    back : (c : ArrowClass) → of_place (place c) ≡ c
    back holds_arrow = refl
    back spawn_arrow = refl
    back send_arrow = refl

pub arrow_order : TotalOrder ArrowKey
arrow_order = pair_order text_order (pair_order text_order class_order)

unfoldable pub arrow_key : Remap → Edge → ArrowKey
unfolding id_of arrow_class
arrow_key remap e = (id_of remap e.from, (id_of remap e.to, arrow_class e.kind))

unfoldable pub keyed : Remap → List Edge → List (ArrowKey × Edge)
unfolding arrow_key
keyed remap [] = []
keyed remap (e ∷ es) = (arrow_key remap e, e) ∷ keyed remap es

-- `arrows`
unfoldable pub arrows : Remap → List Edge → List (ArrowKey × List Edge)
unfolding keyed grouped
arrows remap edges = grouped arrow_order (keyed remap edges)

-- `covered.contains(..)`: another arrow than a holds arrow goes from the one to the other
unfoldable pub is_covered : String → String → List (ArrowKey × List Edge) → Bool
unfolding is_holds
is_covered from to [] = false
is_covered from to (((a, (b, class)), edges) ∷ rest) =
    (not (is_holds class) && (a == from) && (b == to)) || is_covered from to rest

unfoldable pub is_skipped : HoldsMode → List (ArrowKey × List Edge) → ArrowKey → Bool
unfolding is_holds is_covered
is_skipped mode drawn (from, (to, class)) =
    if is_holds class
    then elim mode [ all_holds ↦ false | no_holds ↦ true | uncovered ↦ is_covered from to drawn ]
    else false

-- the arrows that are not skipped
unfoldable pub drawn_arrows : HoldsMode → List (ArrowKey × List Edge) → List (ArrowKey × List Edge)
unfolding is_skipped retain
drawn_arrows mode arrows = retain (λ a. not (is_skipped mode arrows a.0)) arrows

unfoldable pub arrow_lines : List (ArrowKey × List Edge) → String
unfolding quote_id arrow_attrs
arrow_lines [] = ""
arrow_lines (((from, (to, class)), edges) ∷ rest) =
    "  "
    <> (quote_id from
        <> (" -> "
            <> (quote_id to
                <> (" [" <> (arrow_attrs class edges <> ("];\n" <> arrow_lines rest))))))

unfoldable pub to_dot_with : Output → DotOptions → Option String
unfolding owners remap_of emitted node_lines arrows drawn_arrows arrow_lines
to_dot_with o options = do
  let remap = remap_of options o.graph.nodes
  nodes ← node_lines o (owners options o.graph.nodes) (emitted remap [] o.graph.nodes)
  some (
      "digraph "
      <> (quote_id o.name
          <> (" {\n  rankdir=LR;\n  node [shape=record, fontname=\"Helvetica\", fontsize=10];\n  edge [fontname=\"Helvetica\", fontsize=9];\n"
              <> (nodes
                  <> (arrow_lines (drawn_arrows options.holds (arrows remap o.graph.edges))
                      <> "}\n")))))

-- `to_dot`
unfoldable pub to_dot : Output → Option String
unfolding to_dot_with
to_dot o = to_dot_with o default_options
