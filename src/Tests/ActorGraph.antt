-- ===== src/Tests/ActorGraph.antt =====
-- The graph of rsactor-graph/src for a router that tells two workers, of which one asks a store.
use mathlib.Core.List.{Memᴰ}
use rsactor.Base.{◌≡◌, refl, ◌↔◌, ◌⊎◌, inr, false, none, some, [], ◌∷◌}
use rsactor.ActorGraph.Model.{
  exact, Location, ActorNode, actor, Edge, tell, ask, Graph, ReportEntry, unclassified, Report,
}
use rsactor.ActorGraph.Output.{Output, schema_version, new, actors}
use rsactor.ActorGraph.Output.Canonical.{Presents, new_implements}
use rsactor.ActorGraph.Output.Derived.Orders.{derived_orders}
use rsactor.ActorGraph.Render.Groups.{uncovered, default_options, remap_of}
use rsactor.ActorGraph.Render.Dot.Drawn.{IsDrawn, IsLeftOut, edges-IsDrawn}
use rsactor.ActorGraph.Types.{Ty, declared, generic, std, nil, cons}
use rsactor.ActorGraph.Focus.{matches, focus}
use rsactor.ActorGraph.Focus.Kept.{IsNeighbourhood, focus_keeps}
use rsactor.Base.Text.{ends_with}

abbrev place : Location
place = record { file = "src/main.rs"; line = 3 }

abbrev router : ActorNode
router = record {
  id = "actor:app:app::Router";
  target = "app";
  path = "app::Router";
  display = "app::Router";
  open_messages = false;
  messages = [];
  location = place;
}

abbrev worker : ActorNode
worker = record router { id = "actor:app:app::Worker"; path = "app::Worker" }

abbrev store : ActorNode
store = record router { id = "actor:app:app::Store"; path = "app::Store" }

abbrev tells : Edge
tells = record {
  kind = tell;
  variant = none;
  from = "actor:app:app::Router";
  to = "actor:app:app::Worker";
  message = none;
  message_label = none;
  reply = none;
  receiver_resolution = exact;
  message_resolution = exact;
  locations = place ∷ [];
}

abbrev asks : Edge
asks = record tells { kind = ask; from = "actor:app:app::Worker"; to = "actor:app:app::Store" }

abbrev seen : ReportEntry
seen = record { category = unclassified; location = some place; sender = none; detail = "send" }

abbrev graph : Graph
graph = record {
  nodes = actor worker ∷ actor router ∷ actor store ∷ actor worker ∷ [];
  edges = asks ∷ tells ∷ asks ∷ [];
}

abbrev report : Report
report = record { entries = seen ∷ seen ∷ [] }

abbrev output : Output
output = record { schema_version = schema_version; name = "app"; graph = graph; report = report }

new_implements_example :
    Presents derived_orders "app" graph report output
    ↔ (output ≡ new derived_orders "app" graph report)
new_implements_example = new_implements derived_orders "app" graph report output

focus_keeps_example :
    (x : Output) × (focus output "Router" 1 ≡ inr x)
    × IsNeighbourhood output "actor:app:app::Router" 1 x
unfolding actors matches ends_with
focus_keeps_example = focus_keeps output "Router" "actor:app:app::Router" 1 refl

-- `Result<T>` for `Response<T, Error>`, used as `Result<Vec<U>>`, for a `U` of `u8`
abbrev response : Ty
response = declared 4 (cons (generic "T") (cons (declared 5 nil false) nil)) false

abbrev vec_of : Ty → Ty
vec_of t = std "std::vec::Vec" (cons t nil)

edges-IsDrawn_example :
    IsDrawn (remap_of default_options graph.nodes) graph.edges uncovered tells
    ⊎ IsLeftOut (remap_of default_options graph.nodes) graph.edges uncovered tells
edges-IsDrawn_example =
    edges-IsDrawn (remap_of default_options graph.nodes) graph.edges uncovered tells
      (Memᴰ.tail (Memᴰ.head refl))
