-- ===== src/ActorGraph/Render/Labels.antt =====
-- The labels of nodes and arrows and the report's text in rsactor-graph/src/render.rs.
use Prim.Native.Char.{code}
use text.Mathlib.Text.{◌==◌ as ◌==ₛ◌}
use rsactor.Base.{
  ℕ, zero, suc, ◌-◌, ltb, ◌==◌, String, ◌<>◌, Bool, true, false, not, ◌&&◌, ◌||◌, Option, none,
  some, List, [], ◌∷◌, ◌++◌, map, length, if◌then◌else◌,
}
use rsactor.Base.Text.{join}
use rsactor.Identity.{decimal}
use rsactor.ActorGraph.Model.{
  Resolution, exact, assumed, inferred, unresolved, weakest, EdgeKind, holds, spawn, tell, ask,
  Edge, FnNode, ActorNode, HandledMessage, HandlersNode, actor, ReportEntry, category_text,
}
use rsactor.ActorGraph.Output.{Output, sort, dedup, node}
use rsactor.ActorGraph.Output.Derived.Basic.{text_order}
use rsactor.ActorGraph.Types.Text.{last_segment}
use rsactor.ActorGraph.Render.Escape.{escape_text, escape_record}

pub data ArrowClass : Type 0 where
  holds_arrow : ArrowClass
  spawn_arrow : ArrowClass
  send_arrow : ArrowClass

unfoldable pub arrow_class : EdgeKind → ArrowClass
arrow_class holds = holds_arrow
arrow_class spawn = spawn_arrow
arrow_class tell = send_arrow
arrow_class ask = send_arrow

unfoldable pub take : {A : Type 0} → ℕ → List A → List A
take zero xs = []
take (suc n) [] = []
take (suc n) (x ∷ xs) = x ∷ take n xs

unfoldable pub fn_name : FnNode → String
unfolding last_segment
fn_name f = last_segment f.path

-- `owner` plus the member function names, at most six of them
unfoldable pub group_label : String → List FnNode → String
unfolding fn_name take sort dedup
group_label owner members =
    let names = dedup text_order (sort text_order (map fn_name members)) in
    let shown = take 6 names in
    let more =
      if ltb (length shown) (length names)
      then ", ... (+" <> (decimal (length names - length shown) <> ")")
      else "" in
    owner <> ("\n" <> (decimal (length names) <> (" fns: " <> (join ", " shown <> more))))

unfoldable pub guess_marker : Resolution → Option String
guess_marker assumed = some " (assumed)"
guess_marker inferred = some " (inferred)"
guess_marker exact = none
guess_marker unresolved = none

-- the markers begin with a space
unfoldable pub trim_start : String → String
trim_start String.[] = ""
trim_start (String.◌∷◌ c s) =
    let rest = trim_start s in if code c == b' ' then rest else String.◌∷◌ c s

unfoldable pub or_else : Option String → String → String
or_else none s = s
or_else (some t) s = t

unfoldable pub send_line : String → Edge → String
unfolding or_else
send_line verb e =
    let start = or_else e.variant verb <> (" " <> or_else e.message_label "?") in
    elim e.reply [ none ↦ start | some reply ↦ start <> (" -> " <> reply) ]

-- an edge's line, without its marker
unfoldable pub edge_line : Edge → String
unfolding send_line
edge_line e = elim e.kind [
  | holds ↦ ""
  | spawn ↦ elim e.variant [ some variant ↦ "spawn (" <> (variant <> ")") | none ↦ "spawn" ]
  | tell ↦ send_line "tell" e
  | ask ↦ send_line "ask" e
]

unfoldable pub edge_marker : Edge → Option String
unfolding guess_marker weakest
edge_marker e = guess_marker (weakest e.receiver_resolution e.message_resolution)

unfoldable pub marked_line : Edge → String
unfolding edge_line edge_marker trim_start
marked_line e = elim (edge_marker e) [
  | none ↦ edge_line e
  | some marker ↦ if edge_line e ==ₛ "" then trim_start marker else edge_line e <> marker
]

-- `lines.contains(&line)`
unfoldable pub contains : String → List String → Bool
contains s [] = false
contains s (t ∷ ts) = (t ==ₛ s) || contains s ts

unfoldable pub push_line : List String → String → List String
unfolding contains
push_line lines line =
    if not (line ==ₛ "") && not (contains line lines) then lines ++ line ∷ [] else lines

unfoldable pub push_lines : List String → List Edge → List String
unfolding push_line marked_line
push_lines lines [] = lines
push_lines lines (e ∷ es) = push_lines (push_line lines (marked_line e)) es

unfoldable pub all_guessed : List Edge → Bool
unfolding edge_marker
all_guessed [] = true
all_guessed (e ∷ es) = elim (edge_marker e) [ none ↦ false | some marker ↦ all_guessed es ]

unfoldable pub class_style : ArrowClass → List String
class_style holds_arrow = "dotted" ∷ []
class_style spawn_arrow = "bold" ∷ []
class_style send_arrow = []

unfoldable pub is_holds : ArrowClass → Bool
is_holds holds_arrow = true
is_holds _ = false

unfoldable pub optional_attr : List String → String → List String
optional_attr [] text = []
optional_attr (x ∷ xs) text = text ∷ []

-- One arrow for every edge of a class between two nodes: a line per distinct message. The arrow is
-- dashed only when every line was guessed.
unfoldable pub arrow_attrs : ArrowClass → List Edge → String
unfolding class_style is_holds all_guessed push_lines optional_attr sort escape_text
arrow_attrs class edges =
    let lines = sort text_order (push_lines [] edges) in
    let style =
      class_style class
      ++ (if all_guessed edges && not (is_holds class) then "dashed" ∷ [] else []) in
    join ", " (
      optional_attr style ("style=\"" <> (join "," style <> "\""))
      ++ ((if is_holds class then "color=gray50" ∷ [] else [])
          ++ optional_attr lines ("label=\"" <> (escape_text (join "\n" lines) <> "\""))))

unfoldable pub candidate_text : Output → String → String
unfolding node
candidate_text o id = elim (node o id) [ none ↦ id | some n ↦ elim n [ actor a ↦ a.path | _ ↦ id ] ]

unfoldable pub signature : HandlersNode → String
signature h = elim h.reply_label [
  | some reply ↦ h.handler <> ("<" <> (h.message_label <> (", " <> (reply <> ">"))))
  | none ↦ h.handler <> ("<" <> (h.message_label <> ">"))
]

unfoldable pub candidates_text : List String → String
candidates_text [] = "none in scope"
candidates_text (c ∷ cs) = join ", " (c ∷ cs)

unfoldable pub handlers_label : Output → HandlersNode → String
unfolding candidate_text signature candidates_text escape_text
handlers_label o h = escape_text (
    signature h
    <> ("\ncandidates: "
        <> (candidates_text (map (candidate_text o) h.candidates)
            <> (if h.may_be_outside then "\n(may also be an actor outside this list)" else ""))))

unfoldable pub cfg_text : List String → String
cfg_text [] = ""
cfg_text (c ∷ cs) = " [" <> (c <> ("]" <> cfg_text cs))

unfoldable pub resolution_mark : Resolution → String
resolution_mark exact = ""
resolution_mark assumed = " (assumed)"
resolution_mark inferred = " (inferred)"
resolution_mark unresolved = " (unresolved)"

unfoldable pub message_line : HandledMessage → String
unfolding cfg_text resolution_mark escape_record
message_line m =
    let reply : String = elim m.reply [ none ↦ "" | some reply ↦ " -> " <> reply ] in
    escape_record (m.label <> (reply <> (cfg_text m.cfg <> resolution_mark m.resolution))) <> "\\l"

unfoldable pub message_lines : List HandledMessage → String
unfolding message_line
message_lines [] = ""
message_lines (m ∷ ms) = message_line m <> message_lines ms

-- `{path|Msg -> Reply\lOther\l}`
unfoldable pub actor_label : ActorNode → String
unfolding message_lines escape_record
actor_label a =
    let title =
      escape_record a.display
      <> (if a.open_messages then "\\n(open: handles any message type)" else "") in
    elim a.messages [
      | [] ↦ "{" <> (title <> "}")
      | m ∷ ms ↦ "{" <> (title <> ("|" <> (message_lines (m ∷ ms) <> "}")))
    ]

unfoldable pub entry_text : ReportEntry → String
unfolding category_text
entry_text e =
    let place : String = elim e.location [
      | none ↦ "-"
      | some l ↦ l.file <> (":" <> decimal l.line)
    ] in
    let sender : String = elim e.sender [ none ↦ "" | some s ↦ " (" <> (s <> ")") ] in
    "["
    <> (category_text e.category <> ("] " <> (place <> (sender <> (": " <> (e.detail <> "\n"))))))

unfoldable pub entries_text : List ReportEntry → String
unfolding entry_text
entries_text [] = ""
entries_text (e ∷ es) = entry_text e <> entries_text es

-- Human-readable report for `--report`.
unfoldable pub report_text : Output → String
unfolding entries_text
report_text o = entries_text o.report.entries
