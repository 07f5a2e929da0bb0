-- ===== src/ActorGraph/Model.antt =====
-- The data of rsactor-graph/src/model.rs: nodes, edges, judgements and report entries.
use rsactor.Base.{ℕ, String, Bool, Option, List, leb, if◌then◌else◌}

-- how much guessing went into a judgement, strongest first
pub data Resolution : Type 0 where
  exact : Resolution
  assumed : Resolution
  inferred : Resolution
  unresolved : Resolution

-- the derived order is the order of the declaration
unfoldable pub rank : Resolution → ℕ
rank exact = 0
rank assumed = 1
rank inferred = 2
rank unresolved = 3

-- `self.max(other)`
unfoldable pub weakest : Resolution → Resolution → Resolution
unfolding rank
weakest a b = if leb (rank a) (rank b) then b else a

pub record Location : Type 0 where
  pub file : String
  pub line : ℕ

pub record HandledMessage : Type 0 where
  pub key : String
  pub label : String
  pub reply : Option String
  pub reply_key : Option String
  pub resolution : Resolution
  pub cfg : List String
  pub location : Location

pub record ActorNode : Type 0 where
  pub id : String
  pub target : String
  pub path : String
  pub display : String
  pub open_messages : Bool
  pub messages : List HandledMessage
  pub location : Location

pub record ExternalActorNode : Type 0 where
  pub id : String
  pub path : String

pub record FnNode : Type 0 where
  pub id : String
  pub target : String
  pub path : String
  pub owner : Option String

pub record ExternalNode : Type 0 where
  pub id : String

pub record HandlersNode : Type 0 where
  pub id : String
  pub handler : String
  pub message : String
  pub message_label : String
  pub reply : Option String
  pub reply_label : Option String
  pub candidates : List String
  pub may_be_outside : Bool

pub record UnknownNode : Type 0 where
  pub id : String
  pub sender : String

pub data Node : Type 0 where
  actor : ActorNode → Node
  external_actor : ExternalActorNode → Node
  fn : FnNode → Node
  external : ExternalNode → Node
  handlers : HandlersNode → Node
  unknown : UnknownNode → Node

unfoldable pub node_id : Node → String
node_id (actor n) = n.id
node_id (external_actor n) = n.id
node_id (fn n) = n.id
node_id (external n) = n.id
node_id (handlers n) = n.id
node_id (unknown n) = n.id

pub data EdgeKind : Type 0 where
  holds : EdgeKind
  spawn : EdgeKind
  tell : EdgeKind
  ask : EdgeKind

pub record Edge : Type 0 where
  pub kind : EdgeKind
  pub variant : Option String
  pub from : String
  pub to : String
  pub message : Option String
  pub message_label : Option String
  pub reply : Option String
  pub receiver_resolution : Resolution
  pub message_resolution : Resolution
  pub locations : List Location

pub record Graph : Type 0 where
  pub nodes : List Node
  pub edges : List Edge

pub data Category : Type 0 where
  declaration : Category
  unresolved_edge : Category
  unclassified : Category
  unsupported_receiver : Category
  ufcs : Category
  macro_candidate : Category
  unresolved_spawn : Category
  cross_check : Category

-- `Category::as_str`
unfoldable pub category_text : Category → String
category_text declaration = "declaration"
category_text unresolved_edge = "unresolved-edge"
category_text unclassified = "unclassified"
category_text unsupported_receiver = "unsupported-receiver"
category_text ufcs = "ufcs"
category_text macro_candidate = "macro-candidate"
category_text unresolved_spawn = "unresolved-spawn"
category_text cross_check = "cross-check"

pub record ReportEntry : Type 0 where
  pub category : Category
  pub location : Option Location
  pub sender : Option String
  pub detail : String

pub record Report : Type 0 where
  pub entries : List ReportEntry
