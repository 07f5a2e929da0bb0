-- ===== src/ActorGraph/Resolve/Names.antt =====
-- The names that rsactor-graph/src/resolve.rs knows: those of rsactor, of the standard prelude and
-- the primitive types.
use rsactor.Base.{String, Option, none, some, List, [], ◌∷◌, if◌then◌else◌}
use rsactor.ActorGraph.Render.Labels.{contains}
use rsactor.ActorGraph.Resolve.{Res, std_name, value_of}

abbrev pub rsactor_names : List String
rsactor_names =
    "Actor" ∷ "ActorControl" ∷ "ActorFailure" ∷ "ActorRef" ∷ "ActorResult" ∷ "ActorWeak"
    ∷ "AskHandler" ∷ "BoxFuture" ∷ "Channel" ∷ "DeadLetterReason" ∷ "Error" ∷ "FailurePhase"
    ∷ "Identity" ∷ "IdleSubscribeError" ∷ "Message" ∷ "MetricsSnapshot" ∷ "Operation" ∷ "Result"
    ∷ "SpawnOptions" ∷ "TellHandler" ∷ "WeakActorControl" ∷ "WeakAskHandler" ∷ "WeakTellHandler"
    ∷ "dead_letter_count" ∷ "message_handlers" ∷ "reset_dead_letter_count"
    ∷ "set_default_mailbox_capacity" ∷ "spawn" ∷ "spawn_with_mailbox_capacity"
    ∷ "spawn_with_options" ∷ []

abbrev pub std_prelude : List (String × String)
std_prelude =
    ("AsMut", "std::convert::AsMut")
    ∷ ("AsRef", "std::convert::AsRef")
    ∷ ("Box", "std::boxed::Box")
    ∷ ("Clone", "std::clone::Clone")
    ∷ ("Copy", "std::marker::Copy")
    ∷ ("Default", "std::default::Default")
    ∷ ("Drop", "std::ops::Drop")
    ∷ ("Eq", "std::cmp::Eq")
    ∷ ("Extend", "std::iter::Extend")
    ∷ ("Fn", "std::ops::Fn")
    ∷ ("FnMut", "std::ops::FnMut")
    ∷ ("FnOnce", "std::ops::FnOnce")
    ∷ ("From", "std::convert::From")
    ∷ ("Into", "std::convert::Into")
    ∷ ("IntoIterator", "std::iter::IntoIterator")
    ∷ ("Iterator", "std::iter::Iterator")
    ∷ ("Option", "std::option::Option")
    ∷ ("Ord", "std::cmp::Ord")
    ∷ ("PartialEq", "std::cmp::PartialEq")
    ∷ ("PartialOrd", "std::cmp::PartialOrd")
    ∷ ("Result", "std::result::Result")
    ∷ ("Send", "std::marker::Send")
    ∷ ("Sized", "std::marker::Sized")
    ∷ ("String", "std::string::String")
    ∷ ("Sync", "std::marker::Sync")
    ∷ ("ToOwned", "std::borrow::ToOwned")
    ∷ ("ToString", "std::string::ToString")
    ∷ ("TryFrom", "std::convert::TryFrom")
    ∷ ("TryInto", "std::convert::TryInto")
    ∷ ("Unpin", "std::marker::Unpin")
    ∷ ("Vec", "std::vec::Vec")
    ∷ []

abbrev pub primitives : List String
primitives =
    "bool" ∷ "char" ∷ "str" ∷ "i8" ∷ "i16" ∷ "i32" ∷ "i64" ∷ "i128" ∷ "isize" ∷ "u8" ∷ "u16" ∷ "u32"
    ∷ "u64" ∷ "u128" ∷ "usize" ∷ "f32" ∷ "f64" ∷ []

-- `prelude`
unfoldable pub prelude : String → Option Res
unfolding contains value_of
prelude name = elim (value_of name std_prelude) [
  | some path ↦ some (std_name path)
  | none ↦ if contains name primitives then some (std_name name) else none
]
