-- ===== src/Tests/Control.antt =====
-- A subscription to a full channel, and a weak reference to a live actor, of src/actor_ref.rs.
use rsactor.Base.{ℕ, true, false, none, some, List, [], ◌∷◌}
use rsactor.Identity.{Identity}
use rsactor.ActorRef.Call.{full}
use rsactor.ActorRef.Control.{subscribe_idle, Weak}
use rsactor.ActorRef.Control.Laws.{KeepsStream, subscribe_idle-KeepsStream}

abbrev ticker : Identity
ticker = record { id = 9; type_name = "Ticker" }

abbrev queued_streams : List ℕ
queued_streams = 4 ∷ []

abbrev new_stream : ℕ
new_stream = 5

subscribe_idle-KeepsStream_example :
    KeepsStream full true queued_streams new_stream
      (subscribe_idle {Time = ℕ} {Cause = ℕ} ticker true full queued_streams new_stream)
subscribe_idle-KeepsStream_example =
    subscribe_idle-KeepsStream ℕ ℕ ticker true full queued_streams new_stream

abbrev weak_ticker : Weak
weak_ticker = record {
  identity = ticker;
  sender = some (record { is_closed = false });
  terminate_sender = some (record { is_closed = false });
  priority_sender = some none;
  idle_subscribe_sender = none;
}
