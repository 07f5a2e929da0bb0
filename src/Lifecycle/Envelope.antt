-- ===== src/Lifecycle/Envelope.antt =====
-- One message: `PayloadHandler::handle_message` of src/lib.rs and `process_envelope!` of
-- src/actor.rs, with the drop of the wait-for token at the end of the arm.
use rsactor.Base.{ℕ, Option, none, some, List, [], ◌∷◌, ◌++◌}
use rsactor.Lifecycle.Program.{
  Program, Cut, by_panic, at_await, by_abort, returns, cut, ReplyChannel, Envelope, Source,
  prioritized, received, drained, Metric, message, priority_message, Event, handling, replied, told,
  recorded, edge_dropped,
}

module _ (p : Program) where
  open p use {Actor, Reply, handle, on_tell_result}

  -- What a stretch of the task did, and the actor after it, or what cut it off.
  pub data Handled : Type 0 where
    done : List (Event p) → Actor → Handled
    cut_off : Cut → List (Event p) → Handled

  -- the reply goes to the caller, or for a tell to `on_tell_result`
  unfoldable pub deliver : Option ReplyChannel → Actor → Reply → Handled
  deliver (some channel) a r = done (replied channel r ∷ []) a
  deliver none a r = elim (on_tell_result r) [
    | cut c ↦ cut_off c (told r ∷ [])
    | returns _ ↦ done (told r ∷ []) a
  ]

  unfoldable pub handle_message : Actor → Envelope p → Handled
  unfolding deliver
  handle_message a e = elim (handle a e.payload) [
    | cut c ↦ cut_off c []
    | returns result ↦ deliver e.reply_channel result.0 result.1
  ]

  -- the counter that `record =` names at each use of `process_envelope!`
  unfoldable pub metric_of : Source p → Metric p
  metric_of prioritized = priority_message
  metric_of received = message
  metric_of drained = priority_message

  unfoldable pub drop_edge : Option ℕ → List (Event p)
  drop_edge none = []
  drop_edge (some i) = edge_dropped i ∷ []

  -- unwinding and an abort drop the token; a handler that is suspended holds it
  unfoldable pub release : Cut → Option ℕ → List (Event p)
  unfolding drop_edge
  release by_panic edge = drop_edge edge
  release by_abort edge = drop_edge edge
  release at_await edge = []

  -- the metrics are recorded only after the handler returned
  unfoldable pub finish_envelope : Source p → Envelope p → Handled → Handled
  unfolding metric_of drop_edge release
  finish_envelope src e (done t a) =
      done (handling src e ∷ (t ++ recorded (metric_of src) ∷ drop_edge e.ask_edge)) a
  finish_envelope src e (cut_off c t) = cut_off c (handling src e ∷ (t ++ release c e.ask_edge))

  unfoldable pub process_envelope : Source p → Actor → Envelope p → Handled
  unfolding finish_envelope handle_message
  process_envelope src a e = finish_envelope src e (handle_message a e)
