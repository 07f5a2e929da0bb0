-- ===== src/ActorGraph/Output/Derived/Orders.antt =====
-- The derived orders of rsactor-graph/src/model.rs, by which `Output::new` sorts.
use rsactor.Base.{◌≡◌, refl, ◌⊎◌, inl, inr}
use rsactor.ActorGraph.Model.{
  HandledMessage, ActorNode, ExternalActorNode, FnNode, ExternalNode, HandlersNode, UnknownNode,
  Node, actor, external_actor, fn, external, handlers, unknown, Edge, ReportEntry,
}
use rsactor.ActorGraph.Output.{TotalOrder, Orders}
use rsactor.ActorGraph.Output.Derived.{
  by_key, pair_order, either_order, list_order, option_order, bool_order,
}
use rsactor.ActorGraph.Output.Derived.Basic.{
  text_order, resolution_order, kind_order, category_order, location_order, optional_text,
}

message_order : TotalOrder HandledMessage
message_order =
    by_key (λ m. (m.key, ((m.label, m.reply), ((m.reply_key, m.resolution), (m.cfg, m.location)))))
      (λ x. record {
        key = x.0;
        label = x.1.0.0;
        reply = x.1.0.1;
        reply_key = x.1.1.0.0;
        resolution = x.1.1.0.1;
        cfg = x.1.1.1.0;
        location = x.1.1.1.1;
      })
      (λ m. refl)
      (pair_order text_order (
        pair_order (pair_order text_order optional_text) (
          pair_order (pair_order optional_text resolution_order)
            (pair_order (list_order text_order) location_order))))

actor_order : TotalOrder ActorNode
actor_order =
    by_key
      (λ n. ((n.id, n.target), ((n.path, n.display), (n.open_messages, (n.messages, n.location)))))
      (λ x. record {
        id = x.0.0;
        target = x.0.1;
        path = x.1.0.0;
        display = x.1.0.1;
        open_messages = x.1.1.0;
        messages = x.1.1.1.0;
        location = x.1.1.1.1;
      })
      (λ n. refl)
      (pair_order (pair_order text_order text_order) (
        pair_order (pair_order text_order text_order)
          (pair_order bool_order (pair_order (list_order message_order) location_order))))

external_actor_order : TotalOrder ExternalActorNode
external_actor_order =
    by_key (λ n. (n.id, n.path)) (λ x. record { id = x.0; path = x.1 }) (λ n. refl)
      (pair_order text_order text_order)

fn_order : TotalOrder FnNode
fn_order =
    by_key (λ n. ((n.id, n.target), (n.path, n.owner)))
      (λ x. record { id = x.0.0; target = x.0.1; path = x.1.0; owner = x.1.1 }) (λ n. refl)
      (pair_order (pair_order text_order text_order) (pair_order text_order optional_text))

external_order : TotalOrder ExternalNode
external_order = by_key (λ n. n.id) (λ x. record { id = x }) (λ n. refl) text_order

handlers_order : TotalOrder HandlersNode
handlers_order =
    by_key
      (λ n. (
        (n.id, n.handler),
        (
          (n.message, n.message_label),
          ((n.reply, n.reply_label), (n.candidates, n.may_be_outside)),
        ),
      ))
      (λ x. record {
        id = x.0.0;
        handler = x.0.1;
        message = x.1.0.0;
        message_label = x.1.0.1;
        reply = x.1.1.0.0;
        reply_label = x.1.1.0.1;
        candidates = x.1.1.1.0;
        may_be_outside = x.1.1.1.1;
      })
      (λ n. refl)
      (pair_order (pair_order text_order text_order) (
        pair_order (pair_order text_order text_order) (
          pair_order (pair_order optional_text optional_text)
            (pair_order (list_order text_order) bool_order))))

unknown_order : TotalOrder UnknownNode
unknown_order =
    by_key (λ n. (n.id, n.sender)) (λ x. record { id = x.0; sender = x.1 }) (λ n. refl)
      (pair_order text_order text_order)

abbrev Variants : Type 0
Variants =
    ActorNode ⊎ (ExternalActorNode ⊎ (FnNode ⊎ (ExternalNode ⊎ (HandlersNode ⊎ UnknownNode))))

node_order : TotalOrder Node
node_order = by_key key of_key back (
    either_order actor_order (
      either_order external_actor_order (
        either_order fn_order
          (either_order external_order (either_order handlers_order unknown_order)))))
  where
    key : Node → Variants
    key (actor n) = inl n
    key (external_actor n) = inr (inl n)
    key (fn n) = inr (inr (inl n))
    key (external n) = inr (inr (inr (inl n)))
    key (handlers n) = inr (inr (inr (inr (inl n))))
    key (unknown n) = inr (inr (inr (inr (inr n))))

    of_key : Variants → Node
    of_key (inl n) = actor n
    of_key (inr (inl n)) = external_actor n
    of_key (inr (inr (inl n))) = fn n
    of_key (inr (inr (inr (inl n)))) = external n
    of_key (inr (inr (inr (inr (inl n))))) = handlers n
    of_key (inr (inr (inr (inr (inr n))))) = unknown n

    back : (n : Node) → of_key (key n) ≡ n
    back (actor n) = refl
    back (external_actor n) = refl
    back (fn n) = refl
    back (external n) = refl
    back (handlers n) = refl
    back (unknown n) = refl

edge_order : TotalOrder Edge
edge_order =
    by_key
      (λ e. (
        (e.kind, e.variant),
        (
          (e.from, e.to),
          (
            (e.message, e.message_label),
            ((e.reply, e.receiver_resolution), (e.message_resolution, e.locations)),
          ),
        ),
      ))
      (λ x. record {
        kind = x.0.0;
        variant = x.0.1;
        from = x.1.0.0;
        to = x.1.0.1;
        message = x.1.1.0.0;
        message_label = x.1.1.0.1;
        reply = x.1.1.1.0.0;
        receiver_resolution = x.1.1.1.0.1;
        message_resolution = x.1.1.1.1.0;
        locations = x.1.1.1.1.1;
      })
      (λ e. refl)
      (pair_order (pair_order kind_order optional_text) (
        pair_order (pair_order text_order text_order) (
          pair_order (pair_order optional_text optional_text) (
            pair_order (pair_order optional_text resolution_order)
              (pair_order resolution_order (list_order location_order))))))

entry_order : TotalOrder ReportEntry
entry_order =
    by_key (λ e. ((e.category, e.location), (e.sender, e.detail)))
      (λ x. record { category = x.0.0; location = x.0.1; sender = x.1.0; detail = x.1.1 })
      (λ e. refl)
      (pair_order (pair_order category_order (option_order location_order))
        (pair_order optional_text text_order))

pub derived_orders : Orders
derived_orders = record { nodes = node_order; edges = edge_order; entries = entry_order }
