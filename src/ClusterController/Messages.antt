-- ===== src/ClusterController/Messages.antt =====
-- From the controller to the database: what the API server does with the message that the cluster
-- controller sends, pkg/client/controllers/cluster_controller.go, pkg/sqs/event.go and
-- pkg/apiserver/event/handler.go.
use cluster_registry.Prelude.{
  String, ◌≡◌, refl, Bool, none, some, Option-cases, inl, inr, [], ◌∷◌, lookup, contains, Result,
  ok, Act, returned, ℤ, parse_int, map,
}
use cluster_registry.Registry.Cluster.{Cluster}
use cluster_registry.Database.Api.{Db}
use cluster_registry.Queue.{Entry}
use cluster_registry.Events.{
  Message, Event, new_event, handle, handle_message, decode_message, update_decoded, update_cluster,
  drop_cached, sent_at, cluster_update_event,
}
use cluster_registry.ClusterController.{
  annotation_of, entry_of, skips_invalidation, skip_cache_invalidation_annotation,
}

-- An entry as the queue delivers it: a message with the same body and attributes, and the time at
-- which it was sent among the attributes of the queue's own.
abbrev pub delivered : String → String → String → Entry → Message
delivered id receipt timestamp e = record {
  message_id = id;
  receipt_handle = receipt;
  body = some e.message_body;
  attributes = ("SentTimestamp", timestamp) ∷ [];
  message_attributes = map (λ a. (a.0, some a.1)) e.message_attributes;
}

module _ {W Item Key Condition Expr : Type 0} (d : Db W Item Key Condition Expr)
    (unmarshal_cluster : String → Result Cluster) where
  -- The delivered message is read as an event, which the API server handles as an update of that
  -- cluster at the time at which the message was sent.
  pub handle-delivered :
      (c : Cluster) (skip : Bool) (uuid id receipt timestamp body : String) (ms : ℤ) (w : W)
      → unmarshal_cluster body ≡ ok c
      → parse_int "strconv.ParseInt" timestamp ≡ ok ms
      → (e : Event) × (new_event (some (delivered id receipt timestamp (entry_of uuid body c skip)))
          ≡ returned (ok e))
        × (handle d unmarshal_cluster (some e) w ≡ (
            let (r, w') = update_cluster d unmarshal_cluster (sent_at ms) c w in (returned r, w')))
  unfolding new_event entry_of lookup contains handle handle_message decode_message update_decoded
  handle-delivered c skip uuid id receipt timestamp body ms w read sent = (
    record {
      type = cluster_update_event;
      message = delivered id receipt timestamp (entry_of uuid body c skip);
    },
    refl,
    rw (read, handle, decode_message, sent) refl,
  )

  -- The message of the controller makes the receiver drop its cached lists exactly if the cluster
  -- does not have the annotation that asks to keep them.
  drop_cached-delivered :
      (delete_message : Message → Act W (Result (Unit {0})))
      (invalidate : String → Act W (Result (Unit {0}))) (c : Cluster)
      (uuid id receipt timestamp body : String) (w : W)
      → drop_cached d unmarshal_cluster delete_message invalidate
          (delivered id receipt timestamp (entry_of uuid body c (skips_invalidation c)))
          w
        ≡ returned (elim (annotation_of skip_cache_invalidation_annotation c) [
          | none ↦ (invalidate "clusters" w).1
          | some v ↦ w
        ])
  unfolding drop_cached entry_of lookup
  drop_cached-delivered delete_message invalidate c uuid id receipt timestamp body w =
      elim (Option-cases (annotation_of skip_cache_invalidation_annotation c)) [
        | inl p ↦ rw p refl
        | inr (v, p) ↦ rw p refl
      ]
