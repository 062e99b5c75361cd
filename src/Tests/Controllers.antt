-- ===== src/Tests/Controllers.antt =====
-- The theorems of the controllers at concrete inputs.
use cluster_registry.Prelude.{
  ◌≡◌, refl, false, Option, none, some, [], ◌∷◌, ok, pos, parse_int, ◌⊎◌, lookup, insert, contains,
  mul_int,
}
use cluster_registry.Registry.Cluster.{Cluster}
use cluster_registry.Events.{
  Event, new_event, handle, handle_message, decode_message, update_decoded, update_read,
  update_cluster, sent_at, with_last_updated,
}
use cluster_registry.Kubernetes.{missing, fetched}
use cluster_registry.ClusterController.{ClusterReconciler, annotated, has_different_hash, entry_of}
use cluster_registry.ClusterController.Hashes.{has_different_hash-annotated}
use cluster_registry.ClusterController.Messages.{delivered}
use cluster_registry.ClusterController.Arrival.{table-delivered}
use cluster_registry.Events.Arrival.{IsStored, IsKept}
use cluster_registry.Database.Api.{unix}
use cluster_registry.Database.Store.{get_cluster, put_cluster, decode_item}
use cluster_registry.Tests.Memory.{memory, memory_laws, cluster, row, parse_unary, format_unary}

-- A cluster in an otherwise empty world; its digest is its short name.
abbrev reconciler : ClusterReconciler (Option Cluster)
reconciler = record {
  get = λ req w. (elim w [ none ↦ missing | some c ↦ fetched c ], w);
  update = λ c w. (ok c, some c);
  digest = λ c. c.spec.short_name;
  marshal = λ c. ok c.spec.name;
  new_uuid = λ w. (ok "1", w);
  enqueue_batch = λ entries w. (ok tt, w);
  ca_data = "";
}

abbrev pub one : Cluster
one = cluster "one" "va6" "Active" ""

has_different_hash-annotated_example :
    has_different_hash reconciler (annotated reconciler one) ≡ false
has_different_hash-annotated_example = has_different_hash-annotated reconciler (λ c. refl) one

-- The cluster as it was sent at the time 0, and its event.
abbrev pub arrived : Cluster
arrived = with_last_updated (memory.time.format_nano (sent_at (pos 0))) one

abbrev pub event : Event
event = record {
  type = "cluster-update";
  message = delivered "m" "r" "0" (entry_of "u" "one" one false);
}

table-delivered_example :
    IsStored memory memory_laws
      (λ body. ok one)
      (sent_at (pos 0))
      one
      []
      (("one", row (pos 0) arrived) ∷ [])
    ⊎ IsKept memory memory_laws
        (λ body. ok one)
        (sent_at (pos 0))
        one
        []
        (("one", row (pos 0) arrived) ∷ [])
unfolding parse_int new_event handle handle_message decode_message update_decoded update_cluster
    update_read put_cluster get_cluster decode_item lookup insert contains entry_of parse_unary
    format_unary mul_int unix
table-delivered_example =
    table-delivered memory memory_laws (λ body. ok one) one false "u" "m" "r" "0" "one" (pos 0)
      event [] (("one", row (pos 0) arrived) ∷ []) refl refl refl refl
