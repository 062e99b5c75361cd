-- ===== src/ClusterController.antt =====
-- pkg/client/controllers/cluster_controller.go: the controller on every cluster that sends the
-- Cluster resource to the queue. The log lines are left out.
pub mod Hashes
pub mod Messages
pub mod Arrival
use cluster_registry.Prelude.{
  String, ◌==◌, Bool, true, false, not, Option, none, some, List, [], ◌∷◌, Dict, lookup, insert,
  remove, get_or, Result, ok, err, Act, ℤ, pos, if◌then◌else◌,
}
use cluster_registry.Registry.Cluster.{Cluster, ObjectMeta}
use cluster_registry.Events.{cluster_update_event}
use cluster_registry.Queue.{Entry}
use cluster_registry.Kubernetes.{
  Fetched, fetched, missing, failed, NamespacedName, Reconciled, finished, failed_with,
}

abbrev pub hash_annotation : String
hash_annotation = "registry.ethos.adobe.com/hash"

abbrev pub skip_cache_invalidation_annotation : String
skip_cache_invalidation_annotation = "registry.ethos.adobe.com/skip-cache-invalidation"

abbrev skip_ca_cert_annotation : String
skip_ca_cert_annotation = "registry.ethos.adobe.com/skip-ca-cert"

-- The controller, and what it calls: the API of the cluster, whose `update` gives back the object as
-- the server left it; the hexadecimal SHA-256 of a resource's JSON; the encoder; fresh identifiers;
-- and `Enqueue` of its queue, within ten seconds.
pub record ClusterReconciler (W : Type 0) : Type 0 where
  pub get : NamespacedName → Act W (Fetched Cluster)
  pub update : Cluster → Act W (Result Cluster)
  pub digest : Cluster → String
  pub marshal : Cluster → Result String
  pub new_uuid : Act W (Result String)
  pub enqueue_batch : List Entry → Act W (Result (Unit {0}))
  pub ca_data : String

abbrev pub annotation_of : String → Cluster → Option String
annotation_of key c = lookup key (get_or c.meta.annotations [])

abbrev pub without_hashes : Option (Dict String) → Option (Dict String)
without_hashes none = none
without_hashes (some m) =
    some (remove skip_cache_invalidation_annotation (remove hash_annotation m))

-- The clone that `hashCluster` marshals.
unfoldable pub hashed_part : Cluster → Cluster
hashed_part c = record c {
  meta = record (c.meta) {
    annotations = without_hashes c.meta.annotations;
    resource_version = "";
    managed_fields = [];
  };
}

-- `%t`
abbrev shown_bool : Bool → String
shown_bool true = "true"
shown_bool false = "false"

abbrev has_key : Option String → Bool
has_key none = false
has_key (some v) = true

-- Whether the receiver is told to keep its cached lists.
abbrev pub skips_invalidation : Cluster → Bool
skips_invalidation c = has_key (annotation_of skip_cache_invalidation_annotation c)

-- The cluster with these annotations.
abbrev pub with_annotations : Dict String → Cluster → Cluster
with_annotations annotations c = record c {
  meta = record (c.meta) { annotations = some annotations };
}

-- The message that `enqueue` sends for a cluster.
unfoldable pub entry_of : String → String → Cluster → Bool → Entry
entry_of id body c skip = record {
  id = id;
  delay_seconds = pos 10;
  message_attributes =
      ("Type", cluster_update_event)
      ∷ ("ClusterName", c.spec.name)
      ∷ ("SkipCacheInvalidation", shown_bool skip)
      ∷ [];
  message_body = body;
}

module _ {W : Type 0} (r : ClusterReconciler W) where
  unfoldable pub hash_cluster : Cluster → String
  hash_cluster c = r.digest (hashed_part c)

  -- The annotations with the new hash, and without the request to keep the cached lists.
  unfoldable pub annotated : Cluster → Cluster
  annotated c =
      with_annotations
        (remove skip_cache_invalidation_annotation
          (insert hash_annotation (hash_cluster c) (get_or c.meta.annotations [])))
        c

  send : Cluster → Bool → String → Result String → Act W (Result (Unit {0}))
  send c skip body (err e) w = (err e, w)
  send c skip body (ok id) w = r.enqueue_batch (entry_of id body c skip ∷ []) w

  -- `enqueue`
  unfoldable pub enqueue_cluster : Cluster → Bool → Act W (Result (Unit {0}))
  unfolding send
  enqueue_cluster c skip w = elim (r.marshal c) [
    | err e ↦ (err e, w)
    | ok body ↦ let (id, w') = r.new_uuid w in send c skip body id w'
  ]

  abbrev on_enqueued : Result (Unit {0}) → Reconciled
  on_enqueued (ok u) = finished
  on_enqueued (err e) = failed_with e

  -- `ReconcileCreateUpdate`
  unfoldable pub reconcile_create_update : Cluster → Act W Reconciled
  reconcile_create_update c w =
      let (sent, w') = enqueue_cluster (annotated c) (skips_invalidation c) w in
      (on_enqueued sent, w')

  abbrev with_ca_data : Cluster → Cluster
  with_ca_data c = record c {
    spec = record (c.spec) {
      api_server = record (c.spec.api_server) { certificate_authority_data = r.ca_data };
    };
  }

  -- What follows the update of the certificate.
  updated : Result Cluster → Act W Reconciled
  updated (err e) w = (record { requeue = true; requeue_after = pos 5; error = some e }, w)
  updated (ok c) w = reconcile_create_update c w

  unfoldable pub reconcile_fetched : Fetched Cluster → Act W Reconciled
  unfolding updated
  reconcile_fetched missing w = (finished, w)
  reconcile_fetched (failed e) w = (failed_with e, w)
  reconcile_fetched (fetched c) w =
      if get_or (annotation_of skip_ca_cert_annotation c) "" == "true"
      then reconcile_create_update c w
      else if r.ca_data == ""
      then reconcile_create_update c w
      else (let (u, w') = r.update (with_ca_data c) w in updated u w')

  -- `Reconcile`
  unfoldable pub reconcile : NamespacedName → Act W Reconciled
  reconcile req w = let (found, w') = r.get req w in reconcile_fetched found w'

  unfoldable pub has_different_hash : Cluster → Bool
  has_different_hash c = not (get_or (annotation_of hash_annotation c) "" == hash_cluster c)

-- The events that the controller takes, as `eventFilters` has them.
pub data ClusterEvent : Type 0 where
  created : Cluster → ClusterEvent
  updated_to : Cluster → Cluster → ClusterEvent
  deleted : Cluster → Bool → ClusterEvent

unfoldable pub event_filters : {W : Type 0} → ClusterReconciler W → ClusterEvent → Bool
event_filters r (created c) = has_different_hash r c
event_filters r (updated_to old c) = has_different_hash r c
event_filters r (deleted c state_unknown) = not state_unknown
