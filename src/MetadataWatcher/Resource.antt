-- ===== src/MetadataWatcher/Resource.antt =====
-- pkg/api/registry/v1alpha1/servicemetadatawatcher_types.go, and what the controller of the resource
-- in pkg/client/controllers/servicemetadatawatcher_controller.go calls.
use cluster_registry.Prelude.{String, Bool, false, none, List, [], ◌∷◌, Dict, Result, Act}
use cluster_registry.Registry.Cluster.{Cluster, empty_spec}
use cluster_registry.Kubernetes.{Fetched, NamespacedName}
use cluster_registry.SyncManager.Parser.{GroupVersionKind, Schema}
use cluster_registry.MetadataWatcher.Fields.{Unstructured}

pub record ObjectReference : Type 0 where
  pub name : String
  pub api_version : String
  pub kind : String

pub record WatchedField : Type 0 where
  pub source : String
  pub destination : String

pub record WatchedServiceObject : Type 0 where
  pub object_reference : ObjectReference
  pub watched_fields : List WatchedField

-- `deleted` tells of a deletion timestamp. The code never reads nor writes the status.
pub record ServiceMetadataWatcher : Type 0 where
  pub name : String
  pub namespace : String
  pub deleted : Bool
  pub watched_service_objects : List WatchedServiceObject

-- The controller, and what it calls: the API of the cluster, whose `patch` gives back the cluster as
-- the server left it; the annotations of a namespace; the encoder; and the jsonpatch library.
pub record WatcherReconciler (W Value Object Float : Type 0) : Type 0 where
  pub get : NamespacedName → Act W (Fetched ServiceMetadataWatcher)
  pub get_annotations : String → Act W (Result (Dict String))
  pub get_object : GroupVersionKind → NamespacedName → Act W (Result Value)
  pub clusters_in : String → Act W (Result (List Cluster))
  pub patch : Cluster → String → Act W (Result Cluster)
  pub schema : Schema
  pub unstructured : Unstructured Value Object Float
  pub marshal : Cluster → Result String
  pub create_merge_patch : String → String → Result String
  pub watched_gvks : List GroupVersionKind
  pub service_id_annotation : String

-- `&registryv1.Cluster{}`
abbrev pub empty_cluster : Cluster
empty_cluster = record {
  meta = record {
    name = "";
    namespace = "";
    annotations = none;
    resource_version = "";
    managed_fields = [];
    is_deleted = false;
  };
  spec = empty_spec;
}

-- The cluster that has this one field of service metadata.
abbrev pub with_service_field : String → String → String → String → Cluster
with_service_field service_id namespace field value = record empty_cluster {
  spec = record empty_spec {
    service_metadata = (service_id, (namespace, (field, value) ∷ []) ∷ []) ∷ [];
  };
}
