-- ===== src/MetadataWatcher/Mapping.antt =====
-- Which ServiceMetadataWatchers are reconciled when a watched object changes:
-- pkg/client/controllers/servicemetadatawatcher_controller.go, `enqueueRequestsFromMapFunc`, and the
-- filter of the events of a watcher.
use cluster_registry.Prelude.{
  String, ◌==◌, ◌&&◌, not, Bool, true, false, List, [], ◌∷◌, ◌++◌, Result, ok, err, Act,
  if◌then◌else◌,
}
use cluster_registry.Kubernetes.{NamespacedName}
use cluster_registry.SyncManager.Parser.{
  Schema, GroupVersion, GroupVersionKind, same_gvk, same_group_version,
}
use cluster_registry.SyncManager.Requests.{ChangedObject}
use cluster_registry.MetadataWatcher.Resource.{WatchedServiceObject, ServiceMetadataWatcher}

module _ {Labels : Type 0} (schema : Schema) (gvk : GroupVersionKind)
    (obj : ChangedObject Labels) where
  abbrev has_version : Result GroupVersion → Bool
  has_version (err e) = false
  has_version (ok gv) = same_group_version gv gvk

  -- The tests on one watched object of a watcher.
  unfoldable pub refers_to : ServiceMetadataWatcher → WatchedServiceObject → Bool
  refers_to smw wso =
      has_version (schema.parse_group_version wso.object_reference.api_version)
      && (wso.object_reference.kind == gvk.kind)
      && (smw.namespace == obj.namespace)
      && (wso.object_reference.name == obj.name)

  -- A watcher is requested once for each of its references.
  unfoldable pub requests_of :
      ServiceMetadataWatcher → List WatchedServiceObject → List NamespacedName
  requests_of smw [] = []
  requests_of smw (wso ∷ objects) =
      let rest = requests_of smw objects in
      if refers_to smw wso
      then (record { namespace = smw.namespace; name = smw.name }) ∷ rest
      else rest

  unfoldable pub watcher_requests : List ServiceMetadataWatcher → List NamespacedName
  watcher_requests [] = []
  watcher_requests (smw ∷ watchers) =
      requests_of smw smw.watched_service_objects ++ watcher_requests watchers

  -- `enqueueRequestsFromMapFunc`, from the answer of the list of the object's namespace.
  unfoldable pub enqueue_watchers :
      {W : Type 0}
      → (String → Act W (Result (List ServiceMetadataWatcher)))
      → Act W (List NamespacedName)
  enqueue_watchers list w =
      if same_gvk obj.gvk gvk
      then (let (r, w') = list obj.namespace w in
          (elim r [ err e ↦ [] | ok watchers ↦ watcher_requests watchers ], w'))
      else ([], w)

-- The events on a watcher, as `eventFilters` takes them.
pub data WatcherEvent : Type 0 where
  created updated_to : ServiceMetadataWatcher → WatcherEvent
  deleted_last : ServiceMetadataWatcher → Bool → WatcherEvent

unfoldable pub event_filters : WatcherEvent → Bool
event_filters (created smw) = true
event_filters (updated_to smw) = true
event_filters (deleted_last smw state_unknown) = not state_unknown
