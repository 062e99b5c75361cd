-- ===== src/MetadataWatcher/Watcher.antt =====
-- pkg/client/controllers/servicemetadatawatcher_controller.go: the reconciliation of a
-- ServiceMetadataWatcher. The log lines are left out.
use cluster_registry.Prelude.{
  String, ◌<>◌, ◌==◌, Bool, true, false, Option, none, some, List, [], ◌∷◌, ◌++◌, lookup, Result,
  ok, err, ◌>>=◌, Act, Outcome, returned, panicked, out_of_fuel, then_return, if◌then◌else◌,
}
use cluster_registry.Registry.Cluster.{Cluster}
use cluster_registry.Kubernetes.{
  Fetched, fetched, missing, failed, NamespacedName, Reconciled, finished, failed_with,
}
use cluster_registry.SyncManager.Parser.{GroupVersionKind}
use cluster_registry.MetadataWatcher.Path.{parse_path}
use cluster_registry.MetadataWatcher.Fields.{Found, get_nested_string}
use cluster_registry.MetadataWatcher.Resource.{
  WatchedField, WatchedServiceObject, ServiceMetadataWatcher, WatcherReconciler, empty_cluster,
  with_service_field,
}

-- What the loop over the watched objects gives: an end of the reconciliation, or the patches.
pub data Gathered : Type 0 where
  ended : Reconciled → Gathered
  patches_of : List String → Gathered

module _ {W Value Object Float : Type 0} (r : WatcherReconciler W Value Object Float) where
  -- `createServiceMetadataPatch`
  unfoldable pub create_service_metadata_patch : String → String → String → String → Result String
  create_service_metadata_patch service_id namespace field value = do
    old ← r.marshal empty_cluster
    new ← r.marshal (with_service_field service_id namespace field value)
    r.create_merge_patch old new

  abbrev of_annotation : String → Option String → Result String
  of_annotation namespace none =
      err ("namespace " <> namespace <> " does not have annotation " <> r.service_id_annotation)
  of_annotation namespace (some id) = ok id

  -- `getServiceIdFromNamespaceAnnotation`
  unfoldable pub get_service_id : String → Act W (Result String)
  get_service_id namespace w =
      let (found, w') = r.get_annotations namespace w in
      (
        found >>= λ annotations.
            of_annotation namespace (lookup r.service_id_annotation annotations),
        w',
      )

  unfoldable pub is_one_of : String → List GroupVersionKind → Bool
  is_one_of text [] = false
  is_one_of text (gvk ∷ gvks) =
      let rest = is_one_of text gvks in if text == r.schema.gvk_text gvk then true else rest

  -- `isAllowedGVK`
  unfoldable pub is_allowed_gvk : GroupVersionKind → Bool
  unfolding is_one_of
  is_allowed_gvk gvk = is_one_of (r.schema.gvk_text gvk) r.watched_gvks

  -- The patches of a field: none after an error, or if the field is not found.
  abbrev patch_list : Result String → List String
  patch_list (err e) = []
  patch_list (ok p) = p ∷ []

  abbrev patches_of_found : String → String → String → Found → List String
  patches_of_found service_id namespace destination (err e) = []
  patches_of_found service_id namespace destination (ok none) = []
  patches_of_found service_id namespace destination (ok (some value)) =
      patch_list (create_service_metadata_patch service_id namespace destination value)

  unfoldable pub patches_of_field : String → String → Value → WatchedField → Outcome (List String)
  patches_of_field service_id namespace obj field = elim (parse_path field.source) [
    | err e ↦ returned []
    | ok path ↦
        then_return (get_nested_string r.unstructured obj path)
          λ found. returned (patches_of_found service_id namespace field.destination found)
  ]

  -- The loop over the watched fields of an object.
  unfoldable pub patches_of_fields :
      String → String → Value → List WatchedField → Outcome (List String)
  patches_of_fields service_id namespace obj [] = returned []
  patches_of_fields service_id namespace obj (field ∷ fields) =
      then_return (patches_of_field service_id namespace obj field) λ first.
        then_return (patches_of_fields service_id namespace obj fields)
          λ rest. returned (first ++ rest)

  -- The object's part of the loop, once the object is there.
  patches_of_object : String → String → WatchedServiceObject → Result Value → Outcome Gathered
  patches_of_object service_id namespace wso (err e) = returned (ended (failed_with e))
  patches_of_object service_id namespace wso (ok obj) = elim (wso.watched_fields) [
    | [] ↦ returned (ended finished)
    | field ∷ fields ↦
        then_return (patches_of_fields service_id namespace obj (field ∷ fields))
          λ patches. returned (patches_of patches)
  ]

  unfoldable pub gather_allowed :
      String → String → WatchedServiceObject → GroupVersionKind → Act W (Outcome Gathered)
  unfolding patches_of_object
  gather_allowed service_id namespace wso gvk w =
      if is_allowed_gvk gvk
      then (let (obj, w') =
            r.get_object gvk (record { namespace = namespace; name = wso.object_reference.name })
              w in
          (patches_of_object service_id namespace wso obj, w'))
      else (returned (ended finished), w)

  -- One watched object.
  unfoldable pub gather_object : String → String → WatchedServiceObject → Act W (Outcome Gathered)
  unfolding gather_allowed
  gather_object service_id namespace wso w =
      elim (r.schema.parse_group_version wso.object_reference.api_version) [
        | err e ↦ (returned (ended (failed_with e)), w)
        | ok gv ↦
            gather_allowed service_id namespace wso
              (record { group = gv.group; version = gv.version; kind = wso.object_reference.kind })
              w
      ]

  -- The patches before those of the rest.
  abbrev pub gathered_before : List String → Outcome Gathered → Outcome Gathered
  gathered_before first (returned (patches_of rest)) = returned (patches_of (first ++ rest))
  gathered_before first other = other

  -- What follows an object: the rest of the loop, or nothing once the loop is left.
  abbrev pub after_object : Outcome Gathered → Act W (Outcome Gathered) → Act W (Outcome Gathered)
  after_object (returned (patches_of patches)) rest w =
      let (others, w') = rest w in (gathered_before patches others, w')
  after_object left rest w = (left, w)

  -- The loop over the watched objects.
  unfoldable pub gather : String → String → List WatchedServiceObject → Act W (Outcome Gathered)
  gather service_id namespace [] w = (returned (patches_of []), w)
  gather service_id namespace (wso ∷ objects) w =
      let (first, w') = gather_object service_id namespace wso w in
      after_object first (λ v. gather service_id namespace objects v) w'

  -- A patch that fails is logged, and leaves the cluster as it was.
  abbrev patched_or : Cluster → Result Cluster → Cluster
  patched_or c (err e) = c
  patched_or c (ok c') = c'

  unfoldable pub patch_each : Cluster → List String → W → W
  patch_each c [] w = w
  patch_each c (p ∷ patches) w =
      let (answer, w') = r.patch c p w in patch_each (patched_or c answer) patches w'

  unfoldable pub patch_clusters : List Cluster → List String → W → W
  patch_clusters [] patches w = w
  patch_clusters (c ∷ clusters) patches w = patch_clusters clusters patches (patch_each c patches w)

  -- `applyServiceMetadataPatches`
  unfoldable pub apply_service_metadata_patches : List String → Act W (Result (Unit {0}))
  apply_service_metadata_patches patches w =
      let (listed, w') = r.clusters_in "cluster-registry" w in
      elim listed [
        | err e ↦ (err e, w')
        | ok clusters ↦ (ok tt, patch_clusters clusters patches w')
      ]

  abbrev on_applied : Result (Unit {0}) → Reconciled
  on_applied (err e) = failed_with e
  on_applied (ok u) = finished

  -- What follows the loop.
  unfoldable pub apply_gathered : Outcome Gathered → Act W (Outcome Reconciled)
  apply_gathered panicked w = (panicked, w)
  apply_gathered out_of_fuel w = (out_of_fuel, w)
  apply_gathered (returned (ended result)) w = (returned result, w)
  apply_gathered (returned (patches_of [])) w = (returned finished, w)
  apply_gathered (returned (patches_of (p ∷ patches))) w =
      let (applied, w') = apply_service_metadata_patches (p ∷ patches) w in
      (returned (on_applied applied), w')

  unfoldable pub with_service_id :
      ServiceMetadataWatcher → Result String → Act W (Outcome Reconciled)
  with_service_id watcher (err e) w = (returned finished, w)
  with_service_id watcher (ok service_id) w =
      let (gathered, w') = gather service_id watcher.namespace watcher.watched_service_objects w in
      apply_gathered gathered w'

  -- A watcher that is being deleted, or that has no object, is left alone.
  unfoldable pub start :
      Bool → List WatchedServiceObject → ServiceMetadataWatcher → Act W (Outcome Reconciled)
  unfolding with_service_id
  start true objects watcher w = (returned finished, w)
  start false [] watcher w = (returned finished, w)
  start false (wso ∷ objects) watcher w =
      let (service_id, w') = get_service_id watcher.namespace w in
      with_service_id watcher service_id w'

  -- `Reconcile`, from what was fetched.
  unfoldable pub reconcile_fetched : Fetched ServiceMetadataWatcher → Act W (Outcome Reconciled)
  unfolding start
  reconcile_fetched missing w = (returned finished, w)
  reconcile_fetched (failed e) w = (returned (failed_with e), w)
  reconcile_fetched (fetched watcher) w =
      start watcher.deleted watcher.watched_service_objects watcher w

  -- `Reconcile`
  unfoldable pub reconcile : NamespacedName → Act W (Outcome Reconciled)
  reconcile req w = let (found, w') = r.get req w in reconcile_fetched found w'
