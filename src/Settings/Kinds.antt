-- ===== src/Settings/Kinds.antt =====
-- The kinds that the controllers watch and parse: `loadWatchedGVKs` and `getAvailableGVKs` of
-- cmd/client/client.go and cmd/sync/manager/manager.go, which are the same in both, and the handlers
-- that the sync manager registers.
use cluster_registry.Prelude.{
  String, ◌≡◌, refl, ap, Bool, true, false, inl, inr, List, [], ◌∷◌, ◌++◌, map, Result, ok, err,
  Result-cases, returned, if◌then◌else◌,
}
use cluster_registry.Kubernetes.{Reconciled, finished, failed_with}
use cluster_registry.SyncManager.Objects.{ObjectApi}
use cluster_registry.SyncManager.Handlers.{
  handle_objects, control_plane, capi_cluster, eks_config, subnet, vpc, machine_pool,
}
use cluster_registry.SyncManager.Parser.{
  GroupVersion, GroupVersionKind, Schema, ResourceParser, same_gvk, register_handler_for_gvk,
}
use cluster_registry.MetadataWatcher.Resource.{WatcherReconciler, WatchedServiceObject}
use cluster_registry.MetadataWatcher.Watcher.{
  ended, gather_object, is_allowed_gvk, is_one_of, gather_allowed,
}

-- `APIResourceList`: a group and version, and the kinds of its resources.
pub record ResourceList : Type 0 where
  pub group_version : String
  pub kinds : List String

module _ (schema : Schema) where
  -- An error of the reading gives the empty group and version.
  abbrev version_or_empty : Result GroupVersion → GroupVersion
  version_or_empty (err e) = record { group = ""; version = "" }
  version_or_empty (ok gv) = gv

  abbrev gvk_in : GroupVersion → String → GroupVersionKind
  gvk_in gv kind = record { group = gv.group; version = gv.version; kind = kind }

  -- `getAvailableGVKs`, from what the server tells of its resources.
  unfoldable pub available_gvks : List ResourceList → List GroupVersionKind
  available_gvks [] = []
  available_gvks (l ∷ lists) =
      map (gvk_in (version_or_empty (schema.parse_group_version l.group_version))) l.kinds
      ++ available_gvks lists

  has_gvk : GroupVersionKind → List GroupVersionKind → Bool
  has_gvk gvk [] = false
  has_gvk gvk (other ∷ gvks) =
      let rest = has_gvk gvk gvks in if same_gvk other gvk then true else rest

  installed : List GroupVersionKind → List GroupVersionKind → List GroupVersionKind
  unfolding has_gvk
  installed available [] = []
  installed available (gvk ∷ gvks) =
      let rest = installed available gvks in if has_gvk gvk available then gvk ∷ rest else rest

  -- `loadWatchedGVKs`: the kinds of the configuration that the server has, and none if it cannot be
  -- asked.
  unfoldable pub load_watched_gvks :
      Result (List ResourceList) → List GroupVersionKind → List GroupVersionKind
  unfolding installed
  load_watched_gvks (err e) configured = []
  load_watched_gvks (ok lists) configured = installed (available_gvks lists) configured

-- The handlers that cmd/sync/manager/manager.go registers, one behind the other.
unfoldable pub with_handlers :
    {W Object Selector Matcher Element : Type 0}
    → ObjectApi Object Element
    → ResourceParser W Object Selector Matcher
    → ResourceParser W Object Selector Matcher
with_handlers api rp =
    let a =
      register_handler_for_gvk
        (record { group = "cluster.x-k8s.io"; version = "v1beta1"; kind = "Cluster" })
        (λ objects. handle_objects api (capi_cluster api) objects) rp in
    let b =
      register_handler_for_gvk
        (record { group = "ec2.services.k8s.aws"; version = "v1alpha1"; kind = "VPC" })
        (λ objects. handle_objects api (vpc api) objects) a in
    let c =
      register_handler_for_gvk
        (record { group = "ec2.services.k8s.aws"; version = "v1alpha1"; kind = "Subnet" })
        (λ objects. handle_objects api (subnet api) objects) b in
    let d =
      register_handler_for_gvk
        (record {
          group = "controlplane.cluster.x-k8s.io";
          version = "v1beta2";
          kind = "AWSManagedControlPlane";
        })
        (λ objects. handle_objects api (control_plane api) objects) c in
    let e =
      register_handler_for_gvk
        (record {
          group = "infrastructure.cluster.x-k8s.io";
          version = "v1beta2";
          kind = "AWSManagedMachinePool";
        })
        (λ objects. handle_objects api (machine_pool api) objects) d in
    register_handler_for_gvk
      (record { group = "bootstrap.cluster.x-k8s.io"; version = "v1beta2"; kind = "EKSConfig" })
      (λ objects. handle_objects api (eks_config api) objects) e

is_allowed_gvk-undiscovered :
    {W Value Object Float : Type 0} (r : WatcherReconciler W Value Object Float)
    (configured : List GroupVersionKind) (e : String) (gvk : GroupVersionKind)
    → r.watched_gvks ≡ load_watched_gvks r.schema (err e) configured
    → is_allowed_gvk r gvk ≡ false
unfolding is_allowed_gvk is_one_of load_watched_gvks
is_allowed_gvk-undiscovered r configured e gvk none_watched =
    ap (is_one_of r (r.schema.gvk_text gvk)) none_watched

-- A client that could not ask for the kinds when it started ends the loop of a watcher at its first
-- object, without a read and without a patch.
load_watched_gvks-undiscovered :
    {W Value Object Float : Type 0} (r : WatcherReconciler W Value Object Float)
    (configured : List GroupVersionKind) (e service_id namespace : String)
    (wso : WatchedServiceObject) (w : W)
    → r.watched_gvks ≡ load_watched_gvks r.schema (err e) configured
    → (result : Reconciled) × (gather_object r service_id namespace wso w
        ≡ (returned (ended result), w))
unfolding gather_object gather_allowed
load_watched_gvks-undiscovered r configured e service_id namespace wso w none_watched =
    elim (Result-cases (r.schema.parse_group_version wso.object_reference.api_version)) [
      | inl (gv, p) ↦ (
        finished,
        rw
            (
              p,
              gather_object,
              is_allowed_gvk-undiscovered r configured e
                  (gvk_in r.schema gv wso.object_reference.kind) none_watched,
              gather_allowed,
            )
            refl,
      )
      | inr (reason, p) ↦ (failed_with reason, rw (p, gather_object) refl)
    ]
