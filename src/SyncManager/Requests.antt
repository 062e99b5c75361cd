-- ===== src/SyncManager/Requests.antt =====
-- Which ClusterSyncs are reconciled when a watched object changes: pkg/sync/manager/controller.go,
-- `enqueueRequestsFromMapFunc`, behind the tests that the object is of the watched kind.
use cluster_registry.Prelude.{
  ℕ, ltb, String, ◌≡◌, refl, ap, ◌∙◌, ◌==◌, ◌&&◌, ◌||◌, not, Bool, true, false, Bool-cases, inl,
  inr, Option, List, [], ◌∷◌, ◌++◌, map, All, Result, ok, err, Act, if◌then◌else◌, arith,
}
use cluster_registry.Kubernetes.{NamespacedName}
use cluster_registry.SyncManager.Parser.{
  Schema, GroupVersion, GroupVersionKind, WatchedResource, same_gvk, same_group_version,
}
use cluster_registry.SyncManager.Controller.{ClusterSync}

-- The object that changed.
pub record ChangedObject (Labels : Type 0) : Type 0 where
  pub name : String
  pub namespace : String
  pub gvk : GroupVersionKind
  pub labels : Labels

-- The library's selectors: `Size` of a selector behind a pointer, and its meaning.
pub record Selectors (Selector Matcher Labels : Type 0) : Type 0 where
  pub schema : Schema
  pub size : Option Selector → ℕ
  pub as_selector : Option Selector → Result Matcher
  pub matches : Matcher → Labels → Bool

-- What one ClusterSync, or one of its resources, means for the loop.
pub data Verdict : Type 0 where
  passed requested stopped : Verdict

module _ {Selector Matcher Labels : Type 0} (s : Selectors Selector Matcher Labels)
    (gvk : GroupVersionKind) (obj : ChangedObject Labels) where
  by_labels : Result Matcher → Verdict
  by_labels (err e) = stopped
  by_labels (ok m) = if s.matches m obj.labels then requested else passed

  by_version : ClusterSync Selector → WatchedResource Selector → Result GroupVersion → Verdict
  unfolding by_labels
  by_version sync res (err e) = stopped
  by_version sync res (ok gv) =
      if not (same_group_version gv gvk)
        || not (res.kind == gvk.kind)
        || not (sync.namespace == obj.namespace)
      then passed
      else if not (res.name == "") && not (res.name == obj.name)
      then passed
      else if ltb 0 (s.size res.label_selector)
      then by_labels (s.as_selector res.label_selector)
      else requested

  -- One resource of a ClusterSync.
  unfoldable pub watch_verdict : ClusterSync Selector → WatchedResource Selector → Verdict
  unfolding by_version
  watch_verdict sync res = by_version sync res (s.schema.parse_group_version res.api_version)

  -- The inner loop, which a first request ends.
  unfoldable pub scan_resources : ClusterSync Selector → List (WatchedResource Selector) → Verdict
  scan_resources sync [] = passed
  scan_resources sync (res ∷ resources) =
      let rest = scan_resources sync resources in
      elim (watch_verdict sync res) [ passed ↦ rest | requested ↦ requested | stopped ↦ stopped ]

  abbrev pub request_of : ClusterSync Selector → NamespacedName
  request_of sync = record { namespace = sync.namespace; name = sync.name }

  -- The outer loop. An error keeps the requests so far.
  unfoldable pub requests : List (ClusterSync Selector) → List NamespacedName
  requests [] = []
  requests (sync ∷ syncs) =
      let rest = requests syncs in
      elim (scan_resources sync sync.watched_resources) [
        | passed ↦ rest
        | requested ↦ request_of sync ∷ rest
        | stopped ↦ []
      ]

  -- `enqueueRequestsFromMapFunc`, from the answer of the list of the object's namespace.
  unfoldable pub enqueue_requests_from_map_func :
      {W : Type 0}
      → (String → Act W (Result (List (ClusterSync Selector))))
      → Act W (List NamespacedName)
  enqueue_requests_from_map_func list w =
      if same_gvk obj.gvk gvk
      then (let (r, w') = list obj.namespace w in
          (elim r [ err e ↦ [] | ok syncs ↦ requests syncs ], w'))
      else ([], w)

  -- The rest is of ClusterSyncs whose API versions and selectors can be read, as these.
  module _ (version_of : String → GroupVersion) (matcher_of : Option Selector → Matcher) where
    -- The resource says that it is the object: its kind, its namespace, its name if it has one, and
    -- its labels if it has a selector.
    abbrev watches : ClusterSync Selector → WatchedResource Selector → Bool
    watches sync res =
        same_group_version (version_of res.api_version) gvk
        && (res.kind == gvk.kind)
        && (sync.namespace == obj.namespace)
        && ((res.name == "") || (res.name == obj.name))
        && (not (ltb 0 (s.size res.label_selector))
            || s.matches (matcher_of res.label_selector) obj.labels)

    abbrev watches_any : ClusterSync Selector → List (WatchedResource Selector) → Bool
    watches_any sync [] = false
    watches_any sync (res ∷ resources) = watches sync res || watches_any sync resources

    abbrev pub watching : List (ClusterSync Selector) → List (ClusterSync Selector)
    watching [] = []
    watching (sync ∷ syncs) =
        if watches_any sync sync.watched_resources then sync ∷ watching syncs else watching syncs

    abbrev verdict_of : Bool → Verdict
    verdict_of true = requested
    verdict_of false = passed

    -- The API version and the selector of the resource can be read.
    abbrev IsReadable : WatchedResource Selector → Type 0
    IsReadable res =
        (s.schema.parse_group_version res.api_version ≡ ok (version_of res.api_version))
        × (s.as_selector res.label_selector ≡ ok (matcher_of res.label_selector))

    watch_verdict-watches :
        (sync : ClusterSync Selector) (res : WatchedResource Selector)
        → IsReadable res
        → watch_verdict sync res ≡ verdict_of (watches sync res)
    unfolding watch_verdict by_version by_labels
    watch_verdict-watches sync res (version, selector) =
        rw (version, by_version, selector, by_labels) (ground arith)

    scan_resources-watches :
        (sync : ClusterSync Selector) (resources : List (WatchedResource Selector))
        → All IsReadable resources
        → scan_resources sync resources ≡ verdict_of (watches_any sync resources)
    unfolding scan_resources
    scan_resources-watches sync [] readable = refl
    scan_resources-watches sync (res ∷ resources) (first, others) =
        elim (Bool-cases (watches sync res)) [
          | inl p ↦ rw (scan_resources, watch_verdict-watches sync res first, p) refl
          | inr p ↦
              rw (scan_resources, watch_verdict-watches sync res first, p)
                (scan_resources-watches sync resources others)
        ]

    -- Where the API version and the selector of every watched resource of these ClusterSyncs can be
    -- read, the ClusterSyncs that are requested when an object changes are, in order and once each,
    -- those of which some watched resource says by its kind, namespace, name and labels that it is
    -- the object.
    pub requests-watching :
        (syncs : List (ClusterSync Selector))
        → All (λ sync. All IsReadable sync.watched_resources) syncs
        → requests syncs ≡ map request_of (watching syncs)
    unfolding requests
    requests-watching [] readable = refl
    requests-watching (sync ∷ syncs) (first, others) =
        elim (Bool-cases (watches_any sync sync.watched_resources)) [
          | inl p ↦
              rw (requests, scan_resources-watches sync sync.watched_resources first, p)
                (ap (λ r. request_of sync ∷ r) (requests-watching syncs others))
          | inr p ↦
              rw (requests, scan_resources-watches sync sync.watched_resources first, p)
                (requests-watching syncs others)
        ]

  scan_resources-stopped :
      (sync : ClusterSync Selector) (res : WatchedResource Selector)
      (resources : List (WatchedResource Selector)) (e : String)
      → s.schema.parse_group_version res.api_version ≡ err e
      → scan_resources sync (res ∷ resources) ≡ stopped
  unfolding scan_resources watch_verdict by_version
  scan_resources-stopped sync res resources e bad = rw (scan_resources, bad, by_version) refl

  -- A ClusterSync whose first watched resource has an API version that cannot be read ends the
  -- search: the requests are those of the ClusterSyncs before it in the list, whatever stands
  -- behind it.
  requests-malformed :
      (before after : List (ClusterSync Selector)) (sync : ClusterSync Selector)
      (res : WatchedResource Selector) (resources : List (WatchedResource Selector)) (e : String)
      → sync.watched_resources ≡ res ∷ resources
      → s.schema.parse_group_version res.api_version ≡ err e
      → requests (before ++ sync ∷ after) ≡ requests before
  unfolding requests
  requests-malformed [] after sync res resources e has bad =
      rw (requests, ap (scan_resources sync) has ∙ scan_resources-stopped sync res resources e bad)
        refl
  requests-malformed (first ∷ before) after sync res resources e has bad =
      ap
        (λ rest. elim (scan_resources first first.watched_resources) [
          | passed ↦ rest
          | requested ↦ request_of first ∷ rest
          | stopped ↦ []
        ])
        (requests-malformed before after sync res resources e has bad)
