-- ===== src/SyncManager/Parser.antt =====
-- pkg/sync/parser/parser.go and the watched resources of
-- pkg/api/registry/v1alpha1/clustersync_types.go.
use cluster_registry.Prelude.{
  String, ◌<>◌, ◌==◌, ◌&&◌, Bool, Option, none, some, List, [], ◌∷◌, Result, ok, err, ◌>>=◌, Act,
  if◌then◌else◌,
}
use cluster_registry.Registry.Cluster.{ClusterSpec, empty_spec}
use cluster_registry.Kubernetes.{NamespacedName}
use cluster_registry.SyncManager.Merge.{Mergo, merge_spec}

pub record GroupVersion : Type 0 where
  pub group : String
  pub version : String

pub record GroupVersionKind : Type 0 where
  pub group : String
  pub version : String
  pub kind : String

abbrev pub same_group_version : GroupVersion → GroupVersionKind → Bool
same_group_version gv gvk = (gv.group == gvk.group) && (gv.version == gvk.version)

abbrev pub same_gvk : GroupVersionKind → GroupVersionKind → Bool
same_gvk a b = (a.group == b.group) && (a.version == b.version) && (a.kind == b.kind)

-- A label selector is of the library's type, behind a pointer.
pub record WatchedResource (Selector : Type 0) : Type 0 where
  pub kind : String
  pub api_version : String
  pub namespace : String
  pub name : String
  pub label_selector : Option Selector

-- The library's reading of an API version, and its text of a kind.
pub record Schema : Type 0 where
  pub parse_group_version : String → Result GroupVersion
  pub gvk_text : GroupVersionKind → String

-- `GVK` of a watched resource.
unfoldable pub gvk_of :
    {Selector : Type 0} → Schema → WatchedResource Selector → Result GroupVersionKind
gvk_of schema res = do
  gv ← schema.parse_group_version res.api_version
  ok (record { group = gv.group; version = gv.version; kind = res.kind })

-- The parser, but for its buffer, and what it calls: the API of the cluster, the encoder of a
-- cluster's specification, and the merge patches of the jsonpatch library. A handler is registered
-- in front of the earlier ones of its kind.
pub record ResourceParser (W Object Selector Matcher : Type 0) : Type 0 where
  pub schema : Schema
  pub as_selector : Selector → Result Matcher
  pub get_object : GroupVersionKind → NamespacedName → Act W (Result Object)
  pub list_objects : GroupVersionKind → String → Option Matcher → Act W (Result (List Object))
  pub mergo : Mergo
  pub marshal_spec : ClusterSpec → Result String
  pub create_merge_patch : String → String → Result String
  pub handlers : List (GroupVersionKind × (List Object → Result ClusterSpec))

module _ {W Object Selector Matcher : Type 0} where
  -- `RegisterHandlerForGVK`
  unfoldable pub register_handler_for_gvk :
      GroupVersionKind
      → (List Object → Result ClusterSpec)
      → ResourceParser W Object Selector Matcher
      → ResourceParser W Object Selector Matcher
  register_handler_for_gvk gvk handler p = record p { handlers = (gvk, handler) ∷ p.handlers }

-- `handlers[gvk]`
unfoldable pub handler_for :
    {Handler : Type 0} → GroupVersionKind → List (GroupVersionKind × Handler) → Option Handler
handler_for gvk [] = none
handler_for gvk (h ∷ handlers) =
    let rest = handler_for gvk handlers in if same_gvk h.0 gvk then some h.1 else rest

module _ {W Object Selector Matcher : Type 0} (p : ResourceParser W Object Selector Matcher) where
  abbrev one_object : Result Object → Result (List Object)
  one_object (err e) = err e
  one_object (ok obj) = ok (obj ∷ [])

  -- A list that fails is logged and counts as empty.
  abbrev listed : Result (List Object) → Result (List Object)
  listed (err e) = ok []
  listed (ok objects) = ok objects

  unfoldable pub selector_of : Option Selector → Result (Option Matcher)
  selector_of none = ok none
  selector_of (some s) = p.as_selector s >>= λ matcher. ok (some matcher)

  unfoldable pub list_selected :
      GroupVersionKind → String → Result (Option Matcher) → Act W (Result (List Object))
  list_selected gvk namespace (err e) w = (err e, w)
  list_selected gvk namespace (ok matcher) w =
      let (r, w') = p.list_objects gvk namespace matcher w in (listed r, w')

  -- `getObjectsForResource`, whose `GVK` is that of its caller.
  unfoldable pub get_objects_for_resource :
      GroupVersionKind → WatchedResource Selector → Act W (Result (List Object))
  unfolding selector_of list_selected
  get_objects_for_resource gvk res w =
      if res.name == ""
      then list_selected gvk res.namespace (selector_of res.label_selector) w
      else (let (r, w') =
            p.get_object gvk (record { namespace = res.namespace; name = res.name }) w in
          (one_object r, w'))

  -- `Handle`, and the merge of its answer into the buffer.
  merged_with :
      ClusterSpec → (List Object → Result ClusterSpec) → Result (List Object) → Result ClusterSpec
  merged_with buffer handle objects =
      objects >>= handle >>= λ patch. merge_spec p.mergo buffer patch

  unfoldable pub parse_with :
      ClusterSpec
      → WatchedResource Selector
      → GroupVersionKind
      → Option (List Object → Result ClusterSpec)
      → Act W (Result ClusterSpec)
  unfolding get_objects_for_resource merged_with
  parse_with buffer res gvk none w =
      (err ("no handler registered for GVK: " <> p.schema.gvk_text gvk), w)
  parse_with buffer res gvk (some handle) w =
      let (objects, w') = get_objects_for_resource gvk res w in
      (merged_with buffer handle objects, w')

  -- `Parse`: the buffer behind it. What a merge that fails leaves in the buffer is not modelled:
  -- the reconciliation that called it does not read it.
  unfoldable pub parse : ClusterSpec → WatchedResource Selector → Act W (Result ClusterSpec)
  unfolding parse_with
  parse buffer res w = elim (gvk_of p.schema res) [
    | err e ↦ (err e, w)
    | ok gvk ↦ parse_with buffer res gvk (handler_for gvk p.handlers) w
  ]

  -- `Diff`
  unfoldable pub diff : ClusterSpec → Result String
  diff buffer = do
    original ← p.marshal_spec empty_spec
    modified ← p.marshal_spec buffer
    p.create_merge_patch original modified
