-- ===== src/Tests/SyncManager.antt =====
-- The theorems of the sync manager at concrete inputs.
use cluster_registry.Prelude.{
  String, ◌==◌, ◌≡◌, refl, false, Option, none, some, List, [], ◌∷◌, ◌++◌, map, length, ◌≤◌, ok,
  err, pos, inr, Act, Result, if◌then◌else◌,
}
use cluster_registry.Registry.Cluster.{ClusterSpec, Tier, empty_spec}
use cluster_registry.Queue.{Entry}
use cluster_registry.Kubernetes.{Fetched, fetched, missing, finished, NamespacedName}
use cluster_registry.SyncManager.Objects.{
  ObjectApi, get_nested_string, get_nested_int64, get_nested_string_map, get_nested_slice,
}
use cluster_registry.SyncManager.Handlers.{
  handle_objects, handle_all, machine_pool, pool_tier, put_tier, get_taints_as_string_slice,
}
use cluster_registry.SyncManager.Merge.{merge_spec}
use cluster_registry.SyncManager.Tiers.{IsDistinct, handle_objects-machine_pool}
use cluster_registry.SyncManager.Parser.{
  WatchedResource, GroupVersion, GroupVersionKind, Schema, parse, gvk_of, handler_for, diff,
  get_objects_for_resource,
}
use cluster_registry.SyncManager.Controller.{
  ClusterSync, SyncController, errors, parse_instance, parse_all, reconcile_live, stamped,
  with_data, has_different_hash, enqueue_data, Counter, reconcile, reconcile_fetched, conclude,
  should_enqueue_data, is_last_sync_successful, send,
}
use cluster_registry.SyncManager.Sending.{Sending, SendsOne, reconcile-SendsOne}
use cluster_registry.SyncManager.Settling.{reconcile_live-lost}
use cluster_registry.SyncManager.Requests.{
  ChangedObject, Selectors, requests, request_of, watching, requests-watching,
}

-- An object is its name; every text field of it is that name, and every number is 1.
abbrev names : ObjectApi String String
names = record {
  nested_string = λ obj fields. ok (some obj);
  nested_int64 = λ obj fields. ok (some (pos 1));
  nested_string_slice = λ obj fields. ok (some []);
  nested_string_map = λ obj fields. ok (some []);
  nested_slice = λ obj fields. ok (some []);
  taint = λ t. ok t;
  get_name = λ obj. obj;
  get_namespace = λ obj. "";
  gvk_text = λ obj. "";
}

abbrev pools : ClusterSpec
pools = record empty_spec { tiers = tier "a" ∷ tier "b" ∷ [] }
  where
    tier : String → Tier
    tier name = record {
      name = name;
      instance_type = name;
      container_runtime = "";
      min_capacity = pos 1;
      max_capacity = pos 1;
      labels = [];
      taints = [];
      enable_kata_support = false;
      kernel_parameters = [];
    }

-- Three machine pools, two of them of one name.
abbrev three : List String
three = "a" ∷ "b" ∷ "a" ∷ []

handle_objects-machine_pool_example : IsDistinct pools.tiers × (length pools.tiers ≤ length three)
unfolding handle_all machine_pool pool_tier get_nested_string get_nested_int64 get_nested_string_map
    get_taints_as_string_slice get_nested_slice put_tier
handle_objects-machine_pool_example = handle_objects-machine_pool names three refl

-- A version is its group, and the empty text is none.
abbrev schema : Schema
schema = record {
  parse_group_version =
      λ v. if v == "" then err "empty" else ok (record { group = v; version = "v1" });
  gvk_text = λ gvk. gvk.kind;
}

abbrev pool_kind : GroupVersionKind
pool_kind = record { group = "infra"; version = "v1"; kind = "Pool" }

abbrev resource : String → WatchedResource String
resource version = record {
  kind = "Pool";
  api_version = version;
  namespace = "ns";
  name = "pool";
  label_selector = none;
}

abbrev sync : String → List (WatchedResource String) → ClusterSync String
sync name resources = record {
  name = name;
  namespace = "ns";
  deleted = false;
  watched_resources = resources;
  initial_data = "one";
  last_sync_time = none;
  last_sync_status = none;
  last_sync_error = none;
  synced_data = none;
  synced_data_hash = none;
}

-- One that reads its instance by `get`, sends by `enqueue` and counts by `count`.
abbrev controller :
    {W : Type 0}
    → (get : NamespacedName → Act W (Fetched (ClusterSync String)))
    → (enqueue : List Entry → Act W (Result (Unit {0}))) (count : Counter → String → W → W)
    → SyncController W String String String
controller get enqueue count = record {
  get = get;
  update_status = λ s w. (ok tt, w);
  unmarshal_initial = λ text. (record empty_spec { short_name = text }, none);
  digest = λ text. elim text [ none ↦ "" | some s ↦ s ];
  marshal_data = λ text. elim text [ none ↦ ok "null" | some s ↦ ok s ];
  new_uuid = λ w. (ok "1", w);
  enqueue_batch = enqueue;
  now = λ w. ("now", w);
  count = count;
  parser = record {
    schema = schema;
    as_selector = λ s. ok s;
    get_object = λ gvk key w. (ok key.name, w);
    list_objects = λ gvk namespace matcher w. (ok [], w);
    mergo = record { merge = λ f into from. ok into; merge_tier = λ d s. ok d };
    marshal_spec = λ spec. ok spec.short_name;
    create_merge_patch = λ old new. ok new;
    handlers = (pool_kind, λ objects. handle_objects names (machine_pool names) objects) ∷ [];
  };
}

-- The world is the list of the errors that were counted; the queue is down.
abbrev broken_queue : SyncController (List String) String String String
broken_queue =
    controller (λ req w. (missing, w)) (λ entries w. (err "down", w))
      (λ counter name w. elim counter [ errors ↦ name ∷ w | _ ↦ w ])

abbrev one : ClusterSync String
one = sync "one" (resource "infra" ∷ [])

abbrev lost : ClusterSync String
lost = stamped broken_queue (with_data broken_queue one "one") "now"

reconcile_live-lost_example :
    (reconcile_live broken_queue one [] ≡ (finished, "one" ∷ []))
    × ((v v' : List String)
        → parse_instance broken_queue lost v ≡ ((record empty_spec { short_name = "one" }, []), v')
        → reconcile_live broken_queue lost v ≡ (finished, v'))
unfolding parse_instance parse_all parse gvk_of handler_for handle_all machine_pool pool_tier
    get_nested_string get_nested_int64 get_nested_string_map get_taints_as_string_slice
    get_nested_slice merge_spec diff has_different_hash enqueue_data put_tier
    get_objects_for_resource
reconcile_live-lost_example =
    reconcile_live-lost broken_queue one (record empty_spec { short_name = "one" }) "one" "now"
      "down" [] [] [] [] refl refl refl refl refl

-- The world is the list of the messages that were sent.
abbrev recording : SyncController (List Entry) String String String
recording =
    controller (λ req w. (fetched one, w)) (λ entries w. (ok tt, w ++ entries))
      (λ counter name w. w)

abbrev recording-Sending : Sending recording
recording-Sending = record {
  sent = λ w. w;
  get_keeps = λ req w. refl;
  update_status_keeps = λ sync w. refl;
  new_uuid_keeps = λ w. refl;
  now_keeps = λ w. refl;
  count_keeps = λ k name w. refl;
  get_object_keeps = λ gvk key w. refl;
  list_objects_keeps = λ gvk namespace matcher w. refl;
  enqueue_batch_lem = λ entries w. inr refl;
}

reconcile-SendsOne_example :
    SendsOne recording recording-Sending []
      (reconcile recording (record { namespace = "ns"; name = "one" }) []).1
reconcile-SendsOne_example =
    reconcile-SendsOne recording recording-Sending (record { namespace = "ns"; name = "one" }) []

-- It sends one message.
sent_one : length (reconcile recording (record { namespace = "ns"; name = "one" }) []).1 ≡ 1
unfolding reconcile reconcile_fetched reconcile_live parse_instance parse_all parse gvk_of
    handler_for handle_all machine_pool pool_tier get_nested_string get_nested_int64
    get_nested_string_map get_taints_as_string_slice get_nested_slice merge_spec diff
    has_different_hash enqueue_data put_tier get_objects_for_resource conclude should_enqueue_data
    is_last_sync_successful send
sent_one = refl

abbrev selectors : Selectors String String String
selectors = record {
  schema = schema;
  size = λ selector. elim selector [ none ↦ 0 | some s ↦ 1 ];
  as_selector = λ selector. elim selector [ none ↦ ok "" | some s ↦ ok s ];
  matches = λ matcher labels. matcher == labels;
}

abbrev changed : ChangedObject String
changed = record { name = "pool"; namespace = "ns"; gvk = pool_kind; labels = "" }

-- One that watches the object, and one that watches another kind.
abbrev two_syncs : List (ClusterSync String)
two_syncs = one ∷ sync "two" (resource "other" ∷ []) ∷ []

abbrev group_of : String → GroupVersion
group_of v = record { group = v; version = "v1" }

abbrev matcher_of : Option String → String
matcher_of none = ""
matcher_of (some s) = s

-- A version with too many slashes cannot be read.
abbrev slash_selectors : Selectors String String String
slash_selectors = record selectors {
  schema = record {
    parse_group_version = λ v. if v == "a/b/c" then err "unexpected" else ok (group_of v);
    gvk_text = λ gvk. gvk.kind;
  };
}

requests-watching_example :
    requests slash_selectors pool_kind changed two_syncs
    ≡ map
        (request_of slash_selectors pool_kind changed)
        (watching slash_selectors pool_kind changed group_of matcher_of two_syncs)
requests-watching_example =
    requests-watching slash_selectors pool_kind changed group_of matcher_of two_syncs
      (((refl, refl), tt), (((refl, refl), tt), tt))
