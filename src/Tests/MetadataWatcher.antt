-- ===== src/Tests/MetadataWatcher.antt =====
-- The theorems of the service metadata watcher at concrete inputs.
use cluster_registry.Prelude.{
  ℕ, zero, suc, ◌<◌, String, ◌≡◌, refl, false, none, some, List, [], ◌∷◌, All, ok, err, returned,
  negsuc, parse_int, lookup,
}
use cluster_registry.Kubernetes.{fetched, missing, finished}
use cluster_registry.MetadataWatcher.Path.{parse_path, scan_path, closes}
use cluster_registry.MetadataWatcher.Keys.{IsKey, parse_path-IsKey}
use cluster_registry.MetadataWatcher.Fields.{
  map_of, text_of, other_value, Unstructured, resolve_index, get_nested_string, is_bracketed,
  ends_with_bracket, inner, without_last, enter, element, walk_keys, leaf,
}
use cluster_registry.MetadataWatcher.Indexing.{Means, resolve_index-Means}
use cluster_registry.MetadataWatcher.Resource.{
  WatchedServiceObject, ServiceMetadataWatcher, WatcherReconciler,
}
use cluster_registry.MetadataWatcher.Watcher.{
  reconcile_fetched, gather, gather_object, get_service_id, patches_of_fields, patches_of_field,
  create_service_metadata_patch, is_allowed_gvk,
}
use cluster_registry.MetadataWatcher.Patches.{reconcile_fetched-ended}

abbrev keys : List String
keys = "spec" ∷ "ports" ∷ "[0]" ∷ "name" ∷ []

parse_path-IsKey_example : All IsKey keys
unfolding parse_path scan_path closes
parse_path-IsKey_example = parse_path-IsKey "spec.ports[0].name" keys refl

resolve_index-Means_example :
    (resolve_index 3 (negsuc 0) ≡ some 2 → (2 < 3) × Means 3 (negsuc 0) 2)
    × ((2 < 3) × Means 3 (negsuc 0) 2 → resolve_index 3 (negsuc 0) ≡ some 2)
resolve_index-Means_example = resolve_index-Means 3 (negsuc 0) 2

-- A value is a number, and 0 is a map whose only field is a list of two numbers.
abbrev numbers : Unstructured ℕ (Unit {0}) ℕ
numbers = record {
  shape = λ v. elim v [ zero ↦ map_of tt | suc n ↦ other_value ];
  nested_slice = λ obj fields. elim fields [ [] ↦ err "no list" | _ ↦ ok (some (1 ∷ 2 ∷ [])) ];
  nested_map = λ obj fields. ok none;
  nested_string = λ obj fields. ok none;
  nested_bool = λ obj fields. ok none;
  nested_int64 = λ obj fields. ok none;
  nested_float64 = λ obj fields. ok none;
  format_int = λ n. "";
  format_float = λ x. "";
}

-- The elements are texts here.
abbrev texts : Unstructured ℕ (Unit {0}) ℕ
texts = record numbers { shape = λ v. elim v [ zero ↦ map_of tt | suc n ↦ text_of "x" ] }

-- The world is the list of the patches; only pods are allowed.
abbrev reconciler : WatcherReconciler (List String) ℕ (Unit {0}) ℕ
reconciler = record {
  get = λ req w. (missing, w);
  get_annotations = λ namespace w. (ok (("service", "7") ∷ []), w);
  get_object = λ gvk key w. (ok 0, w);
  clusters_in = λ namespace w. (ok [], w);
  patch = λ c p w. (ok c, p ∷ w);
  schema = record {
    parse_group_version = λ v. ok (record { group = ""; version = v });
    gvk_text = λ gvk. gvk.kind;
  };
  unstructured = texts;
  marshal = λ c. ok "";
  create_merge_patch = λ old new. ok "p";
  watched_gvks = (record { group = ""; version = "v1"; kind = "Pod" }) ∷ [];
  service_id_annotation = "service";
}

abbrev watched : String → WatchedServiceObject
watched kind = record {
  object_reference = record { name = "a"; api_version = "v1"; kind = kind };
  watched_fields = (record { source = "ports[1]"; destination = "port" }) ∷ [];
}

-- A pod, whose field gives a patch, and a secret, which is not allowed.
abbrev watcher : ServiceMetadataWatcher
watcher = record {
  name = "w";
  namespace = "ns";
  deleted = false;
  watched_service_objects = watched "Pod" ∷ watched "Secret" ∷ [];
}

reconcile_fetched-ended_example :
    reconcile_fetched reconciler (fetched watcher) [] ≡ (returned finished, [])
unfolding get_service_id gather gather_object patches_of_fields patches_of_field parse_path
    scan_path closes get_nested_string walk_keys is_bracketed ends_with_bracket inner without_last
    enter element parse_int resolve_index leaf create_service_metadata_patch is_allowed_gvk lookup
reconcile_fetched-ended_example =
    reconcile_fetched-ended reconciler watcher "7" (watched "Pod" ∷ []) [] (watched "Secret")
      ("p" ∷ []) finished [] [] [] [] refl refl refl refl refl
