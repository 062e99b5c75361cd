-- ===== src/Slt/Update.antt =====
-- test/slt/checks/update/update.go: the end-to-end test. It sets a tag of the Cluster resource, and
-- asks the API of the registry until it answers with that tag.
pub mod Confirming
pub mod Tagging
use cluster_registry.Prelude.{
  ℕ, zero, suc, ◌+◌, String, ◌<>◌, ◌==◌, true, false, Option, none, some, List, [], ◌∷◌, Dict,
  lookup, insert, get_or, Result, ok, err, Act, leb, if◌then◌else◌,
}
use cluster_registry.Registry.Cluster.{Cluster}
use cluster_registry.ClusterController.{skip_cache_invalidation_annotation}
use cluster_registry.Slt.{
  Ending, ended, out_of_fuel, then_end, SltApi, ◌>>=◌, ◌>>◌, explained, explaining, pure_call,
}
use cluster_registry.Slt.Requests.{get_env, fetch_cluster}

abbrev pub tag_slt : String
tag_slt = "update-slt"

pub record TestConfig : Type 0 where
  pub url : String
  pub namespace : String

-- What `Run` returns: both of its values.
pub record RunResult : Type 0 where
  pub tries : ℕ
  pub error : Option String

-- The tags with the value of the test's tag changed.
unfoldable pub flip_tag : Dict String → Option String → Result (Dict String)
flip_tag tags none = ok (insert tag_slt "Tick" tags)
flip_tag tags (some value) =
    if value == "Tick"
    then ok (insert tag_slt "Tack" tags)
    else if value == "Tack"
    then ok (insert tag_slt "Tick" tags)
    else err ("found '" <> tag_slt <> "' tag with wrong value '" <> value <> "'")

unfoldable pub next_tags : Option (Dict String) → Result (Dict String)
unfolding flip_tag
next_tags none = ok ((tag_slt, "Tick") ∷ [])
next_tags (some tags) = flip_tag tags (lookup tag_slt tags)

-- The resource as it is sent.
abbrev pub with_tags : Cluster → Dict String → Cluster
with_tags c tags = record {
  meta = record (c.meta) {
    managed_fields = [];
    annotations =
        some (insert skip_cache_invalidation_annotation "" (get_or c.meta.annotations []));
  };
  spec = record (c.spec) { tags = some tags };
}

-- The value of the test's tag, as `Tags[tagSLT]` gives it.
abbrev pub tag_of : Option (Dict String) → String
tag_of tags = get_or (lookup tag_slt (get_or tags [])) ""

-- There should only be one resource.
abbrev first_item : List Cluster → Result Cluster
first_item [] = err "no CRD found, the 'Items' list is empty"
first_item (c ∷ clusters) = ok c

-- What a `Raw` gives, where the error is told with the response.
abbrev raw_or_error : String × Option String → Result String
raw_or_error (raw, none) = ok raw
raw_or_error (raw, some e) =
    err ("could not get the custom resource: " <> e <> ". Response " <> raw)

-- Whether the API answered with the tag that was set.
abbrev has_tag : String → Option (Dict String) → Result (Unit {0})
has_tag value none = err "tags field is empty"
has_tag value (some tags) =
    if value == tag_of (some tags)
    then ok tt
    else err (
        "the 'Tags' field is not what expected. The value is '"
        <> tag_of (some tags)
        <> "', expected '"
        <> value
        <> "'")

abbrev pub max_nr_of_tries : ℕ
max_nr_of_tries = 3

module _ {W Principal : Type 0} (api : SltApi W Principal) where
  -- `GetConfigFromEnv`
  unfoldable pub get_config_from_env : Ending TestConfig
  unfolding get_env
  get_config_from_env = then_end (get_env api "URL" "http://localhost:8080") λ url.
      then_end (get_env api "NAMESPACE" "cluster-registry")
        λ namespace. ended (record { url = url; namespace = namespace })

  -- The resource that the cluster has.
  unfoldable pub read_crd : String → Act W (Result Cluster)
  read_crd namespace = do
    explaining "could not create Kubernetes config: " api.get_config
    explaining "could not create Kubernetes client: " api.new_client
    raw ← (λ w. let (answer, w') = api.list_raw namespace w in (raw_or_error answer, w'))
    clusters ←
        pure_call (explained "could not unmarshal Kubernetes response: " (api.decode_clusters raw))
    pure_call (first_item clusters)

  -- The resource is sent back with these tags; its name and the value of the tag are returned.
  unfoldable pub send_crd : String → Cluster → Act W (Result (String × String))
  send_crd namespace c = do
    body ← pure_call (explained "could not marshal updated CRD: " (api.encode_cluster c))
    explaining "could not update the CRD: " (api.patch namespace c.spec.name body)
    pure_call (ok (c.spec.name, tag_of c.spec.tags))

  -- `updateCrd`
  unfoldable pub update_crd : String → Act W (Result (String × String))
  update_crd namespace = do
    c ← read_crd namespace
    tags ← pure_call (next_tags c.spec.tags)
    send_crd namespace (with_tags c tags)

  -- `checkAPIforUpdate`
  unfoldable pub check_api_for_update :
      String → String → String → String → Act W (Result (Unit {0}))
  check_api_for_update url name value token =
      fetch_cluster api url name token >>= λ spec. pure_call (has_tag value spec.tags)

  -- The loop of `Run`, with the tries so far; each waits half a minute before it asks.
  unfoldable pub confirm : ℕ → ℕ → Act W (Result (Unit {0})) → Act W (Ending RunResult)
  confirm zero tries check w = (out_of_fuel, w)
  confirm (suc fuel) tries check w = elim (leb tries max_nr_of_tries) [
    | false ↦ (ended (record { tries = tries; error = some "failed to confirm the update" }), w)
    | true ↦
        let (r, w') = check (api.sleep 30 w) in
        elim r [
          | ok u ↦ (ended (record { tries = tries; error = none }), w')
          | err e ↦ confirm fuel (tries + 1) check w'
        ]
  ]

  -- What follows `updateCrd`.
  unfoldable pub confirm_update :
      ℕ → TestConfig → String → Result (String × String) → Act W (Ending RunResult)
  confirm_update fuel config token (err e) w = (ended (record { tries = 0; error = some e }), w)
  confirm_update fuel config token (ok (name, value)) w =
      confirm fuel 1 (check_api_for_update config.url name value token) w

  -- `Run`
  unfoldable pub run : ℕ → TestConfig → String → Act W (Ending RunResult)
  run fuel config token w =
      let (updated, w') = update_crd config.namespace w in
      confirm_update fuel config token updated w'
