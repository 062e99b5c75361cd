-- ===== src/Tests/Slt.antt =====
-- The theorems of the service level tests at concrete inputs.
use cluster_registry.Prelude.{
  String, ◌≡◌, ◌⊎◌, refl, true, none, some, [], ◌∷◌, Dict, ok, err, lookup, insert,
}
use cluster_registry.Registry.Cluster.{Cluster}
use cluster_registry.ClusterController.{skips_invalidation}
use cluster_registry.Slt.{SltApi, ended, fatal}
use cluster_registry.Slt.Requests.{fetch_cluster}
use cluster_registry.Slt.Update.{
  TestConfig, RunResult, tag_slt, tag_of, with_tags, next_tags, read_crd, send_crd, update_crd,
  check_api_for_update, confirm, confirm_update, run,
}
use cluster_registry.Slt.Update.Confirming.{Ends, run-Ends}
use cluster_registry.Slt.Update.Tagging.{Flips, Sends, update_crd-Flips}
use cluster_registry.Slt.Checks.{
  Process, metric_label, initial_err_cnt, read_token, get_auth_details, request_token, keep_token,
  refresh_token, run_e2e_test,
}
use cluster_registry.Slt.Checks.Reports.{Reports, run_e2e_test-Reports}
use cluster_registry.Tests.Memory.{cluster}

abbrev tagged : String → Cluster
tagged value =
    let c = cluster "one" "va6" "Active" "" in
    record c { spec = record (c.spec) { tags = some ((tag_slt, value) ∷ []) } }

-- The world is the value of the tag, which the API shows at once; a token is refused.
abbrev deployed : SltApi String (Unit {0})
deployed = record {
  env = λ name. some name;
  new_request = λ endpoint. ok tt;
  do_get = λ endpoint bearer w. (ok (record { code = 200; body = ok w }), w);
  decode_spec = λ text. ok (tagged text).spec;
  decode_items = λ text. ok (record { items = []; items_count = 0 });
  get_config = λ w. (ok tt, w);
  new_client = λ w. (ok tt, w);
  list_raw = λ namespace w. ((w, none), w);
  decode_clusters = λ text. ok (tagged text ∷ []);
  encode_cluster = λ c. ok (tag_of c.spec.tags);
  patch = λ namespace name body w. (ok tt, body);
  sleep = λ n w. w;
  service_principal = λ client secret tenant. ok tt;
  refresh_exchange = λ resource principal w. (err "denied", w);
}

abbrev config : TestConfig
config = record { url = "http://registry"; namespace = "cluster-registry" }

-- The tag is changed, and seen at the first try.
run_passes :
    run deployed 4 config "token" "Tick" ≡ (ended (record { tries = 1; error = none }), "Tack")
unfolding run confirm_update confirm check_api_for_update update_crd read_crd send_crd next_tags
    fetch_cluster lookup insert
run_passes = refl

run-Ends_example :
    ((e : String) × ((update_crd deployed "cluster-registry" "Tick").0 ≡ err e)
      × (run deployed 4 config "token" "Tick" ≡ (
        ended (record { tries = 0; error = some e }),
        (update_crd deployed "cluster-registry" "Tick").1,
      )))
    ⊎ ((name : String) × (value : String) × ((update_crd deployed "cluster-registry" "Tick").0
          ≡ ok (name, value))
        × Ends deployed
            (check_api_for_update deployed "http://registry" name value "token")
            3
            1
            (update_crd deployed "cluster-registry" "Tick").1
            (run deployed 4 config "token" "Tick"))
run-Ends_example = run-Ends deployed config "token" "Tick"

update_crd-Flips_example :
    (c : Cluster) × (tags : Dict String) × ((read_crd deployed "cluster-registry" "Tick").0 ≡ ok c)
    × ("one" ≡ c.spec.name)
    × Flips c.spec.tags tags "Tack"
    × Sends deployed "cluster-registry"
        (with_tags c tags)
        (read_crd deployed "cluster-registry" "Tick").1
        (update_crd deployed "cluster-registry" "Tick").1
    × (skips_invalidation (with_tags c tags) ≡ true)
unfolding update_crd read_crd send_crd next_tags lookup insert
update_crd-Flips_example = update_crd-Flips deployed "cluster-registry" "one" "Tack" "Tick" refl

abbrev checker : Process String
checker = record {
  token = "token";
  err_cnt = initial_err_cnt;
  test_status = (metric_label, 0) ∷ [];
  outside = "Tick";
}

-- A refresh that is refused leaves the process without a token, and the next one ends it.
token_lost : (refresh_token deployed checker).1.token ≡ ""
unfolding refresh_token keep_token get_auth_details request_token
token_lost = refl

refused_twice :
    (refresh_token deployed (refresh_token deployed checker).1).0
    ≡ fatal "error getting jwt token: denied"
unfolding refresh_token keep_token get_auth_details request_token
refused_twice = refl

run_e2e_test-Reports_example :
    (result : RunResult) × (w : String) × (run deployed 4 config "token" "Tick" ≡ (ended result, w))
    × ((run_e2e_test deployed (λ p. p) 1 config checker).0 ≡ ended tt)
    × Reports metric_label result.error
        (record checker { outside = w })
        (run_e2e_test deployed (λ p. p) 1 config checker).1
unfolding read_token
run_e2e_test-Reports_example =
    run_e2e_test-Reports deployed (λ p. p) 1 config checker checker "token" refl
