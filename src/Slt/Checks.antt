-- ===== src/Slt/Checks.antt =====
-- test/slt/checks/checks.go: the token that the checks share, and the checks with what they report.
-- Log lines and the durations that are observed are left out.
pub mod Reports
use cluster_registry.Prelude.{
  ℕ, zero, suc, ◌+◌, String, ◌<>◌, ◌==◌, true, false, Option, none, some, Dict, lookup, insert,
  get_or, Result, ok, err, Act, [],
}
use cluster_registry.Slt.{Ending, SltApi, ended, fatal, out_of_fuel, then_end, ◌>>=◌, pure_call}
use cluster_registry.Slt.Requests.{
  GetClusterConfig, GetAllClusterConfig, get_env, run_get_cluster, run_get_all_clusters,
}
use cluster_registry.Slt.Update.{TestConfig, RunResult, max_nr_of_tries, run}

abbrev metric_label_token : String
metric_label_token = "token_refresh"

abbrev pub metric_label : String
metric_label = "e2e_test"

abbrev metric_label_get_cluster : String
metric_label_get_cluster = "get_cluster_test"

abbrev metric_label_get_all_clusters : String
metric_label_get_all_clusters = "get_multiple_clusters_test"

-- The shared token, the metrics `ErrCnt` and `TestStatus` by their labels, and the world outside.
pub record Process (W : Type 0) : Type 0 where
  pub token : String
  pub err_cnt : Dict ℕ
  pub test_status : Dict ℕ
  pub outside : W

-- `ErrCnt.WithLabelValues(label).Inc()`; a label that was not seen counts from 0.
abbrev count_error : String → Dict ℕ → Dict ℕ
count_error label counts = insert label (get_or (lookup label counts) 0 + 1) counts

-- `ErrCnt.WithLabelValues(label).Add(0)`
abbrev count_none : String → Dict ℕ → Dict ℕ
count_none label counts = insert label (get_or (lookup label counts) 0) counts

-- What the checks report of a check that failed, and of one that passed.
unfoldable pub report : {W : Type 0} → String → Option String → Process W → Process W
report label (some e) s = record s {
  err_cnt = count_error label s.err_cnt;
  test_status = insert label 0 s.test_status;
}
report label none s = record s { test_status = insert label 1 s.test_status }

abbrev error_of : Result (Unit {0}) → Option String
error_of (ok u) = none
error_of (err e) = some e

-- The metrics as `init` leaves them.
abbrev pub initial_err_cnt : Dict ℕ
initial_err_cnt = count_none metric_label_token (
    count_none metric_label_get_all_clusters
      (count_none metric_label_get_cluster (count_none metric_label [])))

pub record AuthDetails : Type 0 where
  pub resource_id : String
  pub tenant_id : String
  pub client_id : String
  pub client_secret : String

-- What follows `readToken`.
abbrev pub with_token :
    {W : Type 0}
    → (String → Process W → Ending (Unit {0}) × Process W)
    → Ending String × Process W
    → Ending (Unit {0}) × Process W
with_token check (ended token, s) = check token s
with_token check (fatal e, s) = (fatal e, s)
with_token check (out_of_fuel, s) = (out_of_fuel, s)

-- A second of the process, in which its other loops may run.
module _ {W : Type 0} (second : Process W → Process W) where
  -- `readToken`: the token, once there is one.
  unfoldable pub read_token : ℕ → Process W → Ending String × Process W
  read_token zero s = (out_of_fuel, s)
  read_token (suc fuel) s = elim (s.token == "") [
    | false ↦ (ended s.token, s)
    | true ↦ read_token fuel (second s)
  ]

  -- A check of a request, with what runs it.
  unfoldable pub run_request :
      ℕ → String → (String → Act W (Result (Unit {0}))) → Process W → Ending (Unit {0}) × Process W
  unfolding read_token report
  run_request fuel label check s =
      with_token
        (λ token s1.
          let (r, w) = check token s1.outside in
          (ended tt, report label (error_of r) (record s1 { outside = w })))
        (read_token fuel s)

module _ {W Principal : Type 0} (api : SltApi W Principal) where
  -- `GetAuthDetails`
  unfoldable pub get_auth_details : Ending AuthDetails
  unfolding get_env
  get_auth_details = then_end (get_env api "RESOURCE_ID" "") λ resource.
      then_end (get_env api "TENANT_ID" "") λ tenant.
        then_end (get_env api "CLIENT_ID" "") λ client.
          then_end (get_env api "APP_SECRET" "") λ secret. ended (record {
            resource_id = resource;
            tenant_id = tenant;
            client_id = client;
            client_secret = secret;
          })

  -- What `requestToken` returns: the token and the error; with an error the token is empty.
  abbrev token_and_error : Result String → String × Option String
  token_and_error (ok token) = (token, none)
  token_and_error (err e) = ("", some e)

  -- `requestToken`
  unfoldable pub request_token : AuthDetails → Act W (String × Option String)
  request_token auth w =
      let (r, w') =
        (pure_call (api.service_principal auth.client_id auth.client_secret auth.tenant_id)
            >>= λ principal. api.refresh_exchange auth.resource_id principal)
          w in
      (token_and_error r, w')

  -- The rest of `RefreshToken`, which stores the token behind an error too, unless the error ends
  -- the process.
  unfoldable pub keep_token :
      Process W → (String × Option String) × W → Ending (Unit {0}) × Process W
  keep_token s ((local_token, none), w) = (ended tt, record s { token = local_token; outside = w })
  keep_token s ((local_token, some e), w) = elim (s.token == "") [
    | true ↦ (fatal ("error getting jwt token: " <> e), record s { outside = w })
    | false ↦ (
      ended tt,
      record s {
        token = local_token;
        err_cnt = count_error metric_label_token s.err_cnt;
        outside = w;
      },
    )
  ]

  -- `RefreshToken`
  unfoldable pub refresh_token : Process W → Ending (Unit {0}) × Process W
  unfolding get_auth_details
  refresh_token s = elim get_auth_details [
    | fatal e ↦ (fatal e, s)
    | out_of_fuel ↦ (out_of_fuel, s)
    | ended auth ↦ keep_token s (request_token auth s.outside)
  ]

  -- What `RunE2eTest` does with the result of the test.
  unfoldable pub report_run : Process W → Ending RunResult × W → Ending (Unit {0}) × Process W
  unfolding report
  report_run s (ended result, w) =
      (ended tt, report metric_label result.error (record s { outside = w }))
  report_run s (fatal e, w) = (fatal e, record s { outside = w })
  report_run s (out_of_fuel, w) = (out_of_fuel, record s { outside = w })

  -- `RunE2eTest`; one more round than there are tries ends the loop of `Run`.
  unfoldable pub run_e2e_test :
      (Process W → Process W) → ℕ → TestConfig → Process W → Ending (Unit {0}) × Process W
  unfolding read_token report_run
  run_e2e_test second fuel config s =
      with_token (λ token s1. report_run s1 (run api (suc max_nr_of_tries) config token s1.outside))
        (read_token second fuel s)

  -- `RunClusterRequest`
  unfoldable pub run_cluster_request :
      (Process W → Process W) → ℕ → GetClusterConfig → Process W → Ending (Unit {0}) × Process W
  unfolding run_request
  run_cluster_request second fuel config =
      run_request second fuel metric_label_get_cluster (run_get_cluster api config)

  -- `RunAllClustersRequests`
  unfoldable pub run_all_clusters_requests :
      (Process W → Process W) → ℕ → GetAllClusterConfig → Process W → Ending (Unit {0}) × Process W
  unfolding run_request
  run_all_clusters_requests second fuel config =
      run_request second fuel metric_label_get_all_clusters (run_get_all_clusters api config)
