-- ===== src/Tests/Processes.antt =====
-- The theorems of the routes, of the metrics and of the processes at concrete inputs.
use cluster_registry.Prelude.{
  ℕ, ◌+◌, ◌⊎◌, ap, eqb, panicked, arith, ◌∷◌, inl, String, ◌==◌, ◌≡◌, ◌≢◌, inr, refl, true, false,
  none, some, List, [], ◌++◌, All, Result, ok, err, Act, length, Outcome, returned, pos,
  if◌then◌else◌, parse_int, contains,
}
use cluster_registry.Http.{Request, Response, answer, nothing, Handler, Middleware}
use cluster_registry.Auth.{Authenticator, extract_token}
use cluster_registry.Auth.Access.{IsAuthorized}
use cluster_registry.Api.Limits.{LimiterConfig, LimiterLib, rate_limiter}
use cluster_registry.Api.Routes.{Handlers, Route, register_v1, register_v2}
use cluster_registry.Api.Routes.Closed.{
  IsAuthenticated, IsClosed, IsClosedTo, filter_method, register-IsClosed,
}
use cluster_registry.Queue.{validate_config}
use cluster_registry.Settings.{
  AppConfig, parsing, required, required_int, parse_bool, db_settings, sqs_names, sqs_numbers,
  access_settings, load_api_config, load_client_config, api_queue, client_queue,
}
use cluster_registry.Settings.Options.{ClientFile}
use cluster_registry.Settings.Kinds.{load_watched_gvks}
use cluster_registry.Processes.{going, exited}
use cluster_registry.Processes.Queues.{SqsSetup, new_sqs}
use cluster_registry.Processes.Client.{
  Flags, FileCodec, Runtime, client_settings, run_client_with, run_client,
}
use cluster_registry.Processes.Server.{
  open_routes, ServerRuntime, authenticator_of, new_authenticator, serve_api, run_server,
}
use cluster_registry.Processes.Server.Serving.{IsOpen, IsGuarded, open_paths, run_server-IsGuarded}
use cluster_registry.Monitoring.{Metrics, new_metrics, Served, http_error, handler_func}
use cluster_registry.Monitoring.Counting.{Counts, handler_func-Counts}

-- A reader is known, and nobody else.
abbrev authenticator : Authenticator ℕ String
authenticator = record {
  verifier = λ raw w. (if raw == "reader" then ok raw else err "unknown", w);
  spn_verifier = λ raw w. (err "unknown", w);
  claims = λ token. ok (record { oid = token; groups = [] });
  record_egress = λ target w. w;
}

-- A limiter that counts what it lets pass.
abbrev decided : LimiterConfig → Handler ℕ → Request → ℕ → Result String → Outcome Response × ℕ
decided cfg next c w (err e) = (returned (cfg.on_error c e), w)
decided cfg next c w (ok name) = next c (w + 1)

abbrev counting : LimiterLib ℕ
counting = record {
  limit =
      λ cfg next c w. if cfg.skipper c then next c w else decided cfg next c w (cfg.identifier c);
  allow = λ cfg name w. (true, w + 1);
  skipped = λ cfg next c w h. rw h refl;
  unnamed = λ cfg next c w e h i. rw (h, i) refl;
  asked = λ cfg next c w name h i. rw (h, i) refl;
}

abbrev plain : Middleware ℕ
plain next = next

abbrev request : Request
request = record {
  authorization = "Bearer reader";
  path_params = [];
  query_params = [];
  body = "";
  oid = none;
  groups = none;
}

register-IsClosed_example :
    All (IsClosed authenticator) (
      register_v1 authenticator (rate_limiter counting true) plain
      ++ register_v2 authenticator
          (rate_limiter counting true)
          plain
          (rate_limiter counting true)
          "writers")
    × All
        (IsClosedTo authenticator
          (IsAuthorized authenticator (rate_limiter counting true) "writers"))
        (filter_method "PATCH" (
          register_v2 authenticator
            (rate_limiter counting true)
            plain
            (rate_limiter counting true)
            "writers"))
register-IsClosed_example =
    register-IsClosed authenticator counting counting counting true plain "writers"

-- A handler that fails with the code 404.
abbrev failing : Act (Metrics × ℕ) Served
failing s =
    (record { error = some (http_error 404 "not found"); status = 200; context = λ name. none }, s)

abbrev clusters_path : String
clusters_path = "/api/v2/clusters"

clusters_differ : clusters_path ≢ "/metrics"
clusters_differ e = cc

handler_func-Counts_example :
    ((handler_func "GET" "/api/v2/clusters" failing (new_metrics, 0)).0
      ≡ (failing (new_metrics, 0)).0)
    × Counts "GET" "/api/v2/clusters"
        (failing (new_metrics, 0)).0
        (failing (new_metrics, 0)).1
        (handler_func "GET" "/api/v2/clusters" failing (new_metrics, 0)).1
handler_func-Counts_example =
    handler_func-Counts "GET" "/api/v2/clusters" failing (new_metrics, 0) clusters_differ

abbrev setup : {W : Type 0} → SqsSetup W
setup = record {
  new_session = λ cfg w. (
    ok (record {
      send_batch = λ url batch v. (ok tt, v);
      delete_message = λ url handle v. (ok tt, v);
      change_visibility = λ url handle seconds v. (ok tt, v);
      get_queue_url = λ name v. (ok "http://queue", v);
    }),
    w,
  );
}

-- A runtime on which every call succeeds; the world is the address of the webhooks.
abbrev runtime : Runtime String
runtime = record {
  env = λ name. "x";
  schema = record {
    parse_group_version = λ text. ok (record { group = text; version = "v1" });
    gvk_text = λ gvk. gvk.kind;
  };
  new_manager = λ options w. (ok tt, w);
  load_tls_files = λ w. (ok tt, w);
  sqs = setup;
  discover = λ w. (ok [], w);
  set_up_cluster = λ cfg svc w. (ok tt, w);
  set_up_watcher = λ gvks annotation w. (ok tt, w);
  set_up_sync = λ gvks cfg svc w. (ok tt, w);
  add_healthz_check = λ w. (ok tt, w);
  add_readyz_check = λ w. (ok tt, w);
  serve_webhook = λ settings w. settings.bind_address;
  start_manager = λ w. (ok tt, w);
}

abbrev codec : FileCodec ClientFile
codec = record {
  default = λ file. file;
  from_file = λ path file. (file, none);
  encode = λ file. ok "";
}

abbrev flags : Flags
flags = record {
  config_file = "";
  metrics_addr = ":9090";
  enable_leader_election = false;
  probe_addr = ":9091";
  alertmanager_webhook_addr = ":9092";
  namespace = "cluster-registry";
}

-- The webhooks are served at the empty address.
client_runs : run_client runtime codec flags "none" ≡ (going tt, "")
unfolding run_client run_client_with client_settings new_sqs load_client_config sqs_names required
    client_queue validate_config load_watched_gvks
client_runs = refl

abbrev silent : Handler ℕ
silent c w = (returned (answer 204 nothing), w)

abbrev server : ServerRuntime ℕ (Unit {0}) String
server = record {
  env = λ name. "1";
  parse_duration = λ text. ok (pos 1);
  sqs = setup;
  is_ip = λ text. false;
  connect_redis = λ options w. (ok tt, w);
  new_provider = λ issuer w. (ok tt, w);
  verifier = λ provider id raw w. (if raw == "reader" then ok raw else err "unknown", w);
  claims = λ token. ok (record { oid = token; groups = [] });
  record_egress = λ target w. w;
  first_limiter = counting;
  clusters_limiter = counting;
  services_limiter = counting;
  cached = plain;
  swagger = silent;
  exposed_metrics = silent;
  version = "dev";
  database_status = λ w. (ok tt, w);
  poll = λ cfg svc w. w;
}

abbrev serve_once : List (Route ℕ) → Act ℕ String
serve_once routes w = ("closed", length routes)

-- Two sets of handlers, and a request without a token.
abbrev silent_handlers : Handlers ℕ
silent_handlers = record {
  get_cluster = silent;
  list_clusters = silent;
  patch_cluster = silent;
  get_service_metadata = silent;
  get_service_metadata_for_cluster = silent;
}

abbrev failing_handlers : Handlers ℕ
failing_handlers = record {
  get_cluster = λ c w. (panicked, w + 1);
  list_clusters = λ c w. (panicked, w + 1);
  patch_cluster = λ c w. (panicked, w + 1);
  get_service_metadata = λ c w. (panicked, w + 1);
  get_service_metadata_for_cluster = λ c w. (panicked, w + 1);
}

abbrev stranger : Request
stranger = record request { authorization = "" }

-- Where these handlers differ on a route that needs a token, it leaks.
abbrev leak : Route ℕ → ℕ
leak route =
    if contains route.path open_paths
    then 0
    else if eqb (route.serve silent_handlers stranger 0).1
        (route.serve failing_handlers stranger 0).1
    then 0
    else 1

abbrev leaks : List (Route ℕ) → ℕ
leaks [] = 0
leaks (route ∷ routes) = leak route + leaks routes

-- It looks for leaks first.
abbrev serve_probed : List (Route ℕ) → Act ℕ String
serve_probed routes w = ("closed", length routes + leaks routes)

stranger_unknown : (a : Authenticator ℕ String) → ¬ IsAuthenticated a stranger 0
unfolding extract_token
stranger_unknown a (raw, token, claims, p, q, r) = cc p

leak_none :
    (cfg : AppConfig) (route : Route ℕ) → IsOpen route ⊎ IsGuarded server cfg route → leak route ≡ 0
leak_none cfg route (inl (gets, listed)) = rw listed refl
leak_none cfg route (inr (provider, w, given, closed)) =
    let same =
      ap (λ x. x.1)
        (closed silent_handlers failing_handlers stranger 0
          (stranger_unknown (authenticator_of server cfg.access provider))) in
    rw same (ground arith)

leaks_none :
    (cfg : AppConfig) (routes : List (Route ℕ))
    → All (λ route. IsOpen route ⊎ IsGuarded server cfg route) routes
    → leaks routes ≡ 0
leaks_none cfg [] h = refl
leaks_none cfg (route ∷ routes) (first, others) =
    omega (arith, leak_none cfg route first, leaks_none cfg routes others)

run_server-IsGuarded_example : run_server server serve_once 0 ≡ run_server server serve_probed 0
run_server-IsGuarded_example =
    run_server-IsGuarded server serve_once serve_probed
      (λ cfg routes w loaded served.
        ap (λ n. ("closed", n)) (omega (arith, leaks_none cfg routes served)))
      0

-- Twelve routes are served.
server_runs : run_server server serve_once 0 ≡ (exited "closed", 12)
unfolding run_server serve_api open_routes new_sqs new_authenticator load_api_config db_settings
    sqs_names sqs_numbers access_settings required required_int parse_bool api_queue validate_config
    register_v1 register_v2 contains parsing parse_int
server_runs = refl
