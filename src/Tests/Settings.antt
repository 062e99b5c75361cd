-- ===== src/Tests/Settings.antt =====
-- The theorems of the settings and of the HTTP cache at concrete inputs.
use cluster_registry.Prelude.{
  ◌≢◌, returned, String, ◌==◌, ◌≡◌, refl, ◌↔◌, true, false, Option, none, some, [], ◌∷◌, Dict,
  lookup, contains, insert, Result, ok, err, pos, parse_int, if◌then◌else◌,
}
use cluster_registry.Queue.{validate_config}
use cluster_registry.Queue.Settings.{IsUpTo}
use cluster_registry.Settings.{
  AppConfig, api_queue, load_api_config, db_settings, sqs_names, sqs_numbers, access_settings,
  required, required_int, get_env, parsing, parse_bool, warn,
}
use cluster_registry.Settings.Queues.{load_api_config-validate_config}
use cluster_registry.Settings.Options.{ControllerManager, Options, flag_options}
use cluster_registry.Settings.Files.{
  add_to, add_webhook_to, add_names_to, add_leader_election_to, add_controller_to, or_text,
  or_elect, or_duration,
}
use cluster_registry.Settings.Files.Settled.{add_to-settled}
use cluster_registry.Cache.{Written, CacheRequest, CacheApi}

-- Every variable is 11 but the two that have another form.
abbrev env : String → String
env name = if name == "API_CACHE_TTL" then "1h" else tls
  where
    tls : String
    tls = if name == "API_CACHE_REDIS_TLS_ENABLED" then "true" else "11"

abbrev elevens : AppConfig
elevens = record {
  aws_region = "11";
  db_index_name = "11";
  db = record { region = "11"; endpoint = "11"; table_name = "11" };
  queue_names = record { endpoint = "11"; region = "11"; queue_name = "11" };
  queue_numbers = record { batch_size = pos 11; wait_seconds = pos 11; run_interval = pos 11 };
  access = record {
    rate_limiter_enabled = false;
    log_level = warn;
    host = "11";
    oidc_client_id = "11";
    oidc_issuer_url = "11";
    k8s_resource_id = "11";
    tenant_id = "11";
    client_id = "11";
    client_secret = "11";
    authorized_group_id = "11";
    cache_ttl = pos 3600000000000;
    cache_redis_host = "11";
    cache_redis_tls_enabled = true;
  };
}

load_api_config-validate_config_example :
    (validate_config (api_queue elevens) ≡ ok tt) ↔ (IsUpTo 10 (pos 11) × IsUpTo 20 (pos 11))
unfolding load_api_config db_settings sqs_names sqs_numbers access_settings required required_int
    get_env parsing parse_bool parse_int contains
load_api_config-validate_config_example =
    load_api_config-validate_config env (λ text. ok (pos 3600000000000)) {cfg = elevens} refl

-- The store is a map from keys to texts. A text stands for its own hash, a URL for its text and a
-- query with one parameter; the encoding of an answer is its body, without its headers.
abbrev Store : Type 0
Store = Dict String

abbrev found_in : Option String → Result String
found_in none = err "missing"
found_in (some text) = ok text

abbrev store : CacheApi Store String
store = record {
  query = λ url. ("q", url ∷ []) ∷ [];
  with_query = λ params url. url;
  url_text = λ url. url;
  fnv = λ text. text;
  encode = λ r. r.value;
  decode = λ text. record { value = text; header = [] };
  get = λ key w. (found_in (lookup key w), w);
  set = λ key text ttl tags w. (ok tt, insert key text w);
}

abbrev get_clusters : CacheRequest String
get_clusters = record { method = "GET"; url = "/clusters"; header = [] }

abbrev created : Written
created = record { status = 201; header = []; bytes = "list" }

-- A file that wants the metrics elsewhere and its leader elected, with the default flags.
abbrev file : ControllerManager
file = record {
  leader_election = some (record {
    leader_elect = some true;
    resource_lock = "";
    resource_namespace = "ns";
    resource_name = "";
    lease_duration = pos 0;
    renew_deadline = pos 0;
    retry_period = pos 0;
  });
  controller = none;
  bind_address = ":8080";
  health_probe_bind_address = "";
  readiness_endpoint_name = "ready";
  liveness_endpoint_name = "";
  webhook = record { port = none; host = ""; cert_dir = "" };
}

abbrev metrics_address : String
metrics_address = ":9090"

abbrev probe_address : String
probe_address = ":9091"

abbrev with_file : Options
with_file = record (flag_options metrics_address probe_address false "id") {
  leader_election = true;
  leader_namespace = "ns";
  readiness_endpoint_name = "ready";
}

add_to-settled_example :
    (metrics_address ≢ "" → metrics_address ≡ metrics_address)
    × (probe_address ≢ "" → probe_address ≡ probe_address)
    × (add_to file with_file ≡ returned with_file)
unfolding add_to flag_options add_webhook_to add_names_to add_leader_election_to add_controller_to
    or_text or_elect or_duration
add_to-settled_example =
    add_to-settled file (flag_options metrics_address probe_address false "id") with_file refl
