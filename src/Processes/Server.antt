-- ===== src/Processes/Server.antt =====
-- cmd/apiserver/apiserver.go: how the API server starts, with `NewAuthenticator` of pkg/auth/auth.go
-- and the routes that need no token: pkg/apiserver/web/livez.go and version.go. The middleware that
-- the router and the metrics put before every route is left out.
pub mod Serving
use Prim.Native.String.{[] as empty_text, ◌∷◌ as prefixed}
use cluster_registry.Prelude.{
  String, ◌<>◌, ◌==◌, Bool, Option, none, some, List, [], ◌∷◌, ◌++◌, returned, Result, ok, err, ℤ,
  Act, if◌then◌else◌,
}
use cluster_registry.Http.{Handler, Middleware, answer, text_body}
use cluster_registry.Auth.{Authenticator, Claims}
use cluster_registry.Queue.{Config, QueueApi, queue_status, readyz}
use cluster_registry.Api.Limits.{LimiterLib, rate_limiter}
use cluster_registry.Api.Routes.{Route, register_v1, register_v2}
use cluster_registry.Settings.{AccessSettings, AppConfig, load_api_config, api_queue}
use cluster_registry.Processes.{
  exited, Start, ◌>>=◌, ◌>>◌, or_exit, checked, checked_outcome, pure_step, done,
}
use cluster_registry.Processes.Queues.{SqsSetup, new_sqs}

-- The options of the client of the cache: an address, and with TLS the name of the server, which is
-- empty where none is set.
pub record RedisOptions : Type 0 where
  pub addr : String
  pub tls_server_name : Option String

-- `strings.Split(host, ":")[0]`
unfoldable pub before_colon : String → String
before_colon empty_text = ""
before_colon (prefixed c s) = if prefixed c "" == ":" then "" else prefixed c (before_colon s)

-- `is_ip` is that `net.ParseIP` reads a text.
unfoldable pub redis_options : (String → Bool) → AccessSettings → RedisOptions
unfolding before_colon
redis_options is_ip cfg =
    let host = before_colon cfg.cache_redis_host in
    record {
      addr = cfg.cache_redis_host;
      tls_server_name =
          if cfg.cache_redis_tls_enabled then some (if is_ip host then "" else host) else none;
    }

-- What the process calls: the environment, the set-up of the queue, the client of the cache, the
-- OIDC library with the decoder of claims and a metric, the limiters, and the loop of the queue.
-- `cached` is `HTTPCache` on the client of the cache, `swagger` and `exposed_metrics` are the handlers
-- of the documentation and of the metrics, of their libraries, `database_status` is `Status` of the
-- database, and `version` what the build sets.
pub record ServerRuntime (W Provider Token : Type 0) : Type 0 where
  pub env : String → String
  pub parse_duration : String → Result ℤ
  pub sqs : SqsSetup W
  pub is_ip : String → Bool
  pub connect_redis : RedisOptions → Act W (Result (Unit {0}))
  pub new_provider : String → Act W (Result Provider)
  pub verifier : Provider → String → String → Act W (Result Token)
  pub claims : Token → Result Claims
  pub record_egress : String → W → W
  pub first_limiter : LimiterLib W
  pub clusters_limiter : LimiterLib W
  pub services_limiter : LimiterLib W
  pub cached : Middleware W
  pub swagger : Handler W
  pub exposed_metrics : Handler W
  pub version : String
  pub database_status : Act W (Result (Unit {0}))
  pub poll : Config → QueueApi W → W → W

-- `Livez` and `Version`
abbrev pub livez : {W : Type 0} → Handler W
livez c w = (returned (answer 200 (text_body "OK")), w)

abbrev version_handler : {W : Type 0} → String → Handler W
version_handler version c w = (returned (answer 200 (text_body version)), w)

-- `Readyz` as a handler.
abbrev readyz_handler :
    {W : Type 0} → Act W (Result (Unit {0})) → Act W (Result (Unit {0})) → Handler W
readyz_handler database queue c w =
    let (shown, w') = readyz database queue w in (returned shown, w')

module _ {W Provider Token : Type 0} (r : ServerRuntime W Provider Token) where
  abbrev pub authenticator_of : AccessSettings → Provider → Authenticator W Token
  authenticator_of cfg provider = record {
    verifier = r.verifier provider cfg.oidc_client_id;
    spn_verifier = r.verifier provider ("spn:" <> cfg.oidc_client_id);
    claims = r.claims;
    record_egress = r.record_egress;
  }

  abbrev pub authenticator_or_error :
      AccessSettings → Result Provider → Result (Authenticator W Token)
  authenticator_or_error cfg (err e) = err ("init verifier failed: " <> e)
  authenticator_or_error cfg (ok provider) = ok (authenticator_of cfg provider)

  -- `NewAuthenticator`
  unfoldable pub new_authenticator : AccessSettings → Act W (Result (Authenticator W Token))
  new_authenticator cfg w =
      let (provider, w') = r.new_provider cfg.oidc_issuer_url w in
      (authenticator_or_error cfg provider, w')

  -- The routes that `main` mounts itself, which need no token.
  unfoldable pub open_routes : Config × QueueApi W → List (Route W)
  open_routes queue =
      record { method = "GET"; path = "/api/swagger/*"; serve = λ hs. r.swagger }
      ∷ record { method = "GET"; path = "/livez"; serve = λ hs. livez }
      ∷ record {
        method = "GET";
        path = "/readyz";
        serve = λ hs. readyz_handler r.database_status (queue_status queue.0 queue.1);
      }
      ∷ record { method = "GET"; path = "/version"; serve = λ hs. version_handler r.version }
      ∷ record { method = "GET"; path = "/metrics"; serve = λ hs. r.exposed_metrics }
      ∷ []

  -- The routes of both versions, each with the authenticator of its `Register`.
  abbrev pub api_routes : AppConfig → Authenticator W Token → Authenticator W Token → List (Route W)
  api_routes cfg first second =
      let enabled = cfg.access.rate_limiter_enabled in
      register_v1 first (rate_limiter r.first_limiter enabled) r.cached
      ++ register_v2 second (rate_limiter r.clusters_limiter enabled) r.cached
          (rate_limiter r.services_limiter enabled) cfg.access.authorized_group_id

  -- `Fatal` of `Start`, which serves these routes until it fails.
  abbrev listening : (List (Route W) → Act W String) → List (Route W) → Start W (Unit {0})
  listening listen routes w = let (e, w') = listen routes w in (exited e, w')

  -- `main` once there is a queue.
  unfoldable pub serve_api :
      (List (Route W) → Act W String) → AppConfig → Config × QueueApi W → Start W (Unit {0})
  serve_api listen cfg queue = do
    checked (r.connect_redis (redis_options r.is_ip cfg.access))
    first ← checked (new_authenticator cfg.access)
    second ← checked (new_authenticator cfg.access)
    done (r.poll queue.0 queue.1)
    listening listen (open_routes queue ++ api_routes cfg first second)

  -- `main` of cmd/apiserver/apiserver.go
  unfoldable pub run_server : (List (Route W) → Act W String) → Start W (Unit {0})
  run_server listen = do
    cfg ← pure_step (or_exit (load_api_config r.env r.parse_duration))
    queue ← checked_outcome (new_sqs r.sqs (api_queue cfg))
    serve_api listen cfg queue
