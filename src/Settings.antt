-- ===== src/Settings.antt =====
-- pkg/config/config.go, and what cmd/apiserver/apiserver.go, cmd/client/client.go and
-- cmd/sync/manager/manager.go make of it: the settings of their queues and the kinds that the
-- controllers watch.
pub mod Queues
pub mod Kinds
pub mod Options
pub mod Files
use cluster_registry.Prelude.{
  String, ◌<>◌, ◌==◌, Bool, true, false, List, [], ◌∷◌, contains, Result, ok, err, ◌>>=◌, ℤ, pos,
  parse_int, if◌then◌else◌,
}
use cluster_registry.Queue.{Config}

pub data LogLevel : Type 0 where
  warn debug info : LogLevel

-- The fields of `AppConfig`, by the parts of the program that they are for. A duration is its number
-- of nanoseconds.
pub record DbSettings : Type 0 where
  pub region : String
  pub endpoint : String
  pub table_name : String

pub record SqsNames : Type 0 where
  pub endpoint : String
  pub region : String
  pub queue_name : String

pub record SqsNumbers : Type 0 where
  pub batch_size : ℤ
  pub wait_seconds : ℤ
  pub run_interval : ℤ

pub record AccessSettings : Type 0 where
  pub rate_limiter_enabled : Bool
  pub log_level : LogLevel
  pub host : String
  pub oidc_client_id : String
  pub oidc_issuer_url : String
  pub k8s_resource_id : String
  pub tenant_id : String
  pub client_id : String
  pub client_secret : String
  pub authorized_group_id : String
  pub cache_ttl : ℤ
  pub cache_redis_host : String
  pub cache_redis_tls_enabled : Bool

pub record AppConfig : Type 0 where
  pub aws_region : String
  pub db_index_name : String
  pub db : DbSettings
  pub queue_names : SqsNames
  pub queue_numbers : SqsNumbers
  pub access : AccessSettings

-- `strconv.ParseBool`
unfoldable pub parse_bool : String → Result Bool
parse_bool s =
    if contains s ("1" ∷ "t" ∷ "T" ∷ "true" ∷ "TRUE" ∷ "True" ∷ [])
    then ok true
    else if contains s ("0" ∷ "f" ∷ "F" ∷ "false" ∷ "FALSE" ∷ "False" ∷ [])
    then ok false
    else err "strconv.ParseBool: invalid syntax"

-- `if configLogLevel == "DEBUG"` and its other branches.
abbrev log_level_of : String → LogLevel
log_level_of s = if s == "DEBUG" then debug else if s == "INFO" then info else warn

-- An error of a parser, with the name of its variable.
unfoldable pub parsing {ℓ} : {A : Type ℓ} → String → Result A → Result A
parsing name (err e) = err ("error parsing " <> name <> ": " <> e)
parsing name (ok value) = ok value

-- The environment gives the empty text for a variable that is not set.
module _ (env : String → String) where
  -- `getEnv`
  unfoldable pub get_env : String → String → String
  get_env name default = if env name == "" then default else env name

  -- The value of a variable that has to be set.
  unfoldable pub required : String → Result String
  unfolding get_env
  required name =
      if get_env name "" == ""
      then err ("environment variable " <> name <> " is not set")
      else ok (get_env name "")

  -- A variable that has to be set and to be an integer.
  unfoldable pub required_int : String → String → Result ℤ
  required_int f name = required name >>= λ s. parsing name (parse_int f s)

  -- The variables of the database.
  unfoldable pub db_settings : Result DbSettings
  db_settings = do
    region ← required "DB_AWS_REGION"
    endpoint ← required "DB_ENDPOINT"
    table_name ← required "DB_TABLE_NAME"
    ok (record { region = region; endpoint = endpoint; table_name = table_name })

  -- The numbers of the queue.
  unfoldable pub sqs_numbers : Result SqsNumbers
  sqs_numbers = do
    batch_size ← required_int "strconv.ParseInt" "SQS_BATCH_SIZE"
    wait_seconds ← required_int "strconv.ParseInt" "SQS_WAIT_SECONDS"
    run_interval ← required_int "strconv.Atoi" "SQS_RUN_INTERVAL"
    ok (record {
      batch_size = batch_size;
      wait_seconds = wait_seconds;
      run_interval = run_interval;
    })

  -- The variables of the queue that a client reads as well.
  unfoldable pub sqs_names : Result SqsNames
  sqs_names = do
    endpoint ← required "SQS_ENDPOINT"
    region ← required "SQS_AWS_REGION"
    queue_name ← required "SQS_QUEUE_NAME"
    ok (record { endpoint = endpoint; region = region; queue_name = queue_name })

  -- The variables behind those of the queue. `parse_duration` is that of the package `time`.
  unfoldable pub access_settings : (String → Result ℤ) → Result AccessSettings
  unfolding get_env
  access_settings parse_duration = do
    oidc_client_id ← required "OIDC_CLIENT_ID"
    oidc_issuer_url ← required "OIDC_ISSUER_URL"
    k8s_resource_id ← required "K8S_RESOURCE_ID"
    tenant_id ← required "API_TENANT_ID"
    client_id ← required "API_CLIENT_ID"
    client_secret ← required "API_CLIENT_SECRET"
    group_id ← required "API_AUTHORIZED_GROUP_ID"
    ttl ← parsing "API_CACHE_TTL" (parse_duration (get_env "API_CACHE_TTL" "1h"))
    redis_host ← required "API_CACHE_REDIS_HOST"
    tls ←
        parsing "API_CACHE_REDIS_TLS_ENABLED"
          (parse_bool (get_env "API_CACHE_REDIS_TLS_ENABLED" "true"))
    ok (record {
      rate_limiter_enabled = get_env "API_RATE_LIMITER" "" == "enabled";
      log_level = log_level_of (get_env "LOG_LEVEL" "INFO");
      host = get_env "API_HOST" "0.0.0.0:8080";
      oidc_client_id = oidc_client_id;
      oidc_issuer_url = oidc_issuer_url;
      k8s_resource_id = k8s_resource_id;
      tenant_id = tenant_id;
      client_id = client_id;
      client_secret = client_secret;
      authorized_group_id = group_id;
      cache_ttl = ttl;
      cache_redis_host = redis_host;
      cache_redis_tls_enabled = tls;
    })

  -- The configuration, from its parts.
  abbrev pub assembled : String → DbSettings → SqsNames → SqsNumbers → AccessSettings → AppConfig
  assembled aws_region db names numbers access = record {
    aws_region = aws_region;
    db_index_name = get_env "DB_INDEX_NAME" "";
    db = db;
    queue_names = names;
    queue_numbers = numbers;
    access = access;
  }

  -- `LoadApiConfig`
  unfoldable pub load_api_config : (String → Result ℤ) → Result AppConfig
  load_api_config parse_duration = do
    aws_region ← required "AWS_REGION"
    db ← db_settings
    names ← sqs_names
    numbers ← sqs_numbers
    access ← access_settings parse_duration
    ok (assembled aws_region db names numbers access)

-- `LoadClientConfig`: the other fields of its `AppConfig` keep their zero values.
unfoldable pub load_client_config : (String → String) → Result SqsNames
load_client_config env = sqs_names env

-- Settings of a queue whose URL is looked up by its name.
abbrev named_queue : SqsNames → ℤ → ℤ → ℤ → ℤ → ℤ → ℤ → Config
named_queue names batch wait visibility interval handlers busy = record {
  aws_region = names.region;
  queue_name = names.queue_name;
  endpoint = names.endpoint;
  queue_url = "";
  max_retries = pos 0;
  batch_size = batch;
  wait_seconds = wait;
  visibility_timeout = visibility;
  run_once = false;
  run_interval = interval;
  max_handlers = handlers;
  busy_timeout = busy;
}

-- The settings that the API server gives to `NewSQS`.
unfoldable pub api_queue : AppConfig → Config
api_queue cfg =
    named_queue cfg.queue_names cfg.queue_numbers.batch_size cfg.queue_numbers.wait_seconds
      (pos 120) cfg.queue_numbers.run_interval (pos 10) (pos 30)

-- Those of the client, which leaves the fields of the loop at their zero values.
unfoldable pub client_queue : SqsNames → Config
client_queue names = named_queue names (pos 0) (pos 0) (pos 0) (pos 0) (pos 0) (pos 0)

-- Those of the sync manager.
unfoldable pub sync_queue : SqsNames → Config
sync_queue names = named_queue names (pos 10) (pos 5) (pos 120) (pos 20) (pos 10) (pos 30)
