-- ===== src/Settings/Queues.antt =====
-- Whether the queue takes the settings that are read from the environment: pkg/config/config.go
-- with `validateConfig` of pkg/sqs/sqs.go.
use cluster_registry.Prelude.{
  String, ◌≡◌, refl, ◌≢◌, ◌↔◌, inl, inr, ◌==◌, eq_iff, Bool-cases, ◌>>=◌, subst, Result, ok,
  ok_injective, bind-eq-ok, ℤ, arith,
}
use cluster_registry.Queue.{validate_config}
use cluster_registry.Queue.Settings.{IsUpTo, validate_config-ok_iff}
use cluster_registry.Settings.{
  AppConfig, SqsNames, DbSettings, assembled, sqs_names, sqs_numbers, db_settings, access_settings,
  required, get_env, load_client_config, load_api_config, api_queue, client_queue, sync_queue,
}

-- A variable that has to be set is read only if it is.
required-ok :
    (env : String → String) (name : String) {value : String}
    → required env name ≡ ok value
    → value ≢ ""
unfolding required get_env
required-ok env name e = elim (Bool-cases (env name == "")) [
  | inl p ↦ cc (rw (p, required) at e)
  | inr p ↦ λ h. ground (arith, p, h, ok_injective (rw (p, required, p) at e), eq_iff (env name) "")
]

-- The names of a queue that are read are not empty.
abbrev HasNames : SqsNames → Type 0
HasNames names = (names.endpoint ≢ "") × (names.region ≢ "") × (names.queue_name ≢ "")

sqs_names-HasNames :
    (env : String → String) {names : SqsNames} → sqs_names env ≡ ok names → HasNames names
unfolding sqs_names
sqs_names-HasNames env e =
    let (a, pa, ra) =
      bind-eq-ok (required env "SQS_ENDPOINT")
        (λ a. required env "SQS_AWS_REGION" >>= λ b. required env "SQS_QUEUE_NAME" >>= λ c.
          ok (record { endpoint = a; region = b; queue_name = c }))
        e in
    let (b, pb, rb) =
      bind-eq-ok (required env "SQS_AWS_REGION")
        (λ b. required env "SQS_QUEUE_NAME" >>= λ c.
          ok (record { endpoint = a; region = b; queue_name = c }))
        ra in
    let (c, pc, rc) =
      bind-eq-ok (required env "SQS_QUEUE_NAME")
        (λ c. ok (record { endpoint = a; region = b; queue_name = c })) rb in
    subst HasNames (ok_injective rc) (
      required-ok env "SQS_ENDPOINT" pa,
      required-ok env "SQS_AWS_REGION" pb,
      required-ok env "SQS_QUEUE_NAME" pc,
    )

-- The settings that the client and the sync manager make of a configuration that is loaded are
-- accepted by the queue.
pub load_client_config-validate_config :
    (env : String → String) {names : SqsNames}
    → load_client_config env ≡ ok names
    → (validate_config (client_queue names) ≡ ok tt) × (validate_config (sync_queue names) ≡ ok tt)
unfolding load_client_config client_queue sync_queue
load_client_config-validate_config env {names = names} e =
    let (endpoint, region, name) = sqs_names-HasNames env e in
    (
      (validate_config-ok_iff (client_queue names)).1 (
        region,
        inr (endpoint, name),
        (0, refl, omega arith),
        (0, refl, omega arith),
        (0, refl, omega arith),
      ),
      (validate_config-ok_iff (sync_queue names)).1 (
        region,
        inr (endpoint, name),
        (10, refl, omega arith),
        (5, refl, omega arith),
        (120, refl, omega arith),
      ),
    )

load_api_config-HasNames :
    (env : String → String) (parse_duration : String → Result ℤ) {cfg : AppConfig}
    → load_api_config env parse_duration ≡ ok cfg
    → HasNames cfg.queue_names
unfolding load_api_config
load_api_config-HasNames env parse_duration e =
    let (aws, pa, ra) =
      bind-eq-ok (required env "AWS_REGION")
        (λ aws. db_settings env >>= λ db. sqs_names env >>= λ names. rest aws db names) e in
    let (db, pb, rb) =
      bind-eq-ok (db_settings env) (λ db. sqs_names env >>= λ names. rest aws db names) ra in
    let (names, pc, rc) = bind-eq-ok (sqs_names env) (λ names. rest aws db names) rb in
    let (numbers, pd, rd) =
      bind-eq-ok (sqs_numbers env)
        (λ numbers. access_settings env parse_duration >>= λ access.
          ok (assembled env aws db names numbers access))
        rc in
    let (access, pe, re) =
      bind-eq-ok (access_settings env parse_duration)
        (λ access. ok (assembled env aws db names numbers access)) rd in
    subst (λ r. HasNames r.queue_names) (ok_injective re) (sqs_names-HasNames env pc)
  where
    rest : String → DbSettings → SqsNames → Result AppConfig
    rest aws db names = sqs_numbers env >>= λ numbers.
        access_settings env parse_duration >>= λ access.
        ok (assembled env aws db names numbers access)

-- Once the configuration of the API server is loaded, its queue accepts the settings exactly if the
-- batch size is from 0 to 10 and the wait from 0 to 20 seconds.
pub load_api_config-validate_config :
    (env : String → String) (parse_duration : String → Result ℤ) {cfg : AppConfig}
    → load_api_config env parse_duration ≡ ok cfg
    → (validate_config (api_queue cfg) ≡ ok tt)
      ↔ (IsUpTo 10 cfg.queue_numbers.batch_size × IsUpTo 20 cfg.queue_numbers.wait_seconds)
unfolding load_api_config api_queue
load_api_config-validate_config env parse_duration {cfg = cfg} e =
    let (endpoint, region, name) = load_api_config-HasNames env parse_duration e in
    let (to, from) = validate_config-ok_iff (api_queue cfg) in
    (
      λ accepted. let (r, n, batch, wait, visibility) = to accepted in (batch, wait),
      λ (batch, wait). from (region, inr (endpoint, name), batch, wait, (120, refl, omega arith)),
    )
