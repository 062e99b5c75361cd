-- ===== src/Processes/Queues.antt =====
-- `NewSQS` of pkg/sqs/sqs.go: the set-up of a queue.
use cluster_registry.Prelude.{
  String, ◌==◌, ◌≡◌, refl, some, List, Result, ok, err, Act, Outcome, returned, panicked,
  if◌then◌else◌,
}
use cluster_registry.Queue.{Config, QueueApi, Entry, enqueue, validate_config}
use cluster_registry.Settings.{SqsNames, load_client_config, client_queue}
use cluster_registry.Settings.Queues.{load_client_config-validate_config}

-- The client library: a session for a region, retries and an endpoint, whose error `session.Must`
-- panics on, with the service on it. Its constructors give no nil pointers.
pub record SqsSetup (W : Type 0) : Type 0 where
  pub new_session : Config → Act W (Result (QueueApi W))

abbrev with_url : Config → Result String → Result Config
with_url cfg (err e) = err "unable to get queue name"
with_url cfg (ok url) = ok (record cfg { queue_url = url })

module _ {W : Type 0} where
  abbrev beside : QueueApi W → Result Config → Result (Config × QueueApi W)
  beside svc (err e) = err e
  beside svc (ok cfg) = ok (cfg, svc)

  -- What follows the connection: the URL of the queue is looked up, if there is none.
  unfoldable pub connected :
      Config → Result (QueueApi W) → Act W (Outcome (Result (Config × QueueApi W)))
  connected cfg (err e) w = (panicked, w)
  connected cfg (ok svc) w =
      if cfg.queue_url == ""
      then (let (found, w') = svc.get_queue_url cfg.queue_name w in
          (returned (beside svc (with_url cfg found)), w'))
      else (returned (ok (cfg, svc)), w)

  -- What follows the validation.
  unfoldable pub set_up :
      SqsSetup W → Config → Result (Unit {0}) → Act W (Outcome (Result (Config × QueueApi W)))
  unfolding connected
  set_up s cfg (err e) w = (returned (err e), w)
  set_up s cfg (ok u) w = let (svc, w') = s.new_session cfg w in connected cfg svc w'

  -- `NewSQS`
  unfoldable pub new_sqs : SqsSetup W → Config → Act W (Outcome (Result (Config × QueueApi W)))
  unfolding set_up
  new_sqs s cfg = set_up s cfg (validate_config cfg)

  -- With the names that are read from the environment, and a session and a queue that are there, the
  -- client of the queue is set up, and sends its messages to the URL of that queue.
  new_sqs-enqueue :
      (s : SqsSetup W) (env : String → String) (names : SqsNames) (svc : QueueApi W) (url : String)
      (w w1 w2 : W)
      → load_client_config env ≡ ok names
      → s.new_session (client_queue names) w ≡ (ok svc, w1)
      → svc.get_queue_url names.queue_name w1 ≡ (ok url, w2)
      → (cfg : Config) × (new_sqs s (client_queue names) w ≡ (returned (ok (cfg, svc)), w2))
        × ((batch : List Entry) (v : W)
            → enqueue cfg (some svc) batch v ≡ svc.send_batch url batch v)
  unfolding new_sqs client_queue
  new_sqs-enqueue s env names svc url w w1 w2 loaded session found = (
    record (client_queue names) { queue_url = url },
    rw ((load_client_config-validate_config env loaded).0, set_up, session, connected, found) refl,
    λ batch v. unfold enqueue in refl,
  )
