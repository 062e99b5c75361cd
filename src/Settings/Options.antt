-- ===== src/Settings/Options.antt =====
-- The configuration files of pkg/api/config/v1, and the options of the controller runtime.
use cluster_registry.Prelude.{String, Bool, Option, none, List, [], Dict, ℤ, pos}
use cluster_registry.SyncManager.Parser.{GroupVersionKind}
use cluster_registry.Webhook.{AlertRule}

-- The fields that the code reads; a duration is its number of nanoseconds.
pub record LeaderElection : Type 0 where
  pub leader_elect : Option Bool
  pub resource_lock : String
  pub resource_namespace : String
  pub resource_name : String
  pub lease_duration : ℤ
  pub renew_deadline : ℤ
  pub retry_period : ℤ

pub record ControllerSpec : Type 0 where
  pub cache_sync_timeout : Option ℤ
  pub group_kind_concurrency : Dict ℤ

pub record ControllerWebhook : Type 0 where
  pub port : Option ℤ
  pub host : String
  pub cert_dir : String

pub record ControllerManager : Type 0 where
  pub leader_election : Option LeaderElection
  pub controller : Option ControllerSpec
  pub bind_address : String
  pub health_probe_bind_address : String
  pub readiness_endpoint_name : String
  pub liveness_endpoint_name : String
  pub webhook : ControllerWebhook

pub record ClientFile : Type 0 where
  pub manager : ControllerManager
  pub namespace : String
  pub webhook_bind_address : String
  pub alert_map : List AlertRule
  pub watched_gvks : List GroupVersionKind
  pub service_id_annotation : String

pub record SyncFile : Type 0 where
  pub manager : ControllerManager
  pub namespace : String
  pub watched_gvks : List GroupVersionKind

-- `webhook.NewServer` of these options.
pub record WebhookServer : Type 0 where
  pub host : String
  pub port : ℤ
  pub cert_dir : String

-- The fields of `ctrl.Options` that the code sets.
pub record Options : Type 0 where
  pub metrics_bind_address : String
  pub health_probe_bind_address : String
  pub readiness_endpoint_name : String
  pub liveness_endpoint_name : String
  pub leader_election : Bool
  pub resource_lock : String
  pub leader_namespace : String
  pub leader_id : String
  pub lease_duration : Option ℤ
  pub renew_deadline : Option ℤ
  pub retry_period : Option ℤ
  pub webhook_server : Option WebhookServer
  pub cache_sync_timeout : ℤ
  pub group_kind_concurrency : Dict ℤ

-- The options of cmd/client/client.go and cmd/sync/manager/manager.go, from their flags and the
-- identifier of the process.
unfoldable pub flag_options : String → String → Bool → String → Options
flag_options metrics probe elect id = record {
  metrics_bind_address = metrics;
  health_probe_bind_address = probe;
  readiness_endpoint_name = "";
  liveness_endpoint_name = "";
  leader_election = elect;
  resource_lock = "leases";
  leader_namespace = "";
  leader_id = id;
  lease_duration = none;
  renew_deadline = none;
  retry_period = none;
  webhook_server = none;
  cache_sync_timeout = pos 0;
  group_kind_concurrency = [];
}
