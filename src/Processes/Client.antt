-- ===== src/Processes/Client.antt =====
-- cmd/client/client.go and cmd/sync/manager/manager.go: how the two controllers start. The server of
-- the webhooks runs beside the manager; that its error ends the process is left out.
use cluster_registry.Prelude.{
  String, ◌==◌, Bool, Option, none, some, List, [], Result, ok, err, Act, Outcome, returned,
  panicked, out_of_fuel, if◌then◌else◌,
}
use cluster_registry.Webhook.{AlertRule}
use cluster_registry.Queue.{Config, QueueApi}
use cluster_registry.SyncManager.Parser.{GroupVersionKind, Schema}
use cluster_registry.Settings.{load_client_config, client_queue, sync_queue}
use cluster_registry.Settings.Options.{ClientFile, SyncFile, Options, flag_options}
use cluster_registry.Settings.Files.{no_manager, new_client_config, new_sync_config}
use cluster_registry.Settings.Kinds.{ResourceList, load_watched_gvks}
use cluster_registry.Processes.{
  Progress, going, crashed, Start, ◌>>=◌, ◌>>◌, or_exit, checked, checked_outcome, pure_step, done,
}
use cluster_registry.Processes.Queues.{SqsSetup, new_sqs}

-- The flags of a process; the sync manager has no address of webhooks.
pub record Flags : Type 0 where
  pub config_file : String
  pub metrics_addr : String
  pub enable_leader_election : Bool
  pub probe_addr : String
  pub alertmanager_webhook_addr : String
  pub namespace : String

-- The codec of a kind of configuration file: its defaults, its decoder and its encoder.
pub record FileCodec (File : Type 0) : Type 0 where
  pub default : File → File
  pub from_file : String → File → File × Option String
  pub encode : File → Result String

-- The address, the namespace and the rules of the server of the webhooks.
pub record WebhookSettings : Type 0 where
  pub bind_address : String
  pub namespace : String
  pub alert_map : List AlertRule

-- The controller runtime and the discovery client. The controllers are set up with the queue, or with
-- the kinds that they watch and an annotation; `start_manager` returns when the process is stopped.
pub record Runtime (W : Type 0) : Type 0 where
  pub env : String → String
  pub schema : Schema
  pub new_manager : Options → Act W (Result (Unit {0}))
  pub load_tls_files : Act W (Result (Unit {0}))
  pub sqs : SqsSetup W
  pub discover : Act W (Result (List ResourceList))
  pub set_up_cluster : Config → QueueApi W → Act W (Result (Unit {0}))
  pub set_up_watcher : List GroupVersionKind → String → Act W (Result (Unit {0}))
  pub set_up_sync : List GroupVersionKind → Config → QueueApi W → Act W (Result (Unit {0}))
  pub add_healthz_check : Act W (Result (Unit {0}))
  pub add_readyz_check : Act W (Result (Unit {0}))
  pub serve_webhook : WebhookSettings → W → W
  pub start_manager : Act W (Result (Unit {0}))

-- `ClientConfig{}` and the defaults of the client.
abbrev pub empty_client : ClientFile
empty_client = record {
  manager = no_manager;
  namespace = "";
  webhook_bind_address = "";
  alert_map = [];
  watched_gvks = [];
  service_id_annotation = "";
}

abbrev client_config_defaults : Flags → ClientFile
client_config_defaults flags = record empty_client {
  namespace = flags.namespace;
  webhook_bind_address = flags.alertmanager_webhook_addr;
  service_id_annotation = "adobe.serviceid";
}

abbrev empty_sync : SyncFile
empty_sync = record { manager = no_manager; namespace = ""; watched_gvks = [] }

abbrev sync_config_defaults : Flags → SyncFile
sync_config_defaults flags = record empty_sync { namespace = flags.namespace }

abbrev options_of : Flags → String → Options
options_of flags id =
    flag_options flags.metrics_addr flags.probe_addr flags.enable_leader_election id

-- What `apply` makes of a configuration that was read; it is encoded for the log.
abbrev encoded :
    {File : Type 0}
    → (File → Result String)
    → Options × File × Option String
    → Result (Options × File)
encoded encode (o, file, some e) = err e
encoded encode (o, file, none) = elim (encode file) [ err e ↦ err e | ok text ↦ ok (o, file) ]

abbrev pub applied :
    {File : Type 0}
    → (File → Result String)
    → Outcome (Options × File × Option String)
    → Progress (Options × File)
applied encode (returned read) = or_exit (encoded encode read)
applied encode panicked = crashed
applied encode out_of_fuel = crashed

-- The options and the configuration of the client.
unfoldable pub client_settings : FileCodec ClientFile → Flags → Progress (Options × ClientFile)
client_settings codec flags =
    let options = options_of flags "1d5078e3.registry.ethos.adobe.com" in
    if flags.config_file == ""
    then going (options, empty_client)
    else applied codec.encode (
        new_client_config codec.default codec.from_file options flags.config_file
          (some (client_config_defaults flags)))

-- Those of the sync manager.
unfoldable pub sync_settings : FileCodec SyncFile → Flags → Progress (Options × SyncFile)
sync_settings codec flags =
    let options = options_of flags "sync.registry.ethos.adobe.com" in
    if flags.config_file == ""
    then going (options, empty_sync)
    else applied codec.encode (
        new_sync_config codec.default codec.from_file options flags.config_file
          (some (sync_config_defaults flags)))

module _ {W : Type 0} (r : Runtime W) where
  -- An error of the discovery is not fatal.
  abbrev discovered : Start W (Result (List ResourceList))
  discovered w = let (lists, w') = r.discover w in (going lists, w')

  abbrev webhook_settings : ClientFile → WebhookSettings
  webhook_settings file = record {
    bind_address = file.webhook_bind_address;
    namespace = file.namespace;
    alert_map = file.alert_map;
  }

  -- `main` of cmd/client/client.go, behind its settings.
  unfoldable pub run_client_with : Options × ClientFile → Start W (Unit {0})
  run_client_with settings = do
    checked (r.new_manager settings.0)
    checked r.load_tls_files
    names ← pure_step (or_exit (load_client_config r.env))
    queue ← checked_outcome (new_sqs r.sqs (client_queue names))
    checked (r.set_up_cluster queue.0 queue.1)
    lists ← discovered
    checked (
        r.set_up_watcher (load_watched_gvks r.schema lists settings.1.watched_gvks)
          settings.1.service_id_annotation)
    checked r.add_healthz_check
    checked r.add_readyz_check
    done (r.serve_webhook (webhook_settings settings.1))
    checked r.start_manager

  -- `main` of cmd/client/client.go
  unfoldable pub run_client : FileCodec ClientFile → Flags → Start W (Unit {0})
  run_client codec flags = pure_step (client_settings codec flags) >>= run_client_with

  -- `main` of cmd/sync/manager/manager.go, behind its settings.
  unfoldable pub run_sync_with : Options × SyncFile → Start W (Unit {0})
  run_sync_with settings = do
    checked (r.new_manager settings.0)
    names ← pure_step (or_exit (load_client_config r.env))
    queue ← checked_outcome (new_sqs r.sqs (sync_queue names))
    lists ← discovered
    checked
        (r.set_up_sync (load_watched_gvks r.schema lists settings.1.watched_gvks) queue.0 queue.1)
    checked r.add_healthz_check
    checked r.add_readyz_check
    checked r.start_manager

  -- `main` of cmd/sync/manager/manager.go
  unfoldable pub run_sync : FileCodec SyncFile → Flags → Start W (Unit {0})
  run_sync codec flags = pure_step (sync_settings codec flags) >>= run_sync_with
