-- ===== src/Settings/Files.antt =====
-- pkg/api/config/v1: what a configuration file adds to the options of the controller runtime. The
-- two kinds of configuration embed one struct, whose `addTo` the repository has twice, in
-- clientconfig.go and in syncconfig.go.
pub mod Merging
pub mod Settled
use cluster_registry.Prelude.{
  ℕ, eqb, leb, String, ◌==◌, ◌&&◌, not, Bool, true, false, Option, none, some, List, [], ◌∷◌, Dict,
  ℤ, pos, negsuc, ltb_ℤ, Outcome, returned, panicked, then_return, if◌then◌else◌,
}
use cluster_registry.SyncManager.Parser.{GroupVersionKind}
use cluster_registry.Webhook.{AlertRule}
use cluster_registry.Settings.Options.{
  LeaderElection, ControllerSpec, ControllerWebhook, ControllerManager, ClientFile, SyncFile,
  WebhookServer, Options, flag_options,
}

abbrev is_zero : ℤ → Bool
is_zero (pos n) = eqb n 0
is_zero (negsuc n) = false

-- An option that is not set takes the text of the file.
unfoldable pub or_text : String → String → String
or_text option text = if (option == "") && not (text == "") then text else option

unfoldable pub or_duration : Option ℤ → ℤ → Option ℤ
or_duration (some t) duration = some t
or_duration none duration = if is_zero duration then none else some duration

unfoldable pub or_elect : Bool → Option Bool → Bool
or_elect option none = option
or_elect option (some elect) = if option then option else elect

-- `addLeaderElectionTo`
unfoldable pub add_leader_election_to : Option LeaderElection → Options → Options
add_leader_election_to none o = o
add_leader_election_to (some le) o = record o {
  leader_election = or_elect o.leader_election le.leader_elect;
  resource_lock = or_text o.resource_lock le.resource_lock;
  leader_namespace = or_text o.leader_namespace le.resource_namespace;
  leader_id = or_text o.leader_id le.resource_name;
  lease_duration = or_duration o.lease_duration le.lease_duration;
  renew_deadline = or_duration o.renew_deadline le.renew_deadline;
  retry_period = or_duration o.retry_period le.retry_period;
}

abbrev new_server : ControllerWebhook → Option ℤ → Outcome (Option WebhookServer)
new_server hook none = panicked
new_server hook (some port) = returned (
    if ltb_ℤ (pos 0) port && not (hook.cert_dir == "")
    then some (record { host = hook.host; port = port; cert_dir = hook.cert_dir })
    else none)

-- `addWebhookTo`: a host without a port is a nil pointer.
unfoldable pub add_webhook_to :
    ControllerWebhook → Option WebhookServer → Outcome (Option WebhookServer)
add_webhook_to hook (some server) = returned (some server)
add_webhook_to hook none = if hook.host == "" then returned none else new_server hook hook.port

unfoldable pub or_timeout : ℤ → Option ℤ → ℤ
or_timeout option none = option
or_timeout option (some timeout) = if is_zero option then timeout else option

unfoldable pub or_dict : Dict ℤ → Dict ℤ → Dict ℤ
or_dict [] dict = dict
or_dict (entry ∷ rest) dict = entry ∷ rest

unfoldable pub add_controller_to : Option ControllerSpec → Options → Options
add_controller_to none o = o
add_controller_to (some spec) o = record o {
  cache_sync_timeout = or_timeout o.cache_sync_timeout spec.cache_sync_timeout;
  group_kind_concurrency = or_dict o.group_kind_concurrency spec.group_kind_concurrency;
}

unfoldable pub add_names_to : ControllerManager → Options → Options
add_names_to cfg o = record o {
  metrics_bind_address = or_text o.metrics_bind_address cfg.bind_address;
  health_probe_bind_address = or_text o.health_probe_bind_address cfg.health_probe_bind_address;
  readiness_endpoint_name = or_text o.readiness_endpoint_name cfg.readiness_endpoint_name;
  liveness_endpoint_name = or_text o.liveness_endpoint_name cfg.liveness_endpoint_name;
}

-- The options with everything of the file and this server.
abbrev pub filled : ControllerManager → Option WebhookServer → Options → Options
filled cfg server o =
    add_controller_to cfg.controller
      (record (add_names_to cfg (add_leader_election_to cfg.leader_election o)) {
        webhook_server = server;
      })

-- `addTo`
unfoldable pub add_to : ControllerManager → Options → Outcome Options
add_to cfg o =
    then_return (add_webhook_to cfg.webhook o.webhook_server)
      λ server. returned (filled cfg server o)

-- The methods of the two kinds of configuration, which differ in their receiver alone.
unfoldable pub add_client_to : ClientFile → Options → Outcome Options
add_client_to file o = add_to file.manager o

unfoldable pub add_sync_to : SyncFile → Options → Outcome Options
add_sync_to file o = add_to file.manager o

module _ {File : Type 0} (add_file_to : File → Options → Outcome Options) (empty_file : File)
    (default : File → File) (from_file : String → File → File × Option String) where
  abbrev or_empty : Option File → File
  or_empty none = empty_file
  or_empty (some file) = file

  abbrev added : Options → File × Option String → Outcome (Options × File × Option String)
  added o (file, some e) = returned (o, file, some e)
  added o (file, none) = then_return (add_file_to file o) λ o'. returned (o', file, none)

  -- The body of `NewClientConfig` and `NewSyncConfig`: the options, the configuration and the error. `default`
  -- and `from_file` are those of the scheme; a file that cannot be decoded leaves what was read.
  unfoldable pub new_config :
      Options → String → Option File → Outcome (Options × File × Option String)
  new_config o path defaults =
      if path == ""
      then added o (default (or_empty defaults), none)
      else added o (from_file path (or_empty defaults))

abbrev pub no_manager : ControllerManager
no_manager = record {
  leader_election = none;
  controller = none;
  bind_address = "";
  health_probe_bind_address = "";
  readiness_endpoint_name = "";
  liveness_endpoint_name = "";
  webhook = record { port = none; host = ""; cert_dir = "" };
}

-- `NewClientConfig`
unfoldable pub new_client_config :
    (ClientFile → ClientFile)
    → (String → ClientFile → ClientFile × Option String)
    → Options
    → String
    → Option ClientFile
    → Outcome (Options × ClientFile × Option String)
unfolding new_config
new_client_config default from_file o path defaults =
    new_config add_client_to empty_client default from_file o path defaults
  where
    empty_client : ClientFile
    empty_client = record {
      manager = no_manager;
      namespace = "";
      webhook_bind_address = "";
      alert_map = [];
      watched_gvks = [];
      service_id_annotation = "";
    }

-- `NewSyncConfig`
unfoldable pub new_sync_config :
    (SyncFile → SyncFile)
    → (String → SyncFile → SyncFile × Option String)
    → Options
    → String
    → Option SyncFile
    → Outcome (Options × SyncFile × Option String)
unfolding new_config
new_sync_config default from_file o path defaults =
    new_config add_sync_to (record { manager = no_manager; namespace = ""; watched_gvks = [] })
      default from_file o path defaults
