-- ===== src/Settings/Files/Merging.antt =====
-- Which of the options and of the file wins: `addTo` of pkg/api/config/v1/clientconfig.go.
use cluster_registry.Prelude.{
  String, ◌≡◌, refl, ap, ◌∙◌, eq_iff, Bool, true, false, Option, none, some, [], ◌∷◌, Dict, ℤ, pos,
  negsuc, arith,
}
use cluster_registry.Settings.Options.{
  ControllerManager, LeaderElection, ControllerSpec, WebhookServer, Options,
}
use cluster_registry.Settings.Files.{
  or_text, or_duration, or_elect, or_timeout, or_dict, add_leader_election_to, add_controller_to,
  add_names_to, filled,
}

or_text_idem : (o t : String) → or_text (or_text o t) t ≡ or_text o t
unfolding or_text
or_text_idem o t = ground (arith, eq_iff o "", eq_iff t "")

or_duration_idem : (o : Option ℤ) (t : ℤ) → or_duration (or_duration o t) t ≡ or_duration o t
unfolding or_duration
or_duration_idem (some d) t = refl
or_duration_idem none (pos t) = ground arith
or_duration_idem none (negsuc t) = refl

or_elect_idem : (o : Bool) (e : Option Bool) → or_elect (or_elect o e) e ≡ or_elect o e
unfolding or_elect
or_elect_idem o none = refl
or_elect_idem true (some e) = refl
or_elect_idem false (some true) = refl
or_elect_idem false (some false) = refl

or_timeout_idem : (o : ℤ) (t : Option ℤ) → or_timeout (or_timeout o t) t ≡ or_timeout o t
unfolding or_timeout
or_timeout_idem o none = refl
or_timeout_idem (pos o) (some t) = ground arith
or_timeout_idem (negsuc o) (some t) = refl

or_dict_idem : (o t : Dict ℤ) → or_dict (or_dict o t) t ≡ or_dict o t
unfolding or_dict
or_dict_idem [] [] = refl
or_dict_idem [] (entry ∷ rest) = refl
or_dict_idem (entry ∷ rest) t = refl

add_leader_election_to_idem :
    (le : Option LeaderElection) (o : Options)
    → add_leader_election_to le (add_leader_election_to le o) ≡ add_leader_election_to le o
unfolding add_leader_election_to
add_leader_election_to_idem none o = refl
add_leader_election_to_idem (some le) o =
    rw
      (
        or_elect_idem o.leader_election le.leader_elect,
        or_text_idem o.resource_lock le.resource_lock,
        or_text_idem o.leader_namespace le.resource_namespace,
        or_text_idem o.leader_id le.resource_name,
        or_duration_idem o.lease_duration le.lease_duration,
        or_duration_idem o.renew_deadline le.renew_deadline,
        or_duration_idem o.retry_period le.retry_period,
      )
      refl

add_controller_to_idem :
    (spec : Option ControllerSpec) (o : Options)
    → add_controller_to spec (add_controller_to spec o) ≡ add_controller_to spec o
unfolding add_controller_to
add_controller_to_idem none o = refl
add_controller_to_idem (some spec) o =
    rw
      (
        or_timeout_idem o.cache_sync_timeout spec.cache_sync_timeout,
        or_dict_idem o.group_kind_concurrency spec.group_kind_concurrency,
      )
      refl

add_names_to_idem :
    (cfg : ControllerManager) (o : Options)
    → add_names_to cfg (add_names_to cfg o) ≡ add_names_to cfg o
unfolding add_names_to
add_names_to_idem cfg o =
    rw
      (
        or_text_idem o.metrics_bind_address cfg.bind_address,
        or_text_idem o.health_probe_bind_address cfg.health_probe_bind_address,
        or_text_idem o.readiness_endpoint_name cfg.readiness_endpoint_name,
        or_text_idem o.liveness_endpoint_name cfg.liveness_endpoint_name,
      )
      refl

abbrev pub with_server : Option WebhookServer → Options → Options
with_server server o = record o { webhook_server = server }

-- The parts set different fields, so that each can be done again first.
commute :
    (le : Option LeaderElection) (spec : Option ControllerSpec) (cfg : ControllerManager)
    (server : Option WebhookServer) (o : Options)
    → add_controller_to spec (
        with_server server (
          add_names_to cfg (
            add_leader_election_to le (
              add_controller_to spec
                (with_server server (add_names_to cfg (add_leader_election_to le o)))))))
      ≡ add_controller_to spec (
          add_controller_to spec (
            with_server server (
              add_names_to cfg
                (add_names_to cfg (add_leader_election_to le (add_leader_election_to le o))))))
unfolding add_controller_to add_names_to add_leader_election_to
commute none none cfg server o = refl
commute none (some spec) cfg server o = refl
commute (some le) none cfg server o = refl
commute (some le) (some spec) cfg server o = refl

pub filled_idem :
    (cfg : ControllerManager) (server : Option WebhookServer) (o : Options)
    → filled cfg server (filled cfg server o) ≡ filled cfg server o
filled_idem cfg server o =
    commute cfg.leader_election cfg.controller cfg server o
    ∙ add_controller_to_idem cfg.controller (
        with_server server (
          add_names_to cfg (
            add_names_to cfg (
              add_leader_election_to cfg.leader_election
                (add_leader_election_to cfg.leader_election o)))))
    ∙ ap (λ n. add_controller_to cfg.controller (with_server server n))
        (ap (λ n. add_names_to cfg (add_names_to cfg n))
            (add_leader_election_to_idem cfg.leader_election o)
          ∙ add_names_to_idem cfg (add_leader_election_to cfg.leader_election o))
