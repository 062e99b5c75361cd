-- ===== src/Settings/Files/Settled.antt =====
-- What the options come to rest at: `addTo` of pkg/api/config/v1/clientconfig.go.
use cluster_registry.Prelude.{
  String, ◌≡◌, refl, ap, ◌∙◌, ◌≢◌, ◌==◌, eq_iff, Bool-cases, inl, inr, Option, none, some, Outcome,
  returned, panicked, out_of_fuel, then_return, subst, arith,
}
use cluster_registry.Settings.Options.{
  ControllerManager, ControllerWebhook, LeaderElection, ControllerSpec, WebhookServer, Options,
}
use cluster_registry.Settings.Files.{
  or_text, add_leader_election_to, add_webhook_to, add_controller_to, add_names_to, filled, add_to,
}
use cluster_registry.Settings.Files.Merging.{with_server, filled_idem}

add_webhook_to_idem :
    (hook : ControllerWebhook) (before server : Option WebhookServer)
    → add_webhook_to hook before ≡ returned server
    → add_webhook_to hook server ≡ returned server
unfolding add_webhook_to
add_webhook_to_idem hook before (some server) e = refl
add_webhook_to_idem hook none none e = e
add_webhook_to_idem hook (some server) none e = cc

or_text-set : (o t : String) → o ≢ "" → or_text o t ≡ o
unfolding or_text
or_text-set o t set = ground (arith, set, eq_iff o "")

-- What the parts for the leader election and the controllers leave alone.
abbrev addresses : Options → String × String × Option WebhookServer
addresses o = (o.metrics_bind_address, o.health_probe_bind_address, o.webhook_server)

addresses-add_controller_to :
    (spec : Option ControllerSpec) (o : Options)
    → addresses (add_controller_to spec o) ≡ addresses o
unfolding add_controller_to
addresses-add_controller_to none o = refl
addresses-add_controller_to (some spec) o = refl

addresses-add_leader_election_to :
    (le : Option LeaderElection) (o : Options)
    → addresses (add_leader_election_to le o) ≡ addresses o
unfolding add_leader_election_to
addresses-add_leader_election_to none o = refl
addresses-add_leader_election_to (some le) o = refl

addresses-filled :
    (cfg : ControllerManager) (server : Option WebhookServer) (o : Options)
    → addresses (filled cfg server o) ≡ (
      or_text o.metrics_bind_address cfg.bind_address,
      or_text o.health_probe_bind_address cfg.health_probe_bind_address,
      server,
    )
unfolding add_names_to
addresses-filled cfg server o =
    addresses-add_controller_to cfg.controller
      (with_server server (add_names_to cfg (add_leader_election_to cfg.leader_election o)))
    ∙ ap (λ a. (or_text a.0 cfg.bind_address, or_text a.1 cfg.health_probe_bind_address, server))
        (addresses-add_leader_election_to cfg.leader_election o)

filled-again :
    (cfg : ControllerManager) (server : Option WebhookServer) (o : Options)
    → add_webhook_to cfg.webhook server ≡ returned server
    → add_to cfg (filled cfg server o) ≡ returned (filled cfg server o)
unfolding add_to
filled-again cfg server o e =
    ap
      (λ s.
        then_return (add_webhook_to cfg.webhook s)
          λ server'. returned (filled cfg server' (filled cfg server o)))
      (ap (λ a. a.2) (addresses-filled cfg server o))
    ∙ ap (λ s. then_return s λ server'. returned (filled cfg server' (filled cfg server o))) e
    ∙ ap returned (filled_idem cfg server o)

then_return-returned :
    {A B : Type 0} (x : Outcome A) (f : A → Outcome B) {b : B}
    → then_return x f ≡ returned b
    → (a : A) × (x ≡ returned a) × (f a ≡ returned b)
then_return-returned (returned a) f e = (a, refl, e)
then_return-returned panicked f e = cc
then_return-returned out_of_fuel f e = cc

returned_injective : {a b : Options} → returned a ≡ returned b → a ≡ b
returned_injective e = cc

-- What holds of the options once a file is added to these.
abbrev Settled : ControllerManager → Options → Options → Type 0
Settled cfg o o' =
    (o.metrics_bind_address ≢ "" → o'.metrics_bind_address ≡ o.metrics_bind_address)
    × (o.health_probe_bind_address ≢ ""
        → o'.health_probe_bind_address ≡ o.health_probe_bind_address)
    × (add_to cfg o' ≡ returned o')

-- Once a file is added to the options without a panic, the addresses of the metrics and of the
-- health probe that were set are as they were, whatever the file says, and adding the file again
-- changes nothing.
pub add_to-settled :
    (cfg : ControllerManager) (o o' : Options)
    → add_to cfg o ≡ returned o'
    → (o.metrics_bind_address ≢ "" → o'.metrics_bind_address ≡ o.metrics_bind_address)
      × (o.health_probe_bind_address ≢ ""
          → o'.health_probe_bind_address ≡ o.health_probe_bind_address)
      × (add_to cfg o' ≡ returned o')
unfolding add_to
add_to-settled cfg o o' e =
    let (server, hooked, same) =
      then_return-returned (add_webhook_to cfg.webhook o.webhook_server)
        (λ server. returned (filled cfg server o)) e in
    subst (Settled cfg o) (returned_injective same) (
      λ set.
          ap (λ a. a.0) (addresses-filled cfg server o)
          ∙ or_text-set o.metrics_bind_address cfg.bind_address set,
      λ set.
          ap (λ a. a.1) (addresses-filled cfg server o)
          ∙ or_text-set o.health_probe_bind_address cfg.health_probe_bind_address set,
      filled-again cfg server o (add_webhook_to_idem cfg.webhook o.webhook_server server hooked),
    )

-- A file that has a host and no port for a server of webhooks panics where the options have no such
-- server.
add_to-panicked :
    (cfg : ControllerManager) (o : Options)
    → o.webhook_server ≡ none
    → cfg.webhook.host ≢ ""
    → cfg.webhook.port ≡ none
    → add_to cfg o ≡ panicked
unfolding add_to add_webhook_to
add_to-panicked cfg o no_server host no_port =
    ap (λ s. then_return (add_webhook_to cfg.webhook s) λ server. returned (filled cfg server o))
      no_server
    ∙ elim (Bool-cases (cfg.webhook.host == "")) [
      | inl p ↦ absurd (host ((eq_iff cfg.webhook.host "").0 p))
      | inr p ↦ rw (add_webhook_to, p, no_port) refl
    ]
