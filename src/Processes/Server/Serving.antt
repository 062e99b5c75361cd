-- ===== src/Processes/Server/Serving.antt =====
-- What the API server serves: cmd/apiserver/apiserver.go.
use cluster_registry.Prelude.{
  String, true, contains, refl, ◌++◌, ◌⊎◌, ◌≡◌, sym, ap, List, [], ◌∷◌, All, All-append, subst, inl,
  inr, Result, ok, err, ok_injective, Result-cases, Act,
}
use cluster_registry.Auth.{Authenticator}
use cluster_registry.Settings.{AppConfig, load_api_config, api_queue}
use cluster_registry.Api.Limits.{rate_limiter}
use cluster_registry.Api.Routes.{Route, register_v1, register_v2}
use cluster_registry.Api.Routes.Closed.{IsClosed, register_v1-IsClosed, register_v2-IsClosed}
use cluster_registry.Processes.{
  Progress, going, exited, or_exit, checked, checked_outcome, resume-cong,
}
use cluster_registry.Processes.Queues.{new_sqs}
use cluster_registry.Queue.{Config, QueueApi}
use cluster_registry.Processes.Server.{
  open_routes, ServerRuntime, redis_options, authenticator_of, authenticator_or_error,
  new_authenticator, api_routes, serve_api, run_server,
}

or_exit-going : {A : Type 0} (r : Result A) {a : A} → or_exit r ≡ going a → r ≡ ok a
or_exit-going (ok b) e = cc
or_exit-going (err m) e = cc

-- The routes that need no token.
abbrev pub open_paths : List String
open_paths = "/api/swagger/*" ∷ "/livez" ∷ "/readyz" ∷ "/version" ∷ "/metrics" ∷ []

abbrev pub IsOpen : {W : Type 0} → Route W → Type 0
IsOpen route = (route.method ≡ "GET") × (contains route.path open_paths ≡ true)

module _ {W Provider Token : Type 0} (r : ServerRuntime W Provider Token) where
  -- The route is closed to those that an authenticator of this configuration does not know: one on a
  -- provider that the issuer of the configuration gave.
  abbrev pub IsGuarded : AppConfig → Route W → Type 0
  IsGuarded cfg route =
      (provider : Provider) × (w : W) × ((r.new_provider cfg.access.oidc_issuer_url w).0
        ≡ ok provider)
      × IsClosed (authenticator_of r cfg.access provider) route

  -- The authenticators of this configuration.
  abbrev IsMade : AppConfig → Authenticator W Token → Type 0
  IsMade cfg a =
      (provider : Provider) × (w : W) × ((r.new_provider cfg.access.oidc_issuer_url w).0
        ≡ ok provider)
      × (a ≡ authenticator_of r cfg.access provider)

  new_authenticator-IsMade :
      (cfg : AppConfig) (w : W) (a : Authenticator W Token) (w' : W)
      → checked (new_authenticator r cfg.access) w ≡ (going a, w')
      → IsMade cfg a
  unfolding new_authenticator
  new_authenticator-IsMade cfg w a w' e =
      let result : authenticator_or_error r cfg.access
            (r.new_provider cfg.access.oidc_issuer_url w).0
          ≡ ok a =
        or_exit-going _ (ap (λ (out : Progress (Authenticator W Token) × W). out.0) e) in
      elim (Result-cases (r.new_provider cfg.access.oidc_issuer_url w).0) [
        | inl (provider, p) ↦ (provider, w, p, sym (ok_injective (rw p at result)))
        | inr (m, p) ↦ cc (rw p at result)
      ]

  All-IsGuarded :
      (cfg : AppConfig) (a : Authenticator W Token) (routes : List (Route W))
      → IsMade cfg a
      → All (IsClosed a) routes
      → All (IsGuarded cfg) routes
  All-IsGuarded cfg a [] made h = tt
  All-IsGuarded cfg a (route ∷ routes) made (h, rest) =
      let (provider, w, given, same) = made in
      (
        (provider, w, given, subst (λ b. IsClosed b route) same h),
        All-IsGuarded cfg a routes made rest,
      )

  api_routes-IsGuarded :
      (cfg : AppConfig) (first second : Authenticator W Token)
      → IsMade cfg first
      → IsMade cfg second
      → All (IsGuarded cfg) (api_routes r cfg first second)
  api_routes-IsGuarded cfg first second one two =
      let enabled = cfg.access.rate_limiter_enabled in
      let limiter = rate_limiter r.first_limiter enabled in
      let clusters = rate_limiter r.clusters_limiter enabled in
      let services = rate_limiter r.services_limiter enabled in
      let v1 = register_v1 first limiter r.cached in
      let v2 = register_v2 second clusters r.cached services cfg.access.authorized_group_id in
      All-append (IsGuarded cfg) v1 v2
        (All-IsGuarded cfg first v1 one (register_v1-IsClosed first limiter r.cached))
        (All-IsGuarded cfg second v2 two
          (register_v2-IsClosed second clusters r.cached services cfg.access.authorized_group_id))

  All-IsServed :
      (cfg : AppConfig) (routes : List (Route W))
      → All (IsGuarded cfg) routes
      → All (λ route. IsOpen route ⊎ IsGuarded cfg route) routes
  All-IsServed cfg [] h = tt
  All-IsServed cfg (route ∷ routes) (guarded, h) = (inr guarded, All-IsServed cfg routes h)

  open_routes-IsOpen :
      (cfg : AppConfig) (queue : Config × QueueApi W)
      → All (λ route. IsOpen route ⊎ IsGuarded cfg route) (open_routes r queue)
  unfolding open_routes contains
  open_routes-IsOpen cfg queue = (
    inl (refl, refl),
    (inl (refl, refl), (inl (refl, refl), (inl (refl, refl), (inl (refl, refl), tt)))),
  )

  -- The API server listens on GET routes of the documentation, /livez, /readyz, /version and
  -- /metrics, and else on guarded routes alone: two ways to listen that agree on all lists of such
  -- routes, where a guarded one is closed to requests which an authenticator of the loaded
  -- configuration does not know, one on a provider of its issuer, give the same run of the server.
  pub run_server-IsGuarded :
      (listen other : List (Route W) → Act W String)
      → ((cfg : AppConfig) (routes : List (Route W)) (w : W)
          → load_api_config r.env r.parse_duration ≡ ok cfg
          → All (λ route. IsOpen route ⊎ IsGuarded cfg route) routes
          → listen routes w ≡ other routes w)
      → (w : W) → run_server r listen w ≡ run_server r other w
  unfolding run_server serve_api
  run_server-IsGuarded listen other agree w = resume-cong {A = AppConfig} _ _ _ λ cfg w0 loaded.
      resume-cong (checked_outcome (new_sqs r.sqs (api_queue cfg)) w0) (serve_api r listen cfg)
        (serve_api r other cfg)
        λ queue w1 e1.
          resume-cong (checked (r.connect_redis (redis_options r.is_ip cfg.access)) w1) _ _
            λ u w2 e2. resume-cong {A = Authenticator W Token} _ _ _ λ first w3 e3.
              resume-cong {A = Authenticator W Token} _ _ _ λ second w4 e4.
                ap (λ (out : String × W). (exited out.0, out.1))
                  (agree cfg (open_routes r queue ++ api_routes r cfg first second)
                    (r.poll queue.0 queue.1 w4)
                    (or_exit-going _ (ap (λ (out : Progress AppConfig × W). out.0) loaded))
                    (All-append (λ route. IsOpen route ⊎ IsGuarded cfg route) (open_routes r queue)
                      (api_routes r cfg first second) (open_routes-IsOpen cfg queue)
                      (All-IsServed cfg (api_routes r cfg first second) (
                        api_routes-IsGuarded cfg first second
                          (new_authenticator-IsMade cfg w2 first w3 e3)
                          (new_authenticator-IsMade cfg w3 second w4 e4)))))
