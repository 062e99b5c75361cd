-- ===== src/Api/Routes/Closed.antt =====
-- Who reaches the handlers of the API.
use cluster_registry.Prelude.{
  String, Bool, true, false, ◌≡◌, refl, some, All, All-append, ◌++◌, ◌⊎◌, ok, Result-cases, inl,
  inr, List, [], ◌∷◌, ◌==◌, ◌&&◌, Option, none, if◌then◌else◌,
}
use cluster_registry.Http.{Request, Handler, Middleware}
use cluster_registry.Auth.{
  Authenticator, Claims, extract_token, verify, verify_token, with_claims, verify_group_access,
  egress_target,
}
use cluster_registry.Auth.Access.{IsAuthorized, group_route-closed}
use cluster_registry.Api.Limits.{
  LimiterLib, limiter_config, rate_limiter, passed_world, rate_limiter-PassesOrAnswers,
  rate_limiter-passes,
}
use cluster_registry.Api.Routes.{Handlers, Route, guarded, register_v1, register_v2}

-- The routes of a method.
abbrev pub filter_method : {W : Type 0} → String → List (Route W) → List (Route W)
filter_method method [] = []
filter_method method (route ∷ routes) =
    let others = filter_method method routes in
    if route.method == method then route ∷ others else others

-- The first route of this method and this path.
abbrev pub first_route : {W : Type 0} → String → String → List (Route W) → Option (Route W)
first_route method path [] = none
first_route method path (route ∷ routes) =
    let later = first_route method path routes in
    if (route.method == method) && (route.path == path) then some route else later

module _ {W Token : Type 0} (a : Authenticator W Token) where
  -- The request carries a token that is verified, and whose claims can be read.
  abbrev pub IsAuthenticated : Request → W → Type 0
  IsAuthenticated c w =
      (raw : String) × (token : Token) × (claims : Claims) × (extract_token c.authorization
        ≡ ok raw)
      × ((verify a raw w).0 ≡ ok token)
      × (a.claims token ≡ ok claims)

  verify_token-closed :
      (h k : Handler W) (c : Request) (w : W)
      → ¬ IsAuthenticated c w
      → verify_token a h c w ≡ verify_token a k c w
  unfolding verify_token with_claims
  verify_token-closed h k c w unknown = elim (Result-cases (extract_token c.authorization)) [
    | inr (e, p) ↦ rw (p, verify_token) refl
    | inl (raw, p) ↦ elim (Result-cases (verify a raw w).0) [
      | inr (e, q) ↦ rw (p, verify_token, q, with_claims) refl
      | inl (token, q) ↦ elim (Result-cases (a.claims token)) [
        | inr (e, r) ↦ rw (p, verify_token, q, with_claims, r) refl
        | inl (claims, r) ↦ absurd (unknown (raw, token, claims, p, q, r))
      ]
    ]
  ]

  -- A request of which this does not hold is answered without the handler of the route.
  abbrev pub IsClosedTo : (Request → W → Type 0) → Route W → Type 0
  IsClosedTo IsKnown route =
      (hs ks : Handlers W) (c : Request) (w : W)
      → ¬ IsKnown c w
      → route.serve hs c w ≡ route.serve ks c w

  abbrev pub IsClosed : Route W → Type 0
  IsClosed = IsClosedTo IsAuthenticated

  module _ (limiter cached : Middleware W) where
    closed :
        (next : Handlers W → Handler W) (hs ks : Handlers W) (c : Request) (w : W)
        → ¬ IsAuthenticated c w
        → guarded a limiter cached (next hs) c w ≡ guarded a limiter cached (next ks) c w
    closed next hs ks = verify_token-closed (limiter (next hs)) (limiter (next ks))

    pub register_v1-IsClosed : All IsClosed (register_v1 a limiter cached)
    unfolding register_v1
    register_v1-IsClosed =
        (closed (λ hs. hs.get_cluster), (closed (λ hs. cached hs.list_clusters), tt))

    pub register_v2-IsClosed :
        (services_limiter : Middleware W) (group : String)
        → All IsClosed (register_v2 a limiter cached services_limiter group)
    unfolding register_v2
    register_v2-IsClosed services_limiter group = (
      closed (λ hs. hs.get_cluster),
      (
        closed (λ hs. verify_group_access group hs.patch_cluster),
        (
          closed (λ hs. cached hs.list_clusters),
          (
            (λ hs ks.
                verify_token-closed (services_limiter hs.get_service_metadata)
                  (services_limiter ks.get_service_metadata)),
            (
              λ hs ks.
                  verify_token-closed (services_limiter hs.get_service_metadata_for_cluster)
                    (services_limiter ks.get_service_metadata_for_cluster),
              tt,
            ),
          ),
        ),
      ),
    )

  -- On every route of both versions a request without a token that is verified and whose claims can
  -- be read is answered without the handler: any two sets of handlers give the same answer and the
  -- same world. On the route that patches, the same holds of a request whose claims do not name the
  -- group.
  pub register-IsClosed :
      (first lib services : LimiterLib W) (enabled : Bool) (cached : Middleware W) (group : String)
      → All IsClosed (
          register_v1 a (rate_limiter first enabled) cached
          ++ register_v2 a (rate_limiter lib enabled) cached (rate_limiter services enabled) group)
        × All (IsClosedTo (IsAuthorized a (rate_limiter lib enabled) group)) (
            filter_method "PATCH" (
              register_v2 a
                (rate_limiter lib enabled)
                cached
                (rate_limiter services enabled)
                group))
  unfolding register_v2
  register-IsClosed first lib services enabled cached group = (
    All-append IsClosed (register_v1 a (rate_limiter first enabled) cached)
        (register_v2 a (rate_limiter lib enabled) cached (rate_limiter services enabled) group)
        (register_v1-IsClosed (rate_limiter first enabled) cached)
        (register_v2-IsClosed (rate_limiter lib enabled) cached (rate_limiter services enabled)
          group),
    (
      λ hs ks.
          group_route-closed a (rate_limiter lib enabled) group
            (rate_limiter-PassesOrAnswers lib enabled) hs.patch_cluster ks.patch_cluster,
      tt,
    ),
  )

  -- The world in which the guard passes on a request with this token of this identity.
  abbrev pub reached_world : LimiterLib W → Bool → String → String → W → W
  reached_world lib enabled raw oid w =
      passed_world lib enabled oid (a.record_egress egress_target (verify a raw w).1)

  -- A request with a token that is verified and whose claims can be read reaches whatever is behind
  -- the guard of the routes, with the identity and the groups of the claims, and in the world
  -- behind the checks, where the limiter is off or lets that identity pass.
  pub guarded-reached :
      (lib : LimiterLib W) (enabled : Bool) (cached : Middleware W) (c : Request) (w : W)
      (raw : String) (token : Token) (claims : Claims) (next : Handler W)
      → extract_token c.authorization ≡ ok raw
      → (verify a raw w).0 ≡ ok token
      → a.claims token ≡ ok claims
      → (enabled ≡ false)
        ⊎ ((lib.allow
              (limiter_config true)
              claims.oid
              (a.record_egress egress_target (verify a raw w).1)).0
            ≡ true)
      → guarded a (rate_limiter lib enabled) cached next c w
        ≡ next
            (record c { oid = some claims.oid; groups = some claims.groups })
            (reached_world lib enabled raw claims.oid w)
  unfolding verify_token with_claims
  guarded-reached lib enabled cached c w raw token claims next p q r may =
      let seen = record c { oid = some claims.oid; groups = some claims.groups } in
      rw (p, verify_token, q, with_claims, r)
        (rate_limiter-passes lib enabled seen (a.record_egress egress_target (verify a raw w).1)
          claims.oid refl may next)
