-- ===== src/Api/Handlers/Unsent.antt =====
-- Which patches reach no cluster.
use cluster_registry.Prelude.{
  String, ◌≡◌, refl, sym, ◌∙◌, inl, inr, Bool, Bool-cases, Option, none, some, List, contains, All,
  ℕ, Result, ok, err, Result-cases, Act,
}
use cluster_registry.Registry.Cluster.{Cluster}
use cluster_registry.Database.Api.{Db}
use cluster_registry.Http.{Request, Handler, Middleware}
use cluster_registry.Auth.{
  Authenticator, extract_token, verify, verify_token, with_claims, verify_group_access,
}
use cluster_registry.Auth.Access.{PassesOrAnswers}
use cluster_registry.Api.Access.{IsTag, patch_found-invalid}
use cluster_registry.Api.Limits.{LimiterLib, rate_limiter, rate_limiter-PassesOrAnswers}
use cluster_registry.Api.Patches.{
  SpecPatch, PatchApi, given_tags, validate, patch_found, patch_cluster_handler,
}
use cluster_registry.Api.Reads.{path_param, get_cluster_by_name}
use cluster_registry.Api.Routes.{Route, guarded, register_v2}
use cluster_registry.Api.Routes.Closed.{first_route}
use cluster_registry.Api.Handlers.{new_handler}

-- The request with the identity and the groups that the check of its token stores.
abbrev identified : String → List String → Request → Request
identified oid groups c = record c { oid = some oid; groups = some groups }

module _ {W Token : Type 0} (a : Authenticator W Token) (limit : Middleware W)
    (passes : PassesOrAnswers limit) where
  limit-same :
      (h k : Handler W) (c : Request)
      → ((w : W) → h c w ≡ k c w)
      → (w : W) → limit h c w ≡ limit k c w
  limit-same h k c same w = elim (passes c w) [
    | inl (r, always) ↦ always h ∙ sym (always k)
    | inr (w', through) ↦ through h ∙ same w' ∙ sym (through k)
  ]

  -- Handlers that answer a request alike, whoever it is from, answer it alike behind the guard.
  guarded-same :
      (h k : Handler W) (c : Request)
      → ((oid : String) (groups : List String) (w : W)
          → h (identified oid groups c) w ≡ k (identified oid groups c) w)
      → (w : W) → verify_token a (limit h) c w ≡ verify_token a (limit k) c w
  unfolding verify_token with_claims
  guarded-same h k c same w = elim (Result-cases (extract_token c.authorization)) [
    | inr (e, p) ↦ rw (p, verify_token) refl
    | inl (raw, p) ↦ elim (Result-cases (verify a raw w).0) [
      | inr (e, q) ↦ rw (p, verify_token, q, with_claims) refl
      | inl (token, q) ↦ elim (Result-cases (a.claims token)) [
        | inr (e, r) ↦ rw (p, verify_token, q, with_claims, r) refl
        | inl (claims, r) ↦
            rw (p, verify_token, q, with_claims, r)
              (limit-same h k (identified claims.oid claims.groups c)
                (same claims.oid claims.groups) _)
      ]
    ]
  ]

verify_group_access-same :
    {W : Type 0} (group : String) (h k : Handler W) (c : Request) (oid : String)
    (groups : List String) (w : W)
    → h (identified oid groups c) w ≡ k (identified oid groups c) w
    → verify_group_access group h (identified oid groups c) w
      ≡ verify_group_access group k (identified oid groups c) w
unfolding verify_group_access
verify_group_access-same group h k c oid groups w same = elim (Bool-cases (contains group groups)) [
  | inl m ↦ rw (m, verify_group_access) same
  | inr m ↦ rw (m, verify_group_access) refl
]

-- The same calls, with other clients of the clusters.
abbrev pub with_clients :
    {W Client : Type 0}
    → (Cluster → Act W (Result Client))
    → (Client → String → String → String → String → String → Act W (Result String))
    → PatchApi W Client
    → PatchApi W Client
with_clients get merge p = record p { get_client = get; merge_patch = merge }

module _ {W Client : Type 0} (p : PatchApi W Client) (get : Cluster → Act W (Result Client))
    (merge : Client → String → String → String → String → String → Act W (Result String)) where
  patch_found-unsent :
      (c : Request) (patch : SpecPatch)
      → p.bind c ≡ ok patch
      → ¬ All IsTag (given_tags patch.tags)
      → (found : Result (Option Cluster)) (w : W)
      → patch_found p c found w ≡ patch_found (with_clients get merge p) c found w
  unfolding patch_found validate
  patch_found-unsent c patch bound bad (err e) w = refl
  patch_found-unsent c patch bound bad (ok none) w = refl
  patch_found-unsent c patch bound bad (ok (some cluster)) w =
      let (e, v, answered) = patch_found-invalid p c cluster patch w bound bad in
      answered ∙ rw (patch_found, bound, v) refl

  module _ {Item Key Condition Expr : Type 0} (d : Db W Item Key Condition Expr) where
    patch_cluster_handler-unsent :
        (c : Request) (patch : SpecPatch)
        → p.bind c ≡ ok patch
        → ¬ All IsTag (given_tags patch.tags)
        → (w : W)
        → patch_cluster_handler p d c w ≡ patch_cluster_handler (with_clients get merge p) d c w
    unfolding patch_cluster_handler
    patch_cluster_handler-unsent c patch bound bad w =
        patch_found-unsent c patch bound bad (get_cluster_by_name d (path_param c "name") w).0
          (get_cluster_by_name d (path_param c "name") w).1

    -- A request that decodes, whatever the identity and the groups of its caller, to a patch with a
    -- tag that is not allowed reaches no cluster: on the mounted route that patches, any other
    -- clients of the clusters give the same answer and the same world.
    pub patch_cluster_route-unsent :
        {Token : Type 0} (a : Authenticator W Token) (lib : LimiterLib W) (enabled : Bool)
        (cached services_limiter : Middleware W) (group : String) (fuel : ℕ) (c : Request)
        (patch : SpecPatch) (w : W)
        → ((oid : String) (groups : List String) → p.bind (identified oid groups c) ≡ ok patch)
        → ¬ All IsTag (given_tags patch.tags)
        → (route : Route W) × (first_route "PATCH" "/api/v2/clusters/:name"
              (register_v2 a (rate_limiter lib enabled) cached services_limiter group)
            ≡ some route)
          × (route.serve (new_handler p d fuel) c w
              ≡ route.serve (new_handler (with_clients get merge p) d fuel) c w)
    unfolding register_v2 new_handler
    patch_cluster_route-unsent a lib enabled cached services_limiter group fuel c patch w bound
          bad =
        (
          record {
            method = "PATCH";
            path = "/api/v2/clusters/:name";
            serve = λ hs.
                guarded a (rate_limiter lib enabled) cached
                  (verify_group_access group hs.patch_cluster);
          },
          refl,
          guarded-same a (rate_limiter lib enabled) (rate_limiter-PassesOrAnswers lib enabled)
              (verify_group_access group (patch_cluster_handler p d))
              (verify_group_access group (patch_cluster_handler (with_clients get merge p) d)) c
              (λ oid groups u.
                verify_group_access-same group (patch_cluster_handler p d)
                  (patch_cluster_handler (with_clients get merge p) d) c oid groups u
                  (patch_cluster_handler-unsent (identified oid groups c) patch (bound oid groups)
                    bad u))
              w,
        )
