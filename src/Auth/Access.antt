-- ===== src/Auth/Access.antt =====
-- Whose requests reach a handler behind the middleware of pkg/auth/auth.go, in the order in which
-- pkg/apiserver/web/handler/v2/handler.go mounts it.
use cluster_registry.Prelude.{
  String, ◌≡◌, refl, sym, ◌∙◌, List, ◌⊎◌, inl, inr, true, false, Bool-cases, some, ok, Result-cases,
  contains, Outcome,
}
use cluster_registry.Http.{Request, Response, Handler, Middleware}
use cluster_registry.Auth.{
  Authenticator, Claims, extract_token, verify, verify_token, with_claims, verify_group_access,
}

-- A middleware between the two, such as the rate limiter: for a request in a world, it either
-- answers itself, whatever the handler, or passes the request on as it is.
abbrev pub PassesOrAnswers : {W : Type 0} → Middleware W → Type 0
PassesOrAnswers {W} limit =
    (c : Request) (w : W)
    → ((r : Outcome Response × W) × ((next : Handler W) → limit next c w ≡ r))
      ⊎ ((w' : W) × ((next : Handler W) → limit next c w ≡ next c w'))

module _ {W Token : Type 0} (a : Authenticator W Token) (limit : Middleware W)
    (group : String) where
  -- The routes that only members of a group may call.
  abbrev pub group_route : Middleware W
  group_route next = verify_token a (limit (verify_group_access group next))

  -- The request carries a token that is verified, and whose claims name the group.
  abbrev pub IsAuthorized : Request → W → Type 0
  IsAuthorized c w =
      (raw : String) × (token : Token) × (claims : Claims) × (extract_token c.authorization
        ≡ ok raw)
      × ((verify a raw w).0 ≡ ok token)
      × (a.claims token ≡ ok claims)
      × (contains group claims.groups ≡ true)

  refused :
      PassesOrAnswers limit
      → (h k : Handler W) (c : Request) (oid : String) (groups : List String) → c.oid ≡ some oid
      → c.groups ≡ some groups
      → contains group groups ≡ false
      → (w : W) → limit (verify_group_access group h) c w ≡ limit (verify_group_access group k) c w
  unfolding verify_group_access
  refused passes h k c oid groups e f m w = elim (passes c w) [
    | inl (r, always) ↦ always _ ∙ sym (always _)
    | inr (w', through) ↦ through _ ∙ rw (e, f, m) refl ∙ sym (through _)
  ]

  -- Behind a middleware that answers itself or passes the request on, a request that is not
  -- authorized is answered without a call of the handler: any two handlers give the same answer and
  -- the same world.
  pub group_route-closed :
      PassesOrAnswers limit
      → (h k : Handler W) (c : Request) (w : W) → ¬ IsAuthorized c w
      → group_route h c w ≡ group_route k c w
  unfolding verify_token with_claims
  group_route-closed passes h k c w no_member =
      elim (Result-cases (extract_token c.authorization)) [
        | inr (e, p) ↦ rw (p, verify_token) refl
        | inl (raw, p) ↦ elim (Result-cases (verify a raw w).0) [
          | inr (e, q) ↦ rw (p, verify_token, q, with_claims) refl
          | inl (token, q) ↦ elim (Result-cases (a.claims token)) [
            | inr (e, r) ↦ rw (p, verify_token, q, with_claims, r) refl
            | inl (claims, r) ↦ elim (Bool-cases (contains group claims.groups)) [
              | inl m ↦ absurd (no_member (raw, token, claims, p, q, r, m))
              | inr m ↦
                  rw (p, verify_token, q, with_claims, r)
                    (refused passes h k
                      (record c { oid = some claims.oid; groups = some claims.groups }) claims.oid
                      claims.groups refl refl m _)
            ]
          ]
        ]
      ]
