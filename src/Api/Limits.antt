-- ===== src/Api/Limits.antt =====
-- pkg/apiserver/web/rate_limiter.go: the settings of the rate limiter.
use cluster_registry.Prelude.{
  ℕ, String, Bool, true, false, not, Bool-cases, none, some, ◌≡◌, refl, ◌∙◌, ◌⊎◌, inl, inr, Result,
  ok, err, Result-cases, Act, returned, if◌then◌else◌,
}
use cluster_registry.Http.{Request, Response, Handler, Middleware, answer, nothing}
use cluster_registry.Auth.Access.{PassesOrAnswers}

-- `RateLimiterConfig` of the web framework with its store in memory, an interval in seconds.
pub record LimiterConfig : Type 0 where
  pub skipper : Request → Bool
  pub rate : ℕ
  pub burst : ℕ
  pub expires_in : ℕ
  pub identifier : Request → Result String
  pub on_error : Request → String → Response
  pub on_deny : Request → String → Response

abbrev anonymous : String
anonymous = "00000000-0000-0000-0000-000000000000"

-- The settings of `RateLimiter`, for a configuration in which it is enabled or not.
unfoldable pub limiter_config : Bool → LimiterConfig
limiter_config enabled = record {
  skipper = λ c. not enabled;
  rate = 2;
  burst = 120;
  expires_in = 60;
  identifier = λ c. elim (c.oid) [ none ↦ ok anonymous | some oid ↦ ok oid ];
  on_error = λ c e. answer 403 nothing;
  on_deny = λ c name. answer 429 nothing;
}

-- The limiter of the framework, by what it documents: a request that is skipped is passed on; of any
-- other the identifier is taken, and the store says whether it may pass.
pub record LimiterLib (W : Type 0) : Type 0 where
  pub limit : LimiterConfig → Middleware W
  pub allow : LimiterConfig → String → Act W Bool
  pub skipped :
      (cfg : LimiterConfig) (next : Handler W) (c : Request) (w : W)
      → cfg.skipper c ≡ true
      → limit cfg next c w ≡ next c w
  pub unnamed :
      (cfg : LimiterConfig) (next : Handler W) (c : Request) (w : W) (e : String)
      → cfg.skipper c ≡ false
      → cfg.identifier c ≡ err e
      → limit cfg next c w ≡ (returned (cfg.on_error c e), w)
  pub asked :
      (cfg : LimiterConfig) (next : Handler W) (c : Request) (w : W) (name : String)
      → cfg.skipper c ≡ false
      → cfg.identifier c ≡ ok name
      → limit cfg next c w ≡ (
          if (allow cfg name w).0
          then next c (allow cfg name w).1
          else (returned (cfg.on_deny c name), (allow cfg name w).1))

module _ {W : Type 0} (lib : LimiterLib W) where
  -- `RateLimiter`
  unfoldable pub rate_limiter : Bool → Middleware W
  unfolding limiter_config
  rate_limiter enabled = lib.limit (limiter_config enabled)

  -- The limiter answers by itself or passes the request on as it is.
  pub rate_limiter-PassesOrAnswers : (enabled : Bool) → PassesOrAnswers (rate_limiter enabled)
  unfolding rate_limiter limiter_config
  rate_limiter-PassesOrAnswers false c w = inr (w, λ next. lib.skipped _ next c w refl)
  rate_limiter-PassesOrAnswers true c w = elim (Result-cases ((limiter_config true).identifier c)) [
    | inr (e, p) ↦ inl (
      (returned ((limiter_config true).on_error c e), w),
      λ next. lib.unnamed _ next c w e refl p,
    )
    | inl (name, p) ↦ elim (Bool-cases (lib.allow (limiter_config true) name w).0) [
      | inl may ↦ inr (
        (lib.allow (limiter_config true) name w).1,
        λ next. lib.asked _ next c w name refl p ∙ rw may refl,
      )
      | inr denied ↦ inl (
        (
          returned ((limiter_config true).on_deny c name),
          (lib.allow (limiter_config true) name w).1,
        ),
        λ next. lib.asked _ next c w name refl p ∙ rw denied refl,
      )
    ]
  ]

  -- The world in which the limiter passes on a request of this identity.
  abbrev pub passed_world : Bool → String → W → W
  passed_world false oid w = w
  passed_world true oid w = (lib.allow (limiter_config true) oid w).1

  -- A request with an identity is passed on where the limiter is off, or the store lets that
  -- identity pass.
  pub rate_limiter-passes :
      (enabled : Bool) (c : Request) (w : W) (oid : String)
      → c.oid ≡ some oid
      → (enabled ≡ false) ⊎ ((lib.allow (limiter_config true) oid w).0 ≡ true)
      → (next : Handler W) → rate_limiter enabled next c w ≡ next c (passed_world enabled oid w)
  unfolding rate_limiter limiter_config
  rate_limiter-passes false c w oid named may next = lib.skipped _ next c w refl
  rate_limiter-passes true c w oid named (inl off) next = cc
  rate_limiter-passes true c w oid named (inr may) next =
      lib.asked _ next c w oid refl (rw (named, limiter_config) refl) ∙ rw may refl
