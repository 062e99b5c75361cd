-- ===== src/Auth.antt =====
-- pkg/auth/auth.go: who may call the API. The log lines are left out.
pub mod Tokens
pub mod Access
pub mod Worlds
use Prim.Native.String.{[] as empty_text, ◌∷◌ as prefixed}
use text.Mathlib.Text.{starts_with}
use cluster_registry.Prelude.{
  ℕ, zero, suc, ◌+◌, String, ◌<>◌, ◌==◌, ◌&&◌, Bool, true, false, Option, none, some, List,
  contains, Result, ok, err, Act, Outcome, returned, panicked, if◌then◌else◌, ltb,
}
use cluster_registry.Http.{Request, Response, answer, failure, Handler, Middleware}

abbrev auth_scheme : String
auth_scheme = "Bearer"

-- `len(s)`, `s[:n]` and `s[n:]`
abbrev pub text_length : String → ℕ
text_length empty_text = 0
text_length (prefixed c s) = suc (text_length s)

abbrev pub text_take : ℕ → String → String
text_take zero s = ""
text_take (suc n) empty_text = ""
text_take (suc n) (prefixed c s) = prefixed c (text_take n s)

abbrev pub text_drop : ℕ → String → String
text_drop zero s = s
text_drop (suc n) empty_text = ""
text_drop (suc n) (prefixed c s) = text_drop n s

-- `extractToken`
unfoldable pub extract_token : String → Result String
extract_token authorization =
    let l = text_length auth_scheme in
    if ltb (l + 1) (text_length authorization) && (text_take l authorization == auth_scheme)
    then ok (text_drop (l + 1) authorization)
    else err "missing or malformed jwt"

-- `strings.Contains(s, "spn:")`
unfoldable pub mentions_spn : String → Bool
mentions_spn empty_text = false
mentions_spn (prefixed c s) =
    let later = mentions_spn s in if starts_with (prefixed c s) "spn:" then true else later

pub record Claims : Type 0 where
  pub oid : String
  pub groups : List String

-- The two verifiers of the OIDC library, the decoder of a token's claims, and the metrics.
pub record Authenticator (W Token : Type 0) : Type 0 where
  pub verifier : String → Act W (Result Token)
  pub spn_verifier : String → Act W (Result Token)
  pub claims : Token → Result Claims
  pub record_egress : String → W → W

abbrev pub egress_target : String
egress_target = "azure_ad"

module _ {W Token : Type 0} (a : Authenticator W Token) where
  -- The second verifier is asked only if the first one's error is about the audience.
  verify_again : String → Result Token × W → Result Token × W
  verify_again raw_token (ok token, w) = (ok token, w)
  verify_again raw_token (err e, w) =
      if mentions_spn e then a.spn_verifier raw_token w else (err e, w)

  unfoldable pub verify : String → Act W (Result Token)
  unfolding verify_again
  verify raw_token w = verify_again raw_token (a.verifier raw_token w)

  -- `VerifyToken` behind the verification.
  unfoldable pub with_claims : Handler W → Request → Result Token → Act W (Outcome Response)
  with_claims next c (err e) w = (returned (answer 403 (failure e)), w)
  with_claims next c (ok token) w = elim (a.claims token) [
    | err e ↦ (returned (answer 403 (failure e)), w)
    | ok claims ↦ next (record c { oid = some claims.oid; groups = some claims.groups }) w
  ]

  unfoldable pub verify_token : Middleware W
  verify_token next c w = elim (extract_token c.authorization) [
    | err e ↦ (returned (answer 400 (failure e)), w)
    | ok raw_token ↦
        let (token, w') = verify raw_token w in
        with_claims next c token (a.record_egress egress_target w')
  ]

abbrev not_authorized : String → Response
not_authorized oid =
    answer 403 (failure ("identity " <> oid <> " is not authorized to perform this request"))

-- `VerifyGroupAccess`: with no identity in the context the type assertion panics.
unfoldable pub verify_group_access : {W : Type 0} → String → Middleware W
verify_group_access group next c w = elim c.oid [
  | none ↦ (panicked, w)
  | some oid ↦ elim c.groups [
    | none ↦ (returned (not_authorized oid), w)
    | some groups ↦ if contains group groups then next c w else (returned (not_authorized oid), w)
  ]
]
