-- ===== src/Api/Access.antt =====
-- What the route of a patch lets through: pkg/apiserver/web/handler/v2/handler.go, `Register`,
-- `PatchCluster` and `Validate`.
use cluster_registry.Prelude.{
  String, ◌≡◌, refl, ◌⊎◌, inl, inr, ◌↔◌, eq_iff, some, Dict, [], ◌∷◌, All, ok, Result-cases, err,
  bind-eq-ok, returned, arith,
}
use cluster_registry.Registry.Cluster.{Cluster}
use cluster_registry.Database.Api.{Db}
use cluster_registry.Http.{Request, Handler, Middleware, answer, failure}
use cluster_registry.Auth.{Authenticator}
use cluster_registry.Auth.Access.{PassesOrAnswers, IsAuthorized, group_route, group_route-closed}
use cluster_registry.Api.Patches.{
  SpecPatch, PatchApi, validate_tag, validate_tags, validate, given_tags, patch_found,
  patch_cluster_handler, patch_route,
}

-- Behind a limiter that answers itself or passes the request on, a patch without a verified token
-- whose claims name the group is answered as by the same route with any other handler.
patch_route-closed :
    {W Client Item Key Condition Expr Token : Type 0} (p : PatchApi W Client)
    (d : Db W Item Key Condition Expr) (a : Authenticator W Token) (limiter : Middleware W)
    (group : String)
    → PassesOrAnswers limiter
    → (c : Request) (w : W) → ¬ IsAuthorized a limiter group c w
    → (other : Handler W)
    → patch_route p d a limiter group c w ≡ group_route a limiter group other c w
unfolding patch_route
patch_route-closed p d a limiter group passes c w closed other =
    group_route-closed a limiter group passes (patch_cluster_handler p d) other c w closed

-- The tags that a patch may set, and their values.
abbrev pub IsTag : String × String → Type 0
IsTag entry =
    ((entry.0 ≡ "onboarding") ⊎ (entry.0 ≡ "scaling")) × ((entry.1 ≡ "on") ⊎ (entry.1 ≡ "off"))

validate_tag-ok_iff :
    (entry : String × String) → (validate_tag entry.0 entry.1 ≡ ok tt) ↔ IsTag entry
unfolding validate_tag
validate_tag-ok_iff entry = (
  λ e. ground (
    arith,
    e,
    eq_iff entry.0 "onboarding",
    eq_iff entry.0 "scaling",
    eq_iff entry.1 "on",
    eq_iff entry.1 "off",
  ),
  λ h. ground (
    arith,
    h,
    eq_iff entry.0 "onboarding",
    eq_iff entry.0 "scaling",
    eq_iff entry.1 "on",
    eq_iff entry.1 "off",
  ),
)

-- The tags of a patch are accepted exactly if each is onboarding or scaling, and on or off.
validate_tags-ok_iff : (tags : Dict String) → (validate_tags tags ≡ ok tt) ↔ All IsTag tags
unfolding validate_tags
validate_tags-ok_iff [] = (λ e. tt, λ h. refl)
validate_tags-ok_iff (entry ∷ tags) = (
  λ e.
      let (u, first, rest) =
        bind-eq-ok (validate_tag entry.0 entry.1) (λ v. validate_tags tags) e in
      ((validate_tag-ok_iff entry).0 first, (validate_tags-ok_iff tags).0 rest),
  λ (first, rest). rw ((validate_tag-ok_iff entry).1 first) ((validate_tags-ok_iff tags).1 rest),
)

-- A tag that is not allowed makes the patch invalid.
validate-invalid :
    {W Client : Type 0} (p : PatchApi W Client) (patch : SpecPatch)
    → ¬ All IsTag (given_tags patch.tags)
    → (e : String) × (validate p patch ≡ err e)
unfolding validate
validate-invalid p patch bad = elim (Result-cases (validate p patch)) [
  | inl (u, v) ↦
      let (u', struct_ok, tags_ok) =
        bind-eq-ok (p.validate_struct patch) (λ x. validate_tags (given_tags patch.tags)) v in
      absurd (bad ((validate_tags-ok_iff (given_tags patch.tags)).0 tags_ok))
  | inr refused ↦ refused
]

-- A patch that is decoded, of a cluster that is found, with a tag that is not allowed is refused
-- with 400 and the error of its validation, and leaves the world as it was.
pub patch_found-invalid :
    {W Client : Type 0} (p : PatchApi W Client) (c : Request) (cluster : Cluster)
    (patch : SpecPatch) (w : W)
    → p.bind c ≡ ok patch
    → ¬ All IsTag (given_tags patch.tags)
    → (e : String) × (validate p patch ≡ err e)
      × (patch_found p c (ok (some cluster)) w ≡ (returned (answer 400 (failure e)), w))
unfolding patch_found
patch_found-invalid p c cluster patch w bound bad =
    let (e, v) = validate-invalid p patch bad in (e, v, rw (patch_found, bound, v) refl)
