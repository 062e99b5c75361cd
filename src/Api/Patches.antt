-- ===== src/Api/Patches.antt =====
-- The handler that writes: `PatchCluster` of pkg/apiserver/web/handler/v2/handler.go.
use cluster_registry.Prelude.{
  String, ◌<>◌, ◌==◌, ◌&&◌, ◌||◌, not, Option, none, some, [], ◌∷◌, Dict, Result, ok, err, ◌>>=◌,
  Act, Outcome, returned, if◌then◌else◌,
}
use cluster_registry.Registry.Cluster.{Cluster}
use cluster_registry.Database.Api.{Db}
use cluster_registry.Http.{Request, failure, cluster_body, Response, answer, Handler, Middleware}
use cluster_registry.Auth.{Authenticator, verify_token, verify_group_access}
use cluster_registry.Api.Responses.{new_cluster_response}
use cluster_registry.Api.Reads.{get_cluster_by_name, path_param, not_found}

-- `ClusterSpec` of the handler: what a patch may change.
pub record SpecPatch : Type 0 where
  pub status : Option String
  pub phase : Option String
  pub tags : Option (Dict String)

-- What the handler calls: the decoder of the request, the validator of the struct's tags, the
-- clients of the clusters, and the encoder of the patch.
pub record PatchApi (W Client : Type 0) : Type 0 where
  pub bind : Request → Result SpecPatch
  pub validate_struct : SpecPatch → Result (Unit {0})
  pub get_client : Cluster → Act W (Result Client)
  pub marshal_patch : SpecPatch → Result String
  pub merge_patch : Client → String → String → String → String → String → Act W (Result String)

unfoldable pub validate_tag : String → String → Result (Unit {0})
validate_tag key value =
    if (key == "onboarding") || (key == "scaling")
    then (if not (value == "on") && not (value == "off")
        then err (key <> " tag value must be 'on' or 'off'")
        else ok tt)
    else err ("invalid tag " <> key)

-- The loop over the tags.
unfoldable pub validate_tags : Dict String → Result (Unit {0})
validate_tags [] = ok tt
validate_tags (entry ∷ rest) = validate_tag entry.0 entry.1 >>= λ u. validate_tags rest

abbrev pub given_tags : Option (Dict String) → Dict String
given_tags none = []
given_tags (some tags) = tags

module _ {W Client : Type 0} (p : PatchApi W Client) where
  -- `Validate`
  unfoldable pub validate : SpecPatch → Result (Unit {0})
  validate patch = p.validate_struct patch >>= λ u. validate_tags (given_tags patch.tags)

  abbrev forget_answer : Result String → Result (Unit {0})
  forget_answer (ok body) = ok tt
  forget_answer (err e) = err e

  send_patch : Cluster → Client → Result String → Act W (Result (Unit {0}))
  send_patch cluster client (err e) w = (err e, w)
  send_patch cluster client (ok patch) w =
      let (r, w') =
        p.merge_patch client "/apis/registry.ethos.adobe.com/v1" "cluster-registry" "clusters"
          cluster.spec.name patch w in
      (forget_answer r, w')

  -- `patchCluster`
  unfoldable pub patch_cluster : Cluster → SpecPatch → Act W (Result (Unit {0}))
  unfolding send_patch
  patch_cluster cluster spec w = elim (p.get_client cluster w).0 [
    | err e ↦ (
      err ("failed to get client for cluster " <> cluster.spec.name <> ": " <> e),
      (p.get_client cluster w).1,
    )
    | ok client ↦ send_patch cluster client (p.marshal_patch spec) (p.get_client cluster w).1
  ]

  abbrev on_patched : Cluster → Result (Unit {0}) → Outcome Response
  on_patched cluster (err e) = returned (answer 500 (failure e))
  on_patched cluster (ok u) = returned (answer 200 (cluster_body (new_cluster_response cluster)))

  -- `PatchCluster` behind the read of the cluster.
  unfoldable pub patch_found : Request → Result (Option Cluster) → Act W (Outcome Response)
  patch_found c (err e) w = (returned (answer 500 (failure e)), w)
  patch_found c (ok none) w = (returned not_found, w)
  patch_found c (ok (some cluster)) w =
      elim (p.bind c >>= λ patch. validate patch >>= λ u. ok patch) [
        | err e ↦ (returned (answer 400 (failure e)), w)
        | ok patch ↦ let (r, w') = patch_cluster cluster patch w in (on_patched cluster r, w')
      ]

  module _ {Item Key Condition Expr : Type 0} (d : Db W Item Key Condition Expr) where
    unfoldable pub patch_cluster_handler : Handler W
    patch_cluster_handler c w =
        let (found, w') = get_cluster_by_name d (path_param c "name") w in patch_found c found w'

    -- The route of a patch, as `Register` mounts it.
    unfoldable pub patch_route :
        {Token : Type 0} → Authenticator W Token → Middleware W → String → Handler W
    patch_route a limiter group =
        verify_token a (limiter (verify_group_access group patch_cluster_handler))
