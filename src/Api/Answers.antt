-- ===== src/Api/Answers.antt =====
-- What the list handlers answer: pkg/apiserver/web/handler/v1/handler.go and v2/handler.go.
use cluster_registry.Prelude.{
  ℕ, String, ◌≡◌, refl, sym, ◌⊎◌, inl, inr, List, [], ◌∷◌, map, All, err, Result-cases, Outcome,
  returned, panicked, out_of_fuel, Act,
}
use cluster_registry.Registry.Cluster.{Cluster, ClusterSpec}
use cluster_registry.Database.Api.{Db}
use cluster_registry.Database.Filter.{FilterCondition}
use cluster_registry.Database.Listing.{Listing}
use cluster_registry.Http.{Request, Response, ClusterList, list_body, answer, failure}
use cluster_registry.Api.Responses.{new_cluster_response, new_cluster_list_response, on_listing}
use cluster_registry.Api.Reads.{
  list_clusters_v1, list_clusters_v2, offset_of, limit_of, with_conditions, query_conditions,
  parse_conditions,
}

abbrev IsHidden : ClusterSpec → Type 0
IsHidden s = s.service_metadata ≡ []

returned_injective : {A : Type 0} {a b : A} → returned a ≡ returned b → a ≡ b
returned_injective e = cc

map-IsHidden : (clusters : List Cluster) → All IsHidden (map new_cluster_response clusters)
unfolding new_cluster_response
map-IsHidden [] = tt
map-IsHidden (c ∷ clusters) = (refl, map-IsHidden clusters)

-- The answer to a list: 200, the parameters of the request, and clusters without the metadata of
-- their services.
abbrev IsListAnswer : Request → Response → Type 0
IsListAnswer c r =
    (l : ClusterList) × (r ≡ answer 200 (list_body l))
    × All IsHidden l.items
    × (l.offset ≡ offset_of c)
    × (l.limit ≡ limit_of c)

on_listing-IsListAnswer :
    (c : Request) (listing : Outcome Listing) {r : Response}
    → on_listing (λ l. list_body (new_cluster_list_response (offset_of c) (limit_of c) l)) listing
      ≡ returned r
    → IsListAnswer c r
unfolding new_cluster_list_response
on_listing-IsListAnswer c (returned l) e = (
  new_cluster_list_response (offset_of c) (limit_of c) l,
  cc,
  map-IsHidden l.clusters,
  refl,
  refl,
)
on_listing-IsListAnswer c panicked e = cc
on_listing-IsListAnswer c out_of_fuel e = cc

module _ {W Item Key Condition Expr : Type 0} (d : Db W Item Key Condition Expr) (fuel : ℕ) where
  -- Where the first version answers a list at all, it answers with 200, its own offset and limit,
  -- and clusters without the metadata of their services, whether or not the database failed.
  list_clusters_v1-IsListAnswer :
      (c : Request) (w : W) {r : Response}
      → (list_clusters_v1 d fuel c w).0 ≡ returned r
      → IsListAnswer c r
  unfolding list_clusters_v1
  list_clusters_v1-IsListAnswer c w e = on_listing-IsListAnswer c _ e

  with_conditions-IsListAnswer :
      (c : Request) (all : Act W (Outcome Listing))
      (filtered : List FilterCondition → Act W (Outcome Listing)) (queries : List String) (w : W)
      {r : Response}
      → (with_conditions d fuel
          (λ l. list_body (new_cluster_list_response (offset_of c) (limit_of c) l))
          all
          filtered
          queries
          w).0
        ≡ returned r
      → ((e : String) × (parse_conditions [] queries ≡ err e) × (r ≡ answer 400 (failure e)))
        ⊎ IsListAnswer c r
  unfolding with_conditions
  with_conditions-IsListAnswer c all filtered [] w e = inr (on_listing-IsListAnswer c _ e)
  with_conditions-IsListAnswer c all filtered (q ∷ qs) w e =
      elim (Result-cases (parse_conditions [] (q ∷ qs))) [
        | inr (why, p) ↦ inl (why, p, sym (returned_injective (rw (p, with_conditions) at e)))
        | inl (filter, p) ↦ inr (on_listing-IsListAnswer c _ (rw (p, with_conditions) at e))
      ]

  -- Where the second version answers a list at all, conditions that cannot be parsed are answered
  -- with 400, and every other request with 200, its own offset and limit, and clusters without the
  -- metadata of their services.
  list_clusters_v2-IsListAnswer :
      (c : Request) (w : W) {r : Response}
      → (list_clusters_v2 d fuel c w).0 ≡ returned r
      → ((e : String) × (parse_conditions [] (query_conditions c) ≡ err e)
          × (r ≡ answer 400 (failure e)))
        ⊎ IsListAnswer c r
  unfolding list_clusters_v2
  list_clusters_v2-IsListAnswer c w e = with_conditions-IsListAnswer c _ _ (query_conditions c) w e
