-- ===== src/Database/Listing/Service.antt =====
-- pkg/database/database.go: the operations that keep the metadata of one service.
pub mod Laws
use cluster_registry.Prelude.{
  ℕ, String, ◌<>◌, Option, none, some, List, [], ◌∷◌, Result, ok, err, Act, Outcome, returned,
  then_return, ℤ, pos, ltb_ℤ, length, lookup,
}
use cluster_registry.Registry.Cluster.{Cluster}
use cluster_registry.Database.Api.{Db}
use cluster_registry.Database.Filter.{FilterCondition}
use cluster_registry.Database.Store.{get_cluster}
use cluster_registry.Database.Listing.{
  Listing, failed_listing, end_index, list_clusters, list_clusters_with_filter,
}

-- The cluster with the metadata of one service alone, if it has that service. A key stands once in
-- a map, so the loop over the keys finds the service once or not at all.
unfoldable pub keep_service : String → Cluster → Option Cluster
keep_service service_id c = elim (lookup service_id c.spec.service_metadata) [
  | none ↦ none
  | some item ↦
      some (record c { spec = record (c.spec) { service_metadata = (service_id, item) ∷ [] } })
]

abbrev cons_some {ℓ} : {A : Type ℓ} → Option A → List A → List A
cons_some none xs = xs
cons_some (some x) xs = x ∷ xs

-- The loop over the clusters.
unfoldable pub keep_clusters : String → List Cluster → List Cluster
keep_clusters service_id [] = []
keep_clusters service_id (c ∷ cs) =
    cons_some (keep_service service_id c) (keep_clusters service_id cs)

-- The end of both operations; `error` is that of the list operation below.
unfoldable pub service_listing : String → ℤ → ℤ → Listing → Listing
unfolding keep_clusters
service_listing service_id offset limit l =
    let kept = keep_clusters service_id l.clusters in
    let count = pos (length kept) in
    record {
      clusters = kept;
      count = count;
      more = ltb_ℤ (end_index offset limit count) count;
      error = l.error;
    }

-- `ListClustersWithServiceAndFilter` returns at once where the list operation failed.
abbrev service_listing_or_error : String → ℤ → ℤ → Listing → Listing
service_listing_or_error service_id offset limit l = elim l.error [
  | none ↦ service_listing service_id offset limit l
  | some e ↦ failed_listing ("Failed to list clusters with filter: '" <> e <> "'.")
]

-- `GetClusterWithService`, after `GetCluster`.
abbrev service_of : String → Result (Option Cluster) → Result (Option Cluster)
service_of service_id (err e) = err e
service_of service_id (ok none) = ok none
service_of service_id (ok (some c)) = ok (keep_service service_id c)

module _ {W Item Key Condition Expr : Type 0} (d : Db W Item Key Condition Expr) where
  -- `ListClustersWithService` hands the environment on where `ListClusters` takes the region, and
  -- the region where it takes the environment.
  unfoldable pub list_clusters_with_service :
      ℕ → String → ℤ → ℤ → String → String → String → String → Act W (Outcome Listing)
  list_clusters_with_service fuel service_id offset limit environment region status last_updated w =
      let (l, w') = list_clusters d fuel offset limit environment region status last_updated w in
      (then_return l λ p. returned (service_listing service_id offset limit p), w')

  unfoldable pub list_clusters_with_service_and_filter :
      ℕ → String → ℤ → ℤ → List FilterCondition → Act W (Outcome Listing)
  list_clusters_with_service_and_filter fuel service_id offset limit conditions w =
      let (l, w') = list_clusters_with_filter d fuel offset limit conditions w in
      (then_return l λ p. returned (service_listing_or_error service_id offset limit p), w')

  unfoldable pub get_cluster_with_service : String → String → Act W (Result (Option Cluster))
  get_cluster_with_service service_id cluster_name w =
      let (c, w') = get_cluster d cluster_name w in (service_of service_id c, w')
