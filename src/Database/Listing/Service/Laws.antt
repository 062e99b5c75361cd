-- ===== src/Database/Listing/Service/Laws.antt =====
-- What is left of a list of clusters when only one service is of interest.
use cluster_registry.Prelude.{
  ℕ, ◌+◌, ◌≤◌, ◌<◌, ◌≡◌, refl, inl, inr, String, Bool, true, false, none, some, List, [], ◌∷◌, map,
  Result, ok, err, Outcome, returned, panicked, out_of_fuel, then_return, pos, half_range, ltb_ℤ,
  add_int_pos, length, lookup, arith, Result-cases,
}
use cluster_registry.Registry.Cluster.{Cluster}
use cluster_registry.Database.Api.{Db, str}
use cluster_registry.Database.Filter.{list_filter}
use cluster_registry.Database.Listing.{Listing, end_index, list_clusters, query_pages, finish}
use cluster_registry.Database.Listing.Paging.{paginate_limit}
use cluster_registry.Database.Listing.Pages.{select}
use cluster_registry.Database.Listing.Service.{
  keep_service, keep_clusters, service_listing, list_clusters_with_service,
}

abbrev has_service : String → Cluster → Bool
has_service service_id c = elim (lookup service_id c.spec.service_metadata) [
  | none ↦ false
  | some _ ↦ true
]

-- The cluster with no metadata but that of the service.
abbrev narrowed : String → Cluster → Cluster
narrowed service_id c = elim (lookup service_id c.spec.service_metadata) [
  | none ↦ c
  | some item ↦ record c { spec = record (c.spec) { service_metadata = (service_id, item) ∷ [] } }
]

-- The clusters that have the service are kept, in order, each with the metadata of that service
-- alone and otherwise as it was; the others are dropped.
keep_clusters_lem :
    (service_id : String) (cs : List Cluster)
    → keep_clusters service_id cs ≡ map (narrowed service_id) (select (has_service service_id) cs)
unfolding keep_clusters keep_service
keep_clusters_lem service_id [] = refl
keep_clusters_lem service_id (c ∷ cs) = ground (arith, keep_clusters_lem service_id cs)

length-keep_clusters :
    (service_id : String) (cs : List Cluster) → length (keep_clusters service_id cs) ≤ length cs
unfolding keep_clusters
length-keep_clusters service_id [] = omega arith
length-keep_clusters service_id (c ∷ cs) = ground (arith, length-keep_clusters service_id cs)

end_index-no_more :
    (offset limit n : ℕ)
    → offset + limit < half_range
    → n ≤ limit
    → ltb_ℤ (end_index (pos offset) (pos limit) (pos n)) (pos n) ≡ false
unfolding end_index
end_index-no_more offset limit n fits h = rw (add_int_pos offset limit fits) (ground arith)

service_listing-no_more :
    (service_id : String) (offset limit : ℕ) (l : Listing)
    → offset + limit < half_range
    → length l.clusters ≤ limit
    → (service_listing service_id (pos offset) (pos limit) l).more ≡ false
unfolding service_listing
service_listing-no_more service_id offset limit l fits h =
    end_index-no_more offset limit (length (keep_clusters service_id l.clusters)) fits
      (omega (arith, length-keep_clusters service_id l.clusters))

finish_limit :
    (offset limit : ℕ) (r : Outcome (Result (List Cluster))) (l : Listing)
    → offset + limit < half_range
    → then_return r (finish (pos offset) (pos limit)) ≡ returned l
    → length l.clusters ≤ limit
finish_limit offset limit (returned (ok cs)) l fits e = paginate_limit offset limit cs l fits e
finish_limit offset limit (returned (err m)) l fits e = ground (arith, e)
finish_limit offset limit panicked l fits e = cc
finish_limit offset limit out_of_fuel l fits e = cc

module _ {W Item Key Condition Expr : Type 0} (d : Db W Item Key Condition Expr) where
  list_clusters_limit :
      (fuel offset limit : ℕ) (region environment status last_updated : String) (w : W)
      (l : Listing)
      → offset + limit < half_range
      → (list_clusters d fuel (pos offset) (pos limit) region environment status last_updated w).0
        ≡ returned l
      → length l.clusters ≤ limit
  unfolding list_clusters
  list_clusters_limit fuel offset limit region environment status last_updated w l fits e =
      elim (Result-cases
        (list_filter d.expressions d.time region environment status last_updated)) [
          | inr (m, p) ↦ ground (arith, rw (p, list_clusters) at e)
          | inl (f, p) ↦
              elim (Result-cases
                (d.expressions.build_query d.index.partition_key (str "cluster") f)) [
                  | inr (m, q) ↦ ground (arith, rw (p, list_clusters, q) at e)
                  | inl (x, q) ↦
                      finish_limit offset limit (query_pages d fuel x w).0 l fits
                        (rw (p, list_clusters, q) at e)
                ]
        ]

  -- ListClustersWithService, where offset and limit are natural numbers and their sum fits, never
  -- says that there is more, whatever the table holds.
  pub list_clusters_with_service-no_more :
      (fuel offset limit : ℕ) (service_id environment region status last_updated : String) (w : W)
      (l : Listing)
      → offset + limit < half_range
      → (list_clusters_with_service d fuel service_id
          (pos offset)
          (pos limit)
          environment
          region
          status
          last_updated
          w).0
        ≡ returned l
      → l.more ≡ false
  unfolding list_clusters_with_service
  list_clusters_with_service-no_more fuel offset limit service_id environment region status
        last_updated w l fits e =
      no_more_of
        (list_clusters d fuel (pos offset) (pos limit) environment region status last_updated w).0
        refl e
    where
      no_more_of :
          (o : Outcome Listing)
          → (list_clusters d fuel
              (pos offset)
              (pos limit)
              environment
              region
              status
              last_updated
              w).0
            ≡ o
          → then_return o (λ p. returned (service_listing service_id (pos offset) (pos limit) p))
            ≡ returned l
          → l.more ≡ false
      no_more_of (returned p) h e' =
          let k = service_listing-no_more service_id offset limit p fits (
            list_clusters_limit fuel offset limit environment region status last_updated w p fits
              h) in
          cc (k, e')
      no_more_of panicked h e' = cc e'
      no_more_of out_of_fuel h e' = cc e'
