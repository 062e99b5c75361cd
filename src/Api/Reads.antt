-- ===== src/Api/Reads.antt =====
-- The handlers that read: pkg/apiserver/web/handler/v1/handler.go and v2/handler.go.
use cluster_registry.Prelude.{
  ℕ, String, Option, none, some, List, [], ◌∷◌, lookup, get_or, Result, ok, err, Act, Outcome,
  returned, ℤ, pos, parse_int,
}
use cluster_registry.Registry.Cluster.{Cluster}
use cluster_registry.Database.Api.{Db}
use cluster_registry.Database.Filter.{FilterCondition, add_condition}
use cluster_registry.Database.Store.{get_cluster}
use cluster_registry.Database.Listing.{Listing, list_clusters, list_clusters_with_filter}
use cluster_registry.Database.Listing.Service.{
  list_clusters_with_service, list_clusters_with_service_and_filter, get_cluster_with_service,
}
use cluster_registry.Http.{
  Request, Body, failure, cluster_body, list_body, metadata_body, metadata_list_body, Response,
  answer, Handler,
}
use cluster_registry.Api.Names.{get_cluster_dash_name}
use cluster_registry.Api.Queries.{new_filter_condition_from_query}
use cluster_registry.Api.Responses.{
  new_cluster_response, new_cluster_list_response, new_service_metadata_response,
  new_service_metadata_list_response, on_listing,
}

-- `c.Param(name)` and `c.QueryParam(name)`
abbrev pub path_param : Request → String → String
path_param c name = get_or (lookup name c.path_params) ""

abbrev first_value : Option (List String) → String
first_value none = ""
first_value (some []) = ""
first_value (some (v ∷ vs)) = v

abbrev query_param : Request → String → String
query_param c name = first_value (lookup name c.query_params)

abbrev int_or : ℤ → Result ℤ → ℤ
int_or default (ok n) = n
int_or default (err e) = default

-- The number of a query parameter, or the default if it is missing or no number.
abbrev pub offset_of : Request → ℤ
offset_of c = int_or (pos 0) (parse_int "strconv.Atoi" (query_param c "offset"))

abbrev pub limit_of : Request → ℤ
limit_of c = int_or (pos 200) (parse_int "strconv.Atoi" (query_param c "limit"))

-- `getQueryConditions`
abbrev pub query_conditions : Request → List String
query_conditions c = get_or (lookup "conditions" c.query_params) []

-- The loop that parses the conditions, up to the first that is no condition.
unfoldable pub parse_conditions : List FilterCondition → List String → Result (List FilterCondition)
parse_conditions filter [] = ok filter
parse_conditions filter (q ∷ qs) = elim (new_filter_condition_from_query q) [
  | err e ↦ err e
  | ok condition ↦ parse_conditions (add_condition filter condition) qs
]

abbrev pub not_found : Response
not_found = answer 404 (failure "resource not found")

-- What a handler answers to a read of one cluster.
abbrev on_cluster : (Cluster → Body) → Result (Option Cluster) → Outcome Response
on_cluster body (err e) = returned (answer 500 (failure e))
on_cluster body (ok none) = returned not_found
on_cluster body (ok (some c)) = returned (answer 200 (body c))

module _ {W Item Key Condition Expr : Type 0} (d : Db W Item Key Condition Expr) where
  -- The second read of `getCluster`, by the standard name that the name is short for.
  unfoldable pub get_cluster_fallback :
      String → Result (Option Cluster) → Act W (Result (Option Cluster))
  get_cluster_fallback name (err e) w = (err e, w)
  get_cluster_fallback name (ok (some c)) w = (ok (some c), w)
  get_cluster_fallback name (ok none) w = elim (get_cluster_dash_name name) [
    | err e ↦ (ok none, w)
    | ok dash_name ↦ get_cluster d dash_name w
  ]

  -- `getCluster`, the same in both versions.
  unfoldable pub get_cluster_by_name : String → Act W (Result (Option Cluster))
  get_cluster_by_name name w =
      let (first, w') = get_cluster d name w in get_cluster_fallback name first w'

  -- `GetCluster`, the same in both versions.
  unfoldable pub get_cluster_handler : Handler W
  get_cluster_handler c w =
      let (found, w') = get_cluster_by_name (path_param c "name") w in
      (on_cluster (λ cl. cluster_body (new_cluster_response cl)) found, w')

  module _ (fuel : ℕ) where
    -- `ListClusters` of the first version.
    unfoldable pub list_clusters_v1 : Handler W
    list_clusters_v1 c w =
        let (listing, w') =
          list_clusters d fuel (offset_of c) (limit_of c) (query_param c "region")
            (query_param c "environment") (query_param c "status") (query_param c "lastUpdated")
            w in
        (
          on_listing (λ l. list_body (new_cluster_list_response (offset_of c) (limit_of c) l))
              listing,
          w',
        )

    -- The end of both handlers that take conditions: which list is asked for.
    unfoldable pub with_conditions :
        (Listing → Body)
        → Act W (Outcome Listing)
        → (List FilterCondition → Act W (Outcome Listing))
        → List String
        → Act W (Outcome Response)
    with_conditions body all filtered [] w =
        let (listing, w') = all w in (on_listing body listing, w')
    with_conditions body all filtered (q ∷ qs) w = elim (parse_conditions [] (q ∷ qs)) [
      | err e ↦ (returned (answer 400 (failure e)), w)
      | ok filter ↦ let (listing, w') = filtered filter w in (on_listing body listing, w')
    ]

    -- `ListClusters` of the second version.
    unfoldable pub list_clusters_v2 : Handler W
    list_clusters_v2 c w =
        with_conditions (λ l. list_body (new_cluster_list_response (offset_of c) (limit_of c) l))
          (list_clusters d fuel (offset_of c) (limit_of c) "" "" "" "")
          (list_clusters_with_filter d fuel (offset_of c) (limit_of c)) (query_conditions c) w

    -- `GetServiceMetadata`
    unfoldable pub get_service_metadata : Handler W
    get_service_metadata c w =
        with_conditions
          (λ l.
            metadata_list_body (new_service_metadata_list_response (offset_of c) (limit_of c) l))
          (list_clusters_with_service d fuel (path_param c "serviceId") (offset_of c) (limit_of c)
            "" "" "" "")
          (list_clusters_with_service_and_filter d fuel (path_param c "serviceId") (offset_of c)
            (limit_of c))
          (query_conditions c) w

  -- `GetServiceMetadataForCluster`
  unfoldable pub get_service_metadata_for_cluster : Handler W
  get_service_metadata_for_cluster c w =
      let (found, w') =
        get_cluster_with_service d (path_param c "serviceId") (path_param c "clusterName") w in
      (on_cluster (λ cl. metadata_body (new_service_metadata_response cl)) found, w')
