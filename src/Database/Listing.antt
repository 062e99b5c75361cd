-- ===== src/Database/Listing.antt =====
-- pkg/database/database.go: the list operations. They fetch every page of the table that passes
-- the filter, and cut out the slice that the caller asked for.
pub mod Paging
pub mod Pages
pub mod Selection
pub mod Service
use cluster_registry.Prelude.{
  ℕ, zero, suc, ◌-◌, String, ◌<>◌, Bool, false, ◌&&◌, Option, none, some, List, [], ◌∷◌, ◌++◌,
  Result, ok, err, Act, Outcome, returned, panicked, out_of_fuel, then_return, ℤ, pos, negsuc,
  add_int, sub_int, ltb_ℤ, leb, if◌then◌else◌, length, take, drop, lookup, ◌>>=◌,
}
use cluster_registry.Registry.Cluster.{Cluster}
use cluster_registry.Database.Api.{Db, ClusterDb, Page, PageInput, str, egress_target}
use cluster_registry.Database.Filter.{FilterCondition, list_filter, build}

-- The four results of a list operation; the others are zero where the error is set, except that
-- `ListClustersWithService` goes on after one.
pub record Listing : Type 0 where
  pub clusters : List Cluster
  pub count : ℤ
  pub more : Bool
  pub error : Option String

abbrev pub failed_listing : String → Listing
failed_listing e = record { clusters = []; count = pos 0; more = false; error = some e }

-- `xs[lo:hi]`, which panics unless 0 <= lo <= hi <= len(xs). Go allows `hi` up to the capacity, and
-- no caller passes the length.
unfoldable pub slice {ℓ} : {A : Type ℓ} → ℤ → ℤ → List A → Outcome (List A)
slice (pos lo) (pos hi) xs =
    if leb lo hi && leb hi (length xs) then returned (take (hi - lo) (drop lo xs)) else panicked
slice (negsuc lo) hi xs = panicked
slice (pos lo) (negsuc hi) xs = panicked

-- `endIndex` after its clamp to `count`.
unfoldable pub end_index : ℤ → ℤ → ℤ → ℤ
end_index offset limit count =
    if ltb_ℤ count (add_int offset limit) then count else add_int offset limit

-- The results of a list operation, once the end of the slice is known.
unfoldable pub listing_to : ℤ → ℤ → List Cluster → Outcome Listing
unfolding slice
listing_to offset end clusters = then_return (slice offset end clusters) λ page. returned (record {
  clusters = page;
  count = sub_int end offset;
  more = ltb_ℤ end (pos (length clusters));
  error = none;
})

-- The end of `ListClusters` and of `ListClustersWithFilter`.
unfoldable pub paginate : ℤ → ℤ → List Cluster → Outcome Listing
unfolding listing_to
paginate offset limit clusters =
    listing_to offset (end_index offset limit (pos (length clusters))) clusters

-- A row without a cluster is a nil pointer that is followed.
abbrev append_cluster : List Cluster → ClusterDb → Outcome (List Cluster)
append_cluster clusters row = elim row.cluster [
  | none ↦ panicked
  | some c ↦ returned (clusters ++ c ∷ [])
]

-- The end of both list operations, after all pages are fetched.
abbrev finish : ℤ → ℤ → Result (List Cluster) → Outcome Listing
finish offset limit (err e) = returned (failed_listing e)
finish offset limit (ok clusters) = paginate offset limit clusters

module _ {W Item Key Condition Expr : Type 0} (d : Db W Item Key Condition Expr) where
  abbrev first_page : Expr → PageInput Key Expr
  first_page expr = record {
    table_name = d.table.name;
    index_name = d.index.name;
    expression = expr;
    exclusive_start_key = none;
  }

  -- The loop over the items of a page.
  unfoldable pub add_items : List Cluster → List Item → Outcome (Result (List Cluster))
  add_items clusters [] = returned (ok clusters)
  add_items clusters (i ∷ items) = elim (d.db_api.unmarshal_map i) [
    | err e ↦ returned (err ("Error when trying to unmarshal cluster: '" <> e <> "'."))
    | ok row ↦ then_return (append_cluster clusters row) (λ cs. add_items cs items)
  ]

  module _ (fetch : PageInput Key Expr → Act W (Result (Page Item Key))) (message : String) where
    -- The loop over the pages. It ends at a page with no `LastEvaluatedKey`.
    unfoldable pub fetch_pages :
        ℕ → PageInput Key Expr → List Cluster → Act W (Outcome (Result (List Cluster)))
    fetch_pages zero input clusters w = (out_of_fuel, w)
    fetch_pages (suc fuel) input clusters w =
        let (result, w1) = fetch input w in
        let w2 = d.metrics.record_egress egress_target w1 in
        elim result [
          | err e ↦ (returned (err (message <> e <> "'.")), w2)
          | ok page ↦ elim (add_items clusters page.items) [
            | panicked ↦ (panicked, w2)
            | out_of_fuel ↦ (out_of_fuel, w2)
            | returned (err e) ↦ (returned (err e), w2)
            | returned (ok cs) ↦ elim page.last_evaluated_key [
              | none ↦ (returned (ok cs), w2)
              | some key ↦ fetch_pages fuel (record input { exclusive_start_key = some key }) cs w2
            ]
          ]
        ]

  abbrev query_pages : ℕ → Expr → Act W (Outcome (Result (List Cluster)))
  query_pages fuel expr =
      fetch_pages d.db_api.query "DynamonDB API query call failed: '" fuel (first_page expr) []

  abbrev scan_pages : ℕ → Expr → Act W (Outcome (Result (List Cluster)))
  scan_pages fuel expr =
      fetch_pages d.db_api.scan "DynamoDB API scan call failed: '" fuel (first_page expr) []

  -- `ListClusters`, in the order of its definition: the region stands before the environment.
  unfoldable pub list_clusters :
      ℕ → ℤ → ℤ → String → String → String → String → Act W (Outcome Listing)
  list_clusters fuel offset limit region environment status last_updated w =
      elim (list_filter d.expressions d.time region environment status last_updated) [
        | err e ↦ (returned (failed_listing e), w)
        | ok filter ↦
            elim (d.expressions.build_query d.index.partition_key (str "cluster") filter) [
              | err e ↦ (
                returned
                    (failed_listing ("Building dynamodb query expersion failed: '" <> e <> "'.")),
                w,
              )
              | ok expr ↦
                  let (fetched, w') = query_pages fuel expr w in
                  (then_return fetched (finish offset limit), w')
            ]
      ]

  -- `ListClustersWithFilter`
  unfoldable pub list_clusters_with_filter :
      ℕ → ℤ → ℤ → List FilterCondition → Act W (Outcome Listing)
  list_clusters_with_filter fuel offset limit conditions w =
      elim (build d.expressions d.time conditions) [
        | err e ↦ (returned (failed_listing e), w)
        | ok filter ↦ elim (d.expressions.build_scan filter) [
          | err e ↦ (
            returned (failed_listing ("Building dynamodb scan expersion failed: '" <> e <> "'.")),
            w,
          )
          | ok expr ↦
              let (fetched, w') = scan_pages fuel expr w in
              (then_return fetched (finish offset limit), w')
        ]
      ]
