-- ===== src/Database/Listing/Selection.antt =====
-- The list operations as a whole: what they give for a table, and what becomes of it when only the
-- metadata of one service is kept.
use cluster_registry.Prelude.{
  ℕ, ◌+◌, ◌≤◌, ◌<◌, ◌≡◌, refl, String, Bool, ◌&&◌, not, List, [], ok, returned, pos, half_range,
  length,
}
use cluster_registry.Registry.Cluster.{Cluster}
use cluster_registry.Database.Api.{Db, str}
use cluster_registry.Database.Filter.{FilterCondition, list_filter, build}
use cluster_registry.Database.Filter.Meaning.{
  Row, Meaning, list_filter_meaning, since_test, column_test, status_test, column_is,
}
use cluster_registry.Database.Filter.Conditions.{all_tests, build_meaning}
use cluster_registry.Database.Listing.{first_page, list_clusters, list_clusters_with_filter}
use cluster_registry.Database.Listing.Paging.{page_at, paginate_page}
use cluster_registry.Database.Listing.Pages.{
  select, select_ext, Decodes, Answers, fetch_pages_complete,
}

module _ {W Item Key Condition Expr : Type 0} (d : Db W Item Key Condition Expr)
    (m : Meaning d.expressions) (columns : Item → Row) where
  -- The test of `ListClusters` on a row.
  abbrev is_listed : String → String → String → String → Item → Bool
  is_listed region environment status last_updated i =
      since_test d.expressions m d.time last_updated (columns i)
      && (column_test d.expressions m d.time "environment" environment (columns i)
          && (column_test d.expressions m d.time "region" region (columns i)
              && status_test d.expressions m d.time status (columns i)))

  -- Where the service returns, page by page, the rows of the table that the filter holds for, and
  -- there is fuel for every page, ListClusters gives the page at the offset of the clusters in the
  -- rows with the wanted status (any but Deleted if none is named), region and environment, updated
  -- since the wanted time.
  pub list_clusters-page :
      (n fuel offset limit : ℕ) (region environment status last_updated : String) (w w' : W)
      (table : List Item) (filter : Condition) (expr : Expr) (cs : List Cluster)
      → list_filter d.expressions d.time region environment status last_updated ≡ ok filter
      → d.expressions.build_query d.index.partition_key (str "cluster") filter ≡ ok expr
      → Answers d d.db_api.query n
          (first_page d expr)
          w
          (select (λ i. m.holds filter (columns i)) table)
          w'
      → Decodes d (select (is_listed region environment status last_updated) table) cs
      → n ≤ fuel
      → offset + limit < half_range
      → length cs < half_range
      → offset ≤ length cs
      → list_clusters d fuel (pos offset) (pos limit) region environment status last_updated w
        ≡ (returned (page_at offset limit cs), w')
  unfolding list_clusters
  list_clusters-page n fuel offset limit region environment status last_updated w w' table filter
        expr cs built query answers dec fuel_left fits fits_length inside =
      let same =
        select_ext (λ i. m.holds filter (columns i))
          (is_listed region environment status last_updated) table
          (λ i.
            list_filter_meaning d.expressions m d.time region environment status last_updated filter
              (columns i) built) in
      let fetched =
        fetch_pages_complete d d.db_api.query "DynamonDB API query call failed: '" n fuel
          (first_page d expr) w w' _ [] cs answers fuel_left (rw same dec) in
      rw
        (
          built,
          list_clusters,
          query,
          fetched,
          paginate_page offset limit cs fits fits_length inside,
        )
        refl

  -- The test of `ListClustersWithFilter` on a row.
  abbrev pub passes : List FilterCondition → Item → Bool
  passes conditions i =
      all_tests d.expressions m d.time conditions (columns i)
      && not (column_is d.expressions m d.time (columns i) "status" "")

  -- Where the service returns, page by page, the rows that the filter holds for, and there is fuel
  -- for every page, ListClustersWithFilter gives the page at the offset of the clusters in the rows
  -- whose status is not the empty text, those without a status among them, and that pass every
  -- condition.
  pub list_clusters_with_filter-page :
      (n fuel offset limit : ℕ) (conditions : List FilterCondition) (w w' : W) (table : List Item)
      (filter : Condition) (expr : Expr) (cs : List Cluster)
      → build d.expressions d.time conditions ≡ ok filter
      → d.expressions.build_scan filter ≡ ok expr
      → Answers d d.db_api.scan n
          (first_page d expr)
          w
          (select (λ i. m.holds filter (columns i)) table)
          w'
      → Decodes d (select (passes conditions) table) cs
      → n ≤ fuel
      → offset + limit < half_range
      → length cs < half_range
      → offset ≤ length cs
      → list_clusters_with_filter d fuel (pos offset) (pos limit) conditions w
        ≡ (returned (page_at offset limit cs), w')
  unfolding list_clusters_with_filter
  list_clusters_with_filter-page n fuel offset limit conditions w w' table filter expr cs built
        query answers dec fuel_left fits fits_length inside =
      let same =
        select_ext (λ i. m.holds filter (columns i)) (passes conditions) table
          (λ i. build_meaning d.expressions m d.time conditions filter (columns i) built) in
      let fetched =
        fetch_pages_complete d d.db_api.scan "DynamoDB API scan call failed: '" n fuel
          (first_page d expr) w w' _ [] cs answers fuel_left (rw same dec) in
      rw
        (
          built,
          list_clusters_with_filter,
          query,
          fetched,
          paginate_page offset limit cs fits fits_length inside,
        )
        refl
