-- ===== src/Tests/Database.antt =====
-- The theorems of `Database` at concrete inputs.
use cluster_registry.Prelude.{
  ◌≡◌, refl, ◌↔◌, Bool, false, ◌&&◌, not, none, some, [], ◌∷◌, map, ok, returned, panicked, pos,
  All, lookup, remove, add_int, sub_int, arith, contains,
}
use cluster_registry.Registry.Cluster.{Cluster}
use cluster_registry.Database.Api.{unix, str}
use cluster_registry.Database.Filter.{
  FilterCondition, list_filter, build, build_step, add_comparison, parse_field, parse_value,
  parse_operand,
}
use cluster_registry.Database.Filter.Meaning.{Row, is_eq}
use cluster_registry.Database.Filter.Conditions.{build-ok_iff, IsAllowed}
use cluster_registry.Database.Store.{get_cluster, put_cluster, delete_cluster, decode_item, row_of}
use cluster_registry.Database.Store.Laws.{
  decode_item-put_cluster, IsFramed, registered_at-put_cluster, stored,
}
use cluster_registry.Database.Listing.{
  Listing, paginate, fetch_pages, add_items, end_index, list_clusters, list_clusters_with_filter,
}
use cluster_registry.Database.Listing.Paging.{
  page_at, paginate_page, paginate-panicked, walk, walk_total,
}
use cluster_registry.Database.Listing.Pages.{last}
use cluster_registry.Database.Listing.Selection.{list_clusters-page, list_clusters_with_filter-page}
use cluster_registry.Database.Listing.Service.{
  keep_service, service_listing, list_clusters_with_service,
}
use cluster_registry.Database.Listing.Service.Laws.{list_clusters_with_service-no_more}
use cluster_registry.Tests.Memory.{
  Table, memory, memory_laws, tests_meaning, columns, cluster, row, order, parse_unary, same_row,
}

abbrev one : Cluster
one = cluster "one" "va6" "Active" "+"

abbrev two : Cluster
two = cluster "two" "va6" "Deleted" "+1"

abbrev three : Cluster
three = cluster "three" "or2" "Active" "+11"

abbrev table : Table
table = ("one", row (pos 0) one) ∷ ("two", row (pos 0) two) ∷ ("three", row (pos 0) three) ∷ []

paginate_page_example :
    paginate (pos 1) (pos 5) (one ∷ two ∷ three ∷ [])
    ≡ returned (page_at 1 5 (one ∷ two ∷ three ∷ []))
paginate_page_example =
    paginate_page 1 5 (one ∷ two ∷ three ∷ []) (omega arith) (omega arith) (omega arith)

paginate-panicked_example : paginate (pos 3) (pos 5) (one ∷ two ∷ []) ≡ panicked
paginate-panicked_example =
    paginate-panicked 3 5 (one ∷ two ∷ []) (omega arith) (omega arith) (omega arith)

walk_total_example : walk 4 0 1 (one ∷ two ∷ []) ≡ returned (one ∷ two ∷ [])
walk_total_example =
    walk_total 4 0 1 (one ∷ two ∷ []) (omega arith) (omega arith) (omega arith) (omega arith)

-- The filter of `ListClusters` for a region alone.
abbrev va6_filter : Row → Bool
va6_filter r =
    not (is_eq (order (r "status") (str "Deleted"))) && is_eq (order (r "region") (str "va6"))

va6_built : list_filter memory.expressions memory.time "va6" "" "" "" ≡ ok va6_filter
unfolding list_filter
va6_built = refl

list_clusters-page_example :
    list_clusters memory 1 (pos 0) (pos 10) "va6" "" "" "" table
    ≡ (returned (page_at 0 10 (one ∷ [])), table)
list_clusters-page_example =
    list_clusters-page memory tests_meaning columns 1 1 0 10 "va6" "" "" "" table table
      (map (λ e. e.1) table) va6_filter va6_filter (one ∷ []) va6_built refl
      (last {page = record { items = row (pos 0) one ∷ []; last_evaluated_key = none }} refl refl
        refl refl refl)
      (row (pos 0) one, one, [], refl, refl, refl, refl) (omega arith) (omega arith) (omega arith)
      (omega arith)

abbrev in_va6 : FilterCondition
in_va6 = record { field = "region"; operand = "="; value = "va6" }

abbrev odd_operand : FilterCondition
odd_operand = record { field = "region"; operand = "!"; value = "va6" }

abbrev below_spec : Row → Bool
below_spec r =
    not (is_eq (order (r "status") (str ""))) && is_eq (order (r "crd.spec.region") (str "va6"))

below_spec_built : build memory.expressions memory.time (in_va6 ∷ []) ≡ ok below_spec
unfolding build build_step add_comparison parse_field parse_value parse_operand contains
below_spec_built = refl

list_clusters_with_filter-page_example :
    list_clusters_with_filter memory 1 (pos 0) (pos 10) (in_va6 ∷ []) table
    ≡ (returned (page_at 0 10 (one ∷ two ∷ [])), table)
unfolding parse_field parse_value contains
list_clusters_with_filter-page_example =
    list_clusters_with_filter-page memory tests_meaning columns 1 1 0 10 (in_va6 ∷ []) table table
      (map (λ e. e.1) table) below_spec below_spec (one ∷ two ∷ []) below_spec_built refl
      (last
        {page = record {
          items = row (pos 0) one ∷ row (pos 0) two ∷ [];
          last_evaluated_key = none;
        }}
        refl refl refl refl refl)
      (
        row (pos 0) one,
        one,
        two ∷ [],
        refl,
        refl,
        (row (pos 0) two, two, [], refl, refl, refl, refl),
        refl,
      )
      (omega arith) (omega arith) (omega arith) (omega arith)

build-ok_iff_example :
    ((f : Row → Bool) × (build memory.expressions memory.time (odd_operand ∷ []) ≡ ok f))
    ↔ All (IsAllowed memory.expressions tests_meaning memory.time) (odd_operand ∷ [])
build-ok_iff_example = build-ok_iff memory.expressions tests_meaning memory.time (odd_operand ∷ [])

abbrev older : Cluster
older = record one { spec = record (one.spec) { registered_at = "+" } }

abbrev with_older : Table
with_older = ("one", row (pos 0) older) ∷ []

put_again : (put_cluster memory one with_older).0 ≡ ok tt
unfolding put_cluster get_cluster decode_item lookup parse_unary
put_again = refl

read_older : (get_cluster memory "one" with_older).0 ≡ ok (some older)
unfolding get_cluster decode_item lookup
read_older = refl

decode_item-put_cluster_example :
    (decode_item memory "one" (lookup "one" (put_cluster memory one with_older).1)
      ≡ ok (some older))
    × IsFramed memory memory_laws "one" with_older (put_cluster memory one with_older).1
unfolding get_cluster decode_item lookup
decode_item-put_cluster_example =
    decode_item-put_cluster memory memory_laws one with_older
      (λ t i e. same_row (row_of memory (unix t) (stored memory memory_laws one with_older)) i e)
      put_again

registered_at-put_cluster_example :
    (new : Cluster) × (decode_item memory "one" (lookup "one" (put_cluster memory one with_older).1)
      ≡ ok (some new))
    × (new.spec.registered_at ≡ older.spec.registered_at)
registered_at-put_cluster_example =
    registered_at-put_cluster memory memory_laws one older with_older
      (λ t i e. same_row (row_of memory (unix t) (stored memory memory_laws one with_older)) i e)
      read_older put_again

deleted : (delete_cluster memory "one" table).0 ≡ ok tt
unfolding delete_cluster
deleted = refl

read_deleted : (get_cluster memory "one" (delete_cluster memory "one" table).1).0 ≡ ok none
unfolding delete_cluster get_cluster decode_item lookup remove
read_deleted = refl

abbrev serving : Cluster
serving = record one { spec = record (one.spec) { service_metadata = ("s", []) ∷ [] } }

abbrev both : Table
both = ("one", row (pos 0) serving) ∷ ("two", row (pos 0) serving) ∷ []

abbrev first_of_two : Listing
first_of_two = record { clusters = serving ∷ []; count = pos 1; more = false; error = none }

with_service_run :
    (list_clusters_with_service memory 1 "s" (pos 0) (pos 1) "" "" "" "" both).0
    ≡ returned first_of_two
unfolding list_clusters_with_service list_clusters list_filter fetch_pages add_items paginate
    end_index add_int sub_int service_listing keep_service lookup
with_service_run = refl

list_clusters_with_service-no_more_example : first_of_two.more ≡ false
list_clusters_with_service-no_more_example =
    list_clusters_with_service-no_more memory 1 0 1 "s" "" "" "" "" both first_of_two (omega arith)
      with_service_run
