-- ===== src/Api/Responses.antt =====
-- pkg/apiserver/web/handler/v1/response.go and v2/response.go: what the API shows of clusters.
use cluster_registry.Prelude.{[], map, ℤ, Outcome, returned, panicked, out_of_fuel}
use cluster_registry.Registry.Cluster.{Cluster, ClusterSpec}
use cluster_registry.Database.Listing.{Listing}
use cluster_registry.Http.{ClusterList, NamedMetadata, MetadataList, Body, Response, answer}

-- `newClusterResponse`: a cluster is shown without the metadata of its services.
unfoldable pub new_cluster_response : Cluster → ClusterSpec
new_cluster_response c = record (c.spec) { service_metadata = [] }

-- `newClusterListResponse`. Of the listing's error nothing is shown.
unfoldable pub new_cluster_list_response : ℤ → ℤ → Listing → ClusterList
new_cluster_list_response offset limit l = record {
  items = map new_cluster_response l.clusters;
  items_count = l.count;
  offset = offset;
  limit = limit;
  more = l.more;
}

unfoldable pub new_service_metadata_response : Cluster → NamedMetadata
new_service_metadata_response c = record {
  name = c.spec.name;
  service_metadata = c.spec.service_metadata;
}

unfoldable pub new_service_metadata_list_response : ℤ → ℤ → Listing → MetadataList
new_service_metadata_list_response offset limit l = record {
  items = map new_service_metadata_response l.clusters;
  items_count = l.count;
  offset = offset;
  limit = limit;
  more = l.more;
}

abbrev pub on_listing : (Listing → Body) → Outcome Listing → Outcome Response
on_listing body (returned l) = returned (answer 200 (body l))
on_listing body panicked = panicked
on_listing body out_of_fuel = out_of_fuel
