-- ===== src/Api/Handlers.antt =====
-- The handlers that the routes are registered with: `NewHandler` of
-- pkg/apiserver/web/handler/v2/handler.go.
pub mod Arrival
pub mod Unsent
use cluster_registry.Prelude.{ℕ}
use cluster_registry.Database.Api.{Db}
use cluster_registry.Api.Reads.{
  get_cluster_handler, list_clusters_v2, get_service_metadata, get_service_metadata_for_cluster,
}
use cluster_registry.Api.Patches.{PatchApi, patch_cluster_handler}
use cluster_registry.Api.Routes.{Handlers}

-- `NewHandler` of the second version; the fuel is that of the lists.
unfoldable pub new_handler :
    {W Client Item Key Condition Expr : Type 0}
    → PatchApi W Client
    → Db W Item Key Condition Expr
    → ℕ
    → Handlers W
new_handler p d fuel = record {
  get_cluster = get_cluster_handler d;
  list_clusters = list_clusters_v2 d fuel;
  patch_cluster = patch_cluster_handler p d;
  get_service_metadata = get_service_metadata d fuel;
  get_service_metadata_for_cluster = get_service_metadata_for_cluster d;
}
