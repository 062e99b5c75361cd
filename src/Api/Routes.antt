-- ===== src/Api/Routes.antt =====
-- Where the handlers are mounted: `Register` of pkg/apiserver/web/handler/v1/handler.go and of
-- pkg/apiserver/web/handler/v2/handler.go, pkg/apiserver/web/livez.go and version.go.
pub mod Closed
use cluster_registry.Prelude.{ℕ, String, List, [], ◌∷◌}
use cluster_registry.Http.{Handler, Middleware}
use cluster_registry.Auth.{Authenticator, verify_token, verify_group_access}

-- The handlers that a version of the API mounts; the first version has the first two alone.
pub record Handlers (W : Type 0) : Type 0 where
  pub get_cluster : Handler W
  pub list_clusters : Handler W
  pub patch_cluster : Handler W
  pub get_service_metadata : Handler W
  pub get_service_metadata_for_cluster : Handler W

pub record Route (W : Type 0) : Type 0 where
  pub method : String
  pub path : String
  pub serve : Handlers W → Handler W

-- The middleware of a route runs behind that of its group, in the order in which they are given.
-- `limiter` is `RateLimiter`, which has a store of its own for each group, and `cached` is
-- `HTTPCache`; they may be any middleware here.
module _ {W Token : Type 0} (a : Authenticator W Token) (limiter cached : Middleware W) where
  -- The middleware of each group.
  abbrev pub guarded : Middleware W
  guarded next = verify_token a (limiter next)

  -- `Register` of the first version
  unfoldable pub register_v1 : List (Route W)
  register_v1 =
      record {
        method = "GET";
        path = "/api/v1/clusters/:name";
        serve = λ hs. guarded hs.get_cluster;
      }
      ∷ record {
        method = "GET";
        path = "/api/v1/clusters";
        serve = λ hs. guarded (cached hs.list_clusters);
      }
      ∷ []

  -- `Register` of the second version: the limiter of the services is another one, and a group of
  -- callers is authorized to patch.
  unfoldable pub register_v2 : Middleware W → String → List (Route W)
  register_v2 services_limiter group =
      record {
        method = "GET";
        path = "/api/v2/clusters/:name";
        serve = λ hs. guarded hs.get_cluster;
      }
      ∷ record {
        method = "PATCH";
        path = "/api/v2/clusters/:name";
        serve = λ hs. guarded (verify_group_access group hs.patch_cluster);
      }
      ∷ record {
        method = "GET";
        path = "/api/v2/clusters";
        serve = λ hs. guarded (cached hs.list_clusters);
      }
      ∷ record {
        method = "GET";
        path = "/api/v2/services/:serviceId";
        serve = λ hs. verify_token a (services_limiter hs.get_service_metadata);
      }
      ∷ record {
        method = "GET";
        path = "/api/v2/services/:serviceId/cluster/:clusterName";
        serve = λ hs. verify_token a (services_limiter hs.get_service_metadata_for_cluster);
      }
      ∷ []
