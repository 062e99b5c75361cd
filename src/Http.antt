-- ===== src/Http.antt =====
-- What the handlers and the middleware of the API server see of a request, and what they answer:
-- the part of `echo.Context` that pkg/auth and pkg/apiserver use. A header is a text with one
-- character for each of its bytes.
use cluster_registry.Prelude.{ℕ, String, Bool, Option, List, Dict, ℤ, Act, Outcome}
use cluster_registry.Registry.Cluster.{ClusterSpec, ServiceMetadata}

-- `oid` and `groups` are what the middleware stores in the context, `none` before that.
pub record Request : Type 0 where
  pub authorization : String
  pub path_params : Dict String
  pub query_params : Dict (List String)
  pub body : String
  pub oid : Option String
  pub groups : Option (List String)

-- `clusterList`
pub record ClusterList : Type 0 where
  pub items : List ClusterSpec
  pub items_count : ℤ
  pub offset : ℤ
  pub limit : ℤ
  pub more : Bool

-- `ServiceMetadata` of the responses
pub record NamedMetadata : Type 0 where
  pub name : String
  pub service_metadata : ServiceMetadata

-- `serviceMetadataList`
pub record MetadataList : Type 0 where
  pub items : List NamedMetadata
  pub items_count : ℤ
  pub offset : ℤ
  pub limit : ℤ
  pub more : Bool

-- What is sent, as JSON but for a text. `failure e` is `NewError(e)`: the message under the key "body".
pub data Body : Type 0 where
  failure : String → Body
  cluster_body : ClusterSpec → Body
  list_body : ClusterList → Body
  metadata_body : NamedMetadata → Body
  metadata_list_body : MetadataList → Body
  status_body : Bool → Bool → Body
  text_body : String → Body
  nothing : Body

pub record Response : Type 0 where
  pub code : ℕ
  pub body : Body

abbrev pub answer : ℕ → Body → Response
answer code body = record { code = code; body = body }

-- `echo.HandlerFunc` and `echo.MiddlewareFunc`; a handler may panic.
abbrev pub Handler : Type 0 → Type 0
Handler W = Request → Act W (Outcome Response)

abbrev pub Middleware : Type 0 → Type 0
Middleware W = Handler W → Handler W
