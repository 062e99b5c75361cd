-- ===== src/Database/Api.antt =====
-- What pkg/database calls: the DynamoDB client, its expression builder, the metrics and the time
-- formats. They are parameters, with their documented behaviour as named laws in `Database.Store.Table`.
-- The types `Item`, `Key`, `Condition` and `Expr` are the client's own.
use cluster_registry.Prelude.{◌/◌, String, Option, List, Result, Act, ℤ, pos, negsuc}
use cluster_registry.Registry.Cluster.{Cluster}

-- `ClusterDb`: a row of the table.
pub record ClusterDb : Type 0 where
  pub table_partition_key : String
  pub index_partition_key : String
  pub region : String
  pub environment : String
  pub status : String
  pub last_updated_unix : ℤ
  pub cluster : Option Cluster

-- `dbTable`
pub record DbTable : Type 0 where
  pub name : String
  pub partition_key : String
  pub search_key : String

-- What `expression.Value` is given.
pub data Value : Type 0 where
  str : String → Value
  num : ℤ → Value

-- The `expression` package: `Name(n).Equal(Value(v))` is `equal n v`. `build_query` is
-- `NewBuilder().WithKeyCondition(Key(k).Equal(Value(v))).WithFilter(f).Build()`.
pub record Expressions (Condition Expr : Type 0) : Type 0 where
  pub equal : String → Value → Condition
  pub not_equal : String → Value → Condition
  pub greater_than_equal : String → Value → Condition
  pub greater_than : String → Value → Condition
  pub less_than_equal : String → Value → Condition
  pub less_than : String → Value → Condition
  pub conj : Condition → Condition → Condition
  pub build_query : String → Value → Condition → Result Expr
  pub build_scan : Condition → Result Expr

-- A page of a query or of a scan; `last_evaluated_key` is where the next page begins.
pub record Page (Item Key : Type 0) : Type 0 where
  pub items : List Item
  pub last_evaluated_key : Option Key

-- `QueryInput` and `ScanInput`
pub record PageInput (Key Expr : Type 0) : Type 0 where
  pub table_name : String
  pub index_name : String
  pub expression : Expr
  pub exclusive_start_key : Option Key

-- The DynamoDB client and the marshaller of its rows. A key of the table is the name of a cluster.
pub record Dynamo (W Item Key Expr : Type 0) : Type 0 where
  pub get_item : String → String → Act W (Result (Option Item))
  pub put_item : String → Item → Act W (Result (Unit {0}))
  pub delete_item : String → String → Act W (Result (Unit {0}))
  pub query : PageInput Key Expr → Act W (Result (Page Item Key))
  pub scan : PageInput Key Expr → Act W (Result (Page Item Key))
  pub describe_table : String → Act W (Result (Unit {0}))
  pub unmarshal_map : Item → Result ClusterDb
  pub marshal_map : ClusterDb → Result Item

-- `record_egress t` is `RecordEgressRequestCnt(t)` and `RecordEgressRequestDur(t, elapsed)`.
pub record Metrics (W : Type 0) : Type 0 where
  pub record_egress : String → W → W
  pub record_error_cnt : String → W → W

-- Times are nanoseconds since 1970 in UTC. `parse` is `time.Parse(time.RFC3339, s)`, which takes a
-- fraction of a second too, and `format_nano` is `t.UTC().Format(time.RFC3339Nano)`; `show` is
-- `t.String()`.
pub record TimeFormat : Type 0 where
  pub parse : String → Result ℤ
  pub format_nano : ℤ → String
  pub show : ℤ → String

-- `t.Unix()`: whole seconds, rounded down.
unfoldable pub unix : ℤ → ℤ
unix (pos n) = pos (n / 1000000000)
unix (negsuc n) = negsuc (n / 1000000000)

-- The `db` struct.
pub record Db (W Item Key Condition Expr : Type 0) : Type 0 where
  pub db_api : Dynamo W Item Key Expr
  pub expressions : Expressions Condition Expr
  pub table : DbTable
  pub index : DbTable
  pub metrics : Metrics W
  pub time : TimeFormat

abbrev pub egress_target : String
egress_target = "database"
