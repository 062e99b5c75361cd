-- ===== src/Database/Store.antt =====
-- pkg/database/database.go: reading, writing and deleting one cluster. The log lines are left out.
pub mod Table
pub mod Laws
use cluster_registry.Prelude.{String, ◌<>◌, Option, none, some, Result, ok, err, Act, ◌>>=◌, ℤ}
use cluster_registry.Registry.Cluster.{Cluster}
use cluster_registry.Database.Api.{Db, ClusterDb, unix, egress_target}

-- `fmt.Errorf` with a prefix, the name of a cluster and the error behind it.
abbrev named_failure : String → String → String → String → String
named_failure before name between cause = before <> name <> between <> cause

abbrev get_failed : String → String → String
get_failed name cause =
    named_failure "Cannot get cluster '" name "' from the database. Error: '" cause <> "'"

abbrev unmarshal_failed : String → String → String
unmarshal_failed name cause = named_failure "Cannot unmarshal cluster '" name "': '" cause <> "'"

abbrev time_failed : String → String → String
time_failed name cause =
    named_failure "Error converting lastUpdated parameter to RFC3339 for cluster " name ": '" cause
    <> "'."

abbrev put_failed : String → String → String
put_failed name cause =
    named_failure "Cluster '" name "' cannot be updated or created in the database. Error: '" cause
    <> "'"

-- The caller's cluster takes the registration time of the one in the database.
abbrev pub keep_registered_at : Option Cluster → Cluster → Cluster
keep_registered_at none c = c
keep_registered_at (some old) c = record c {
  spec = record (c.spec) { registered_at = old.spec.registered_at };
}

abbrev pub ignore_error : Result (Option Cluster) → Option Cluster
ignore_error (ok c) = c
ignore_error (err e) = none

abbrev map_err {ℓ} : {A : Type ℓ} → (String → String) → Result A → Result A
map_err f (ok a) = ok a
map_err f (err e) = err (f e)

module _ {W Item Key Condition Expr : Type 0} (d : Db W Item Key Condition Expr) where
  abbrev observed : W → W
  observed = d.metrics.record_egress egress_target

  -- What `GetCluster` makes of the answer of `GetItem`.
  unfoldable pub decode_item : String → Option Item → Result (Option Cluster)
  decode_item name none = ok none
  decode_item name (some item) =
      map_err (unmarshal_failed name) (d.db_api.unmarshal_map item) >>= λ row. ok row.cluster

  unfoldable pub get_cluster : String → Act W (Result (Option Cluster))
  unfolding decode_item
  get_cluster name w =
      let (resp, w') = d.db_api.get_item d.table.name name w in
      (map_err (get_failed name) resp >>= decode_item name, observed w')

  -- The row that `PutCluster` writes for a cluster with this time of its last update.
  abbrev pub row_of : ℤ → Cluster → ClusterDb
  row_of seconds c = record {
    table_partition_key = c.spec.name;
    index_partition_key = "cluster";
    region = c.spec.region;
    environment = c.spec.environment;
    status = c.spec.status;
    last_updated_unix = seconds;
    cluster = some c;
  }

  write_item : String → Result Item → Act W (Result (Unit {0}))
  write_item name (err e) w =
      (err ("Cannot marshal cluster '" <> name <> "' into AttributeValue map."), w)
  write_item name (ok item) w =
      let (r, w') = d.db_api.put_item d.table.name item w in
      (map_err (put_failed name) r, observed w')

  unfoldable pub put_cluster : Cluster → Act W (Result (Unit {0}))
  unfolding write_item
  put_cluster c w = elim (d.time.parse c.spec.last_updated) [
    | err e ↦ (err (time_failed c.spec.name e), w)
    | ok t ↦
        let (existing, w') = get_cluster c.spec.name w in
        let c' = keep_registered_at (ignore_error existing) c in
        write_item c.spec.name (d.db_api.marshal_map (row_of (unix t) c')) w'
  ]

  unfoldable pub delete_cluster : String → Act W (Result (Unit {0}))
  delete_cluster name w =
      let (r, w') = d.db_api.delete_item d.table.name name w in
      (map_err (λ e. "Error while deleting cluster " <> name <> " from db: " <> e) r, observed w')

  status_answer : Result (Unit {0}) → Act W (Result (Unit {0}))
  status_answer (ok u) w = (ok u, w)
  status_answer (err e) w = (
    err ("Connectivity check using DescribeTable failed. Error: '" <> e <> "'"),
    d.metrics.record_error_cnt egress_target w,
  )

  -- `Status`, with its five seconds left to the client.
  unfoldable pub table_status : Act W (Result (Unit {0}))
  unfolding status_answer
  table_status w = let (r, w') = d.db_api.describe_table d.table.name w in status_answer r w'
