-- ===== src/Database/Store/Table.antt =====
-- The documented behaviour of the DynamoDB client on the table: a write or a deletion that succeeds
-- changes the item under its name alone, and only writes and deletions change the table. Nothing is
-- asked of a write or a deletion that fails, nor of what a read gives: `GetItem` is eventually
-- consistent as the code calls it, so that it may give an item of before the last write.
use cluster_registry.Prelude.{String, ◌==◌, ◌≡◌, Option, none, some, ok, if◌then◌else◌}
use cluster_registry.Database.Api.{Db, ClusterDb}

pub record TableLaws {W Item Key Condition Expr : Type 0} (d : Db W Item Key Condition Expr)
    : Type 0 where
  pub item_of : W → String → Option Item
  pub key_of : Item → String
  pub get_item_keeps :
      (name k : String) (w : W) → item_of (d.db_api.get_item d.table.name name w).1 k ≡ item_of w k
  pub put_item_lem :
      (k : String) (i : Item) (w : W)
      → (d.db_api.put_item d.table.name i w).0 ≡ ok tt
      → item_of (d.db_api.put_item d.table.name i w).1 k
        ≡ (if key_of i == k then some i else item_of w k)
  pub delete_item_lem :
      (name k : String) (w : W)
      → (d.db_api.delete_item d.table.name name w).0 ≡ ok tt
      → item_of (d.db_api.delete_item d.table.name name w).1 k
        ≡ (if name == k then none else item_of w k)
  pub metrics_keep : (t k : String) (w : W) → item_of (d.metrics.record_egress t w) k ≡ item_of w k
  pub marshal_key :
      (row : ClusterDb) (i : Item)
      → d.db_api.marshal_map row ≡ ok i
      → key_of i ≡ row.table_partition_key

-- Where the read of this name succeeds, it sees the last write of the name.
abbrev pub IsCurrent :
    {W Item Key Condition Expr : Type 0} {d : Db W Item Key Condition Expr}
    → TableLaws d
    → String
    → W
    → Type 0
IsCurrent {Item = Item} {d = d} l name w =
    (r : Option Item) → (d.db_api.get_item d.table.name name w).0 ≡ ok r → r ≡ l.item_of w name
