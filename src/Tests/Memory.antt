-- ===== src/Tests/Memory.antt =====
-- A table in memory: rows under their names, one page to a query, times in unary.
use Prim.Native.Nat.{Ordering, compare}
use Prim.Native.Char.{code}
use Prim.Native.String
use mathlib.Core.Bool.{not}
use cluster_registry.Prelude.{
  ℕ, zero, suc, String, ◌==◌, ◌≡◌, refl, ap, Bool, false, ◌&&◌, Option, none, some, List, [], ◌∷◌,
  Dict, lookup, insert, remove, lookup-insert, lookup-remove, Result, ok, err, Act, ℤ, pos, negsuc,
  pos_part, neg_part, ◌+◌, if◌then◌else◌, eqb,
}
use cluster_registry.Registry.Cluster.{Cluster, empty_spec}
use cluster_registry.Database.Api.{
  ClusterDb, Value, str, num, Expressions, PageInput, Page, Dynamo, TimeFormat, Db,
}
use cluster_registry.Database.Filter.Meaning.{Row, Meaning, is_eq, is_gt, is_lt, is_ge, is_le}
use cluster_registry.Database.Listing.Pages.{select}
use cluster_registry.Database.Store.Table.{TableLaws, IsCurrent}
use cluster_registry.Events.Stamps.{TimeLaws}

abbrev pub Table : Type 0
Table = Dict ClusterDb

abbrev pub columns : ClusterDb → Row
columns r name =
    if name == "name"
    then some (str r.table_partition_key)
    else if name == "kind"
    then some (str r.index_partition_key)
    else if name == "region"
    then some (str r.region)
    else if name == "environment"
    then some (str r.environment)
    else if name == "status"
    then some (str r.status)
    else if name == "crd.spec.region"
    then some (str r.region)
    else if name == "lastUpdatedUnix"
    then some (num r.last_updated_unix)
    else none

abbrev pub order : Option Value → Value → Option Ordering
order (some (str a)) (str b) = some (String.compare a b)
order (some (num a)) (num b) = some (compare (pos_part a + neg_part b) (pos_part b + neg_part a))
order _ _ = none

abbrev Test : Type 0
Test = Row → Bool

abbrev tests : Expressions Test Test
tests = record {
  equal = λ n v r. is_eq (order (r n) v);
  not_equal = λ n v r. not (is_eq (order (r n) v));
  greater_than_equal = λ n v r. is_ge (order (r n) v);
  greater_than = λ n v r. is_gt (order (r n) v);
  less_than_equal = λ n v r. is_le (order (r n) v);
  less_than = λ n v r. is_lt (order (r n) v);
  conj = λ a b r. a r && b r;
  build_query = λ n v f. ok f;
  build_scan = λ f. ok f;
}

abbrev pub tests_meaning : Meaning tests
tests_meaning = record {
  holds = λ f r. f r;
  order = order;
  equal_lem = λ n v r. refl;
  not_equal_lem = λ n v r. refl;
  greater_than_equal_lem = λ n v r. refl;
  greater_than_lem = λ n v r. refl;
  less_than_equal_lem = λ n v r. refl;
  less_than_lem = λ n v r. refl;
  conj_lem = λ a b r. refl;
}

abbrev rows : Table → List ClusterDb
rows [] = []
rows ((k, r) ∷ t) = r ∷ rows t

abbrev page : PageInput ℕ Test → Act Table (Result (Page ClusterDb ℕ))
page input t = (
  ok (record {
    items = select (λ r. input.expression (columns r)) (rows t);
    last_evaluated_key = none;
  }),
  t,
)

abbrev memory_api : Dynamo Table ClusterDb ℕ Test
memory_api = record {
  get_item = λ _ name t. (ok (lookup name t), t);
  put_item = λ _ r t. (ok tt, insert r.table_partition_key r t);
  delete_item = λ _ name t. (ok tt, remove name t);
  query = page;
  scan = page;
  describe_table = λ _ t. (ok tt, t);
  unmarshal_map = λ r. ok r;
  marshal_map = λ r. ok r;
}

unary : ℕ → String
unary zero = ""
unary (suc n) = String.◌∷◌ "1" (unary n)

count_unary : String → ℕ
count_unary String.[] = 0
count_unary (String.◌∷◌ c s) = suc (count_unary s)

count_unary-unary : (n : ℕ) → count_unary (unary n) ≡ n
unfolding unary count_unary
count_unary-unary zero = refl
count_unary-unary (suc n) = ap suc (count_unary-unary n)

unfoldable pub format_unary : ℤ → String
unfolding unary
format_unary (pos n) = String.◌∷◌ "+" (unary n)
format_unary (negsuc n) = String.◌∷◌ "-" (unary n)

unfoldable pub parse_unary : String → Result ℤ
unfolding count_unary
parse_unary String.[] = err "no time"
parse_unary (String.◌∷◌ c s) =
    if eqb (code c) b'+'
    then ok (pos (count_unary s))
    else if eqb (code c) b'-'
    then ok (negsuc (count_unary s))
    else err "no time"

pub parse_unary-format_unary : (t : ℤ) → parse_unary (format_unary t) ≡ ok t
unfolding parse_unary format_unary
parse_unary-format_unary (pos n) = ap (λ m. ok (pos m)) (count_unary-unary n)
parse_unary-format_unary (negsuc n) = ap (λ m. ok (negsuc m)) (count_unary-unary n)

abbrev unary_times : TimeFormat
unary_times = record { parse = parse_unary; format_nano = format_unary; show = format_unary }

abbrev pub memory : Db Table ClusterDb ℕ Test Test
memory = record {
  db_api = memory_api;
  expressions = tests;
  table = record { name = "clusters"; partition_key = "name"; search_key = "" };
  index = record { name = "kinds"; partition_key = "kind"; search_key = "name" };
  metrics = record { record_egress = λ _ t. t; record_error_cnt = λ _ t. t };
  time = unary_times;
}

found : (o : Option ClusterDb) (r : Option ClusterDb) → ok o ≡ ok r → r ≡ o
found o r e = cc

pub key_of_marshalled :
    (row i : ClusterDb) → ok row ≡ ok i → i.table_partition_key ≡ row.table_partition_key
key_of_marshalled row i e = cc

abbrev pub memory_laws : TableLaws memory
memory_laws = record {
  item_of = λ t k. lookup k t;
  key_of = λ r. r.table_partition_key;
  get_item_keeps = λ name k t. refl;
  put_item_lem = λ k r t e. lookup-insert r.table_partition_key k r t;
  delete_item_lem = λ name k t e. lookup-remove name k t;
  metrics_keep = λ t k w. refl;
  marshal_key = λ row i e. key_of_marshalled row i e;
}

-- Every read of the table in memory sees the last write.
pub memory_IsCurrent : (name : String) (t : Table) → IsCurrent memory_laws name t
memory_IsCurrent name t r e = found (lookup name t) r e

pub same_row : (row i : ClusterDb) → ok row ≡ ok i → ok i ≡ ok row
same_row row i e = cc

abbrev pub memory_times : TimeLaws memory
memory_times = record {
  format_lem = λ t _. parse_unary-format_unary t;
  unmarshal_lem = λ row c i p e. (row, c, same_row row i e, p, refl);
}

-- A cluster of this name, region, status and time of its last update.
abbrev pub cluster : String → String → String → String → Cluster
cluster name region status updated = record {
  meta = record {
    name = name;
    namespace = "cluster-registry";
    annotations = none;
    resource_version = "1";
    managed_fields = [];
    is_deleted = false;
  };
  spec = record empty_spec {
    name = name;
    region = region;
    status = status;
    last_updated = updated;
  };
}

abbrev pub row : ℤ → Cluster → ClusterDb
row t c = record {
  table_partition_key = c.spec.name;
  index_partition_key = "cluster";
  region = c.spec.region;
  environment = c.spec.environment;
  status = c.spec.status;
  last_updated_unix = t;
  cluster = some c;
}
