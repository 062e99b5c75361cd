-- ===== src/Events/Stamps.antt =====
-- The time of the last update of a cluster in the database: what a write makes of it, and what a
-- read shows (pkg/database/database.go, pkg/apiserver/event/handler.go).
use cluster_registry.Prelude.{
  String, ◌==◌, ◌≡◌, refl, ap, sym, ◌∙◌, false, Option, none, some, Result, ok, err, ℤ, wrap_int,
  arith, eq_refl,
}
use cluster_registry.Registry.Cluster.{Cluster}
use cluster_registry.Database.Api.{Db, ClusterDb, unix}
use cluster_registry.Database.Store.{
  get_cluster, put_cluster, decode_item, row_of, keep_registered_at, ignore_error,
}
use cluster_registry.Database.Store.Table.{TableLaws, IsCurrent}
use cluster_registry.Database.Store.Laws.{
  get_cluster-keeps, get_cluster-decodes, put_cluster-writes, stored,
}

-- What the update relies on: a time of 64 bits survives its format, and a row that is marshalled
-- unmarshals to one whose cluster has the same time of its last update.
pub record TimeLaws {W Item Key Condition Expr : Type 0} (d : Db W Item Key Condition Expr)
    : Type 0 where
  pub format_lem : (t : ℤ) → wrap_int t ≡ t → d.time.parse (d.time.format_nano t) ≡ ok t
  pub unmarshal_lem :
      (row : ClusterDb) (c : Cluster) (i : Item)
      → row.cluster ≡ some c
      → d.db_api.marshal_map row ≡ ok i
      → (row' : ClusterDb) × (c' : Cluster) × (d.db_api.unmarshal_map i ≡ ok row')
        × (row'.cluster ≡ some c')
        × (c'.spec.last_updated ≡ c.spec.last_updated)

keep_registered_at-last_updated :
    (old : Option Cluster) (c : Cluster)
    → (keep_registered_at old c).spec.last_updated ≡ c.spec.last_updated
keep_registered_at-last_updated none c = refl
keep_registered_at-last_updated (some old) c = refl

abbrev last_updated_of : Option Cluster → String
last_updated_of none = ""
last_updated_of (some c) = c.spec.last_updated

module _ {W Item Key Condition Expr : Type 0} (d : Db W Item Key Condition Expr) (l : TableLaws d)
    (tl : TimeLaws d) where
  open l use {item_of, key_of}

  abbrev parsed : Result ℤ → Option ℤ
  parsed (ok t) = some t
  parsed (err e) = none

  abbrev time_of : Result (Option Cluster) → Option ℤ
  time_of (ok none) = none
  time_of (ok (some c)) = parsed (d.time.parse c.spec.last_updated)
  time_of (err e) = none

  -- The time of the last update of the cluster in the table under a name.
  abbrev pub stamp : W → String → Option ℤ
  stamp w k = time_of (decode_item d k (item_of w k))

  pub stamp-get_cluster : (name k : String) (w : W) → stamp (get_cluster d name w).1 k ≡ stamp w k
  stamp-get_cluster name k w = rw (get_cluster-keeps d l name k w) refl

  stamp_of_item :
      (k : String) (w : W) (i : Item) (row : ClusterDb) (c : Cluster)
      → item_of w k ≡ some i
      → d.db_api.unmarshal_map i ≡ ok row
      → row.cluster ≡ some c
      → stamp w k ≡ parsed (d.time.parse c.spec.last_updated)
  unfolding decode_item
  stamp_of_item k w i row c p q e = rw (p, decode_item, q, e) refl

  pub stamp-put_cluster :
      (c : Cluster) (w : W) (t : ℤ)
      → d.time.parse c.spec.last_updated ≡ ok t
      → (put_cluster d c w).0 ≡ ok tt
      → stamp (put_cluster d c w).1 c.spec.name ≡ some t
  stamp-put_cluster c w t p e =
      let (u, i, q, marshalled, after) = put_cluster-writes d l c w e in
      let (row, c', decoded, present, same) =
        tl.unmarshal_lem (row_of d (unix u) (stored d l c w)) (stored d l c w) i refl marshalled in
      let there : item_of (put_cluster d c w).1 c.spec.name ≡ some i =
        rw (after c.spec.name, eq_refl) refl in
      stamp_of_item c.spec.name (put_cluster d c w).1 i row c' there decoded present
      ∙ rw
          (
            same ∙ keep_registered_at-last_updated (ignore_error (get_cluster d c.spec.name w).0) c,
            p,
          )
          refl

  pub stamp-put_cluster_ne :
      (c : Cluster) (w : W) (k : String)
      → (c.spec.name == k) ≡ false
      → (put_cluster d c w).0 ≡ ok tt
      → stamp (put_cluster d c w).1 k ≡ stamp w k
  stamp-put_cluster_ne c w k ne e =
      let (u, i, q, marshalled, after) = put_cluster-writes d l c w e in
      let same : item_of (put_cluster d c w).1 k ≡ item_of w k = rw (after k, ne) refl in
      rw same refl

  pub stamp_of_read :
      (name : String) (w : W) (r : Option Cluster) (told : ℤ)
      → IsCurrent l name w
      → (get_cluster d name w).0 ≡ ok r
      → stamp w name ≡ some told
      → (old : Cluster) × (r ≡ some old) × (d.time.parse old.spec.last_updated ≡ ok told)
  stamp_of_read name w r told current e before =
      old_found r (sym (ap time_of (get_cluster-decodes d l name w r current e)) ∙ before)
    where
      parsed-eq_some : (p : Result ℤ) → parsed p ≡ some told → p ≡ ok told
      parsed-eq_some (ok t) h = ground (arith, h)
      parsed-eq_some (err m) h = cc

      old_found :
          (o : Option Cluster)
          → time_of (ok o) ≡ some told
          → (old : Cluster) × (o ≡ some old) × (d.time.parse old.spec.last_updated ≡ ok told)
      old_found none h = cc
      old_found (some old) h = (old, refl, parsed-eq_some (d.time.parse old.spec.last_updated) h)

  pub read_time :
      (c old : Cluster) (w : W) (told : ℤ)
      → IsCurrent l c.spec.name w
      → (get_cluster d c.spec.name w).0 ≡ ok (some old)
      → stamp w c.spec.name ≡ some told
      → d.time.parse old.spec.last_updated ≡ ok told
  read_time c old w told current read before =
      let (other, same, q) = stamp_of_read c.spec.name w (some old) told current read before in
      rw (← ap last_updated_of same) at q
