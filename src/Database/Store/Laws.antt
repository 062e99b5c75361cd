-- ===== src/Database/Store/Laws.antt =====
-- What a read, a write and a deletion of a cluster do to the table.
use cluster_registry.Prelude.{
  String, ◌==◌, ◌≡◌, refl, sym, ap, ◌∙◌, Option, none, some, Result, ok, err, if◌then◌else◌, ℤ,
  arith, Result-cases, inl, inr, eq_refl,
}
use cluster_registry.Registry.Cluster.{Cluster}
use cluster_registry.Database.Api.{Db, ClusterDb, unix}
use cluster_registry.Database.Store.{
  get_cluster, put_cluster, delete_cluster, decode_item, write_item, row_of, keep_registered_at,
  ignore_error, map_err,
}
use cluster_registry.Database.Store.Table.{TableLaws, IsCurrent}

map_err-ok {ℓ} :
    {A : Type ℓ} (f : String → String) (r : Result A) (a : A) → map_err f r ≡ ok a → r ≡ ok a
map_err-ok f (ok b) a e = e
map_err-ok f (err m) a e = cc

keep_registered_at-name :
    (old : Option Cluster) (c : Cluster) → (keep_registered_at old c).spec.name ≡ c.spec.name
keep_registered_at-name none c = refl
keep_registered_at-name (some old) c = refl

module _ {W Item Key Condition Expr : Type 0} (d : Db W Item Key Condition Expr)
    (l : TableLaws d) where
  open l use {item_of, key_of}

  -- Reading changes nothing in the table.
  pub get_cluster-keeps :
      (name k : String) (w : W) → item_of (get_cluster d name w).1 k ≡ item_of w k
  unfolding get_cluster
  get_cluster-keeps name k w = l.metrics_keep _ k _ ∙ l.get_item_keeps name k w

  -- A read that succeeds and sees the last write gives what the item under the name holds.
  pub get_cluster-decodes :
      (name : String) (w : W) (r : Option Cluster)
      → IsCurrent l name w
      → (get_cluster d name w).0 ≡ ok r
      → decode_item d name (item_of w name) ≡ ok r
  unfolding get_cluster
  get_cluster-decodes name w r current e =
      elim (Result-cases (d.db_api.get_item d.table.name name w).0) [
        | inl (o, p) ↦ rw (← current o p) (rw (p, get_cluster) at e)
        | inr (m, p) ↦ cc (rw (p, get_cluster) at e)
      ]

  pub decode_of :
      (name : String) (i : Item) (row : ClusterDb) (r : Option Cluster)
      → d.db_api.unmarshal_map i ≡ ok row
      → decode_item d name (some i) ≡ ok r
      → r ≡ row.cluster
  unfolding decode_item
  decode_of name i row r p e = ground (arith, rw (p, decode_item) at e)

  -- The cluster that a write stores: the caller's, registered when the one found was.
  abbrev pub stored : Cluster → W → Cluster
  stored c w = keep_registered_at (ignore_error (get_cluster d c.spec.name w).0) c

  -- The items under all other names are as they were.
  abbrev pub IsFramed : String → W → W → Type 0
  IsFramed name w w' =
      (k : String) → item_of w' k ≡ (if name == k then item_of w' name else item_of w k)

  write_item-writes :
      (name k : String) (i : Item) (w : W)
      → (write_item d name (ok i) w).0 ≡ ok tt
      → item_of (write_item d name (ok i) w).1 k ≡ (if key_of i == k then some i else item_of w k)
  unfolding write_item
  write_item-writes name k i w e =
      l.metrics_keep _ k _
      ∙ l.put_item_lem k i w (map_err-ok _ (d.db_api.put_item d.table.name i w).0 tt e)

  put_cluster_step :
      (c : Cluster) (w : W) (t : ℤ) (i : Item)
      → d.time.parse c.spec.last_updated ≡ ok t
      → d.db_api.marshal_map (row_of d (unix t) (stored c w)) ≡ ok i
      → put_cluster d c w ≡ write_item d c.spec.name (ok i) (get_cluster d c.spec.name w).1
  unfolding put_cluster
  put_cluster_step c w t i p q = rw (p, put_cluster, q) refl

  written :
      (c : Cluster) (w : W) (t : ℤ) (i : Item)
      → d.time.parse c.spec.last_updated ≡ ok t
      → d.db_api.marshal_map (row_of d (unix t) (stored c w)) ≡ ok i
      → (put_cluster d c w).0 ≡ ok tt
      → (t : ℤ) × (i : Item) × (d.time.parse c.spec.last_updated ≡ ok t)
        × (d.db_api.marshal_map (row_of d (unix t) (stored c w)) ≡ ok i)
        × ((k : String)
            → item_of (put_cluster d c w).1 k ≡ (if c.spec.name == k then some i else item_of w k))
  written c w t i p q e =
      let step = put_cluster_step c w t i p q in
      let w1 = (get_cluster d c.spec.name w).1 in
      (
        t,
        i,
        p,
        q,
        λ k. rw step (
            write_item-writes c.spec.name k i w1 (rw step at e)
            ∙ rw
                (
                  l.marshal_key _ i q
                      ∙ keep_registered_at-name (ignore_error (get_cluster d c.spec.name w).0) c,
                  get_cluster-keeps c.spec.name k w,
                )
                refl),
      )

  -- A successful write has parsed the time of the update, and the table holds the row of that
  -- cluster under its name; every other name has what it had.
  pub put_cluster-writes :
      (c : Cluster) (w : W)
      → (put_cluster d c w).0 ≡ ok tt
      → (t : ℤ) × (i : Item) × (d.time.parse c.spec.last_updated ≡ ok t)
        × (d.db_api.marshal_map (row_of d (unix t) (stored c w)) ≡ ok i)
        × ((k : String)
            → item_of (put_cluster d c w).1 k ≡ (if c.spec.name == k then some i else item_of w k))
  unfolding put_cluster
  put_cluster-writes c w e = elim (Result-cases (d.time.parse c.spec.last_updated)) [
    | inr (m, p) ↦ cc (rw (p, put_cluster) at e)
    | inl (t, p) ↦ elim (Result-cases (d.db_api.marshal_map (row_of d (unix t) (stored c w)))) [
      | inr (m, q) ↦ cc (rw (p, put_cluster, q) at e)
      | inl (i, q) ↦ written c w t i p q e
    ]
  ]

  -- What unmarshals again to the row that was marshalled.
  abbrev pub RoundTrips : ClusterDb → Type 0
  RoundTrips row = (i : Item) → d.db_api.marshal_map row ≡ ok i → d.db_api.unmarshal_map i ≡ ok row

  -- Behind a successful PutCluster the row that the table holds under the name decodes, as
  -- GetCluster decodes what it reads, to the cluster that was written, in which only the time of
  -- registration may differ from the caller's, and under every other name the table holds what it
  -- held, where the row that is written survives the marshaller.
  pub decode_item-put_cluster :
      (c : Cluster) (w : W)
      → ((t : ℤ) → RoundTrips (row_of d (unix t) (stored c w)))
      → (put_cluster d c w).0 ≡ ok tt
      → (decode_item d c.spec.name (item_of (put_cluster d c w).1 c.spec.name)
          ≡ ok (some (stored c w)))
        × IsFramed c.spec.name w (put_cluster d c w).1
  unfolding decode_item
  decode_item-put_cluster c w trip e =
      let (t, i, p, q, after) = put_cluster-writes c w e in
      let there : item_of (put_cluster d c w).1 c.spec.name ≡ some i =
        rw (after c.spec.name, eq_refl) refl in
      (
        rw (there, decode_item, trip t i q) refl,
        λ k. after k ∙ ap (λ o. if c.spec.name == k then o else item_of w k) (sym there),
      )

  -- Behind a successful PutCluster whose read gave a cluster, the row that the table holds under
  -- the name decodes to a cluster with the time at which that one was registered, where the row
  -- that is written survives the marshaller. The read need not see the last write.
  pub registered_at-put_cluster :
      (c old : Cluster) (w : W)
      → ((t : ℤ) → RoundTrips (row_of d (unix t) (stored c w)))
      → (get_cluster d c.spec.name w).0 ≡ ok (some old)
      → (put_cluster d c w).0 ≡ ok tt
      → (new : Cluster) × (decode_item d c.spec.name (item_of (put_cluster d c w).1 c.spec.name)
          ≡ ok (some new))
        × (new.spec.registered_at ≡ old.spec.registered_at)
  registered_at-put_cluster c old w trip before e =
      (stored c w, (decode_item-put_cluster c w trip e).0, rw before refl)

  -- A successful deletion removes the item under the name and no other.
  delete_cluster-removes :
      (name k : String) (w : W)
      → (delete_cluster d name w).0 ≡ ok tt
      → item_of (delete_cluster d name w).1 k ≡ (if name == k then none else item_of w k)
  unfolding delete_cluster
  delete_cluster-removes name k w e =
      l.metrics_keep _ k _
      ∙ l.delete_item_lem name k w (map_err-ok _ (d.db_api.delete_item d.table.name name w).0 tt e)
