-- ===== src/Events/Arrival.antt =====
-- What is in the database behind an update: pkg/apiserver/event/handler.go.
use cluster_registry.Prelude.{
  String, ◌≡◌, refl, sym, ap, ◌∙◌, ◌⊎◌, inl, inr, true, Bool-cases, Option, none, some, Result, ok,
  err, Result-cases, ℤ, ◌==◌, if◌then◌else◌, eq_refl, ltb_ℤ,
}
use cluster_registry.Registry.Cluster.{Cluster}
use cluster_registry.Database.Api.{Db, unix}
use cluster_registry.Database.Store.{get_cluster, keep_registered_at, row_of, ignore_error}
use cluster_registry.Database.Store.Table.{TableLaws}
use cluster_registry.Database.Store.Laws.{get_cluster-keeps, put_cluster-writes, IsFramed}
use cluster_registry.Events.{put_at, with_last_updated, update_read, update_cluster}

-- The cluster, registered at this time.
abbrev pub with_registered_at : String → Cluster → Cluster
with_registered_at time c = record c { spec = record (c.spec) { registered_at = time } }

keep_registered_at-with_registered_at :
    (old : Option Cluster) (c : Cluster)
    → (time : String) × (keep_registered_at old c ≡ with_registered_at time c)
keep_registered_at-with_registered_at none c = (c.spec.registered_at, refl)
keep_registered_at-with_registered_at (some old) c = (old.spec.registered_at, refl)

module _ {W Item Key Condition Expr : Type 0} (d : Db W Item Key Condition Expr) (l : TableLaws d)
    (unmarshal_cluster : String → Result Cluster) where
  -- This is the cluster of the update, but for the time of its registration.
  abbrev pub Arrived : ℤ → Cluster → Cluster → Type 0
  Arrived t c found =
      (time : String) × (found
        ≡ with_registered_at time (with_last_updated (d.time.format_nano t) c))

  -- This is the cluster that a read gives, and its time lies behind that of the update.
  abbrev pub Stale : ℤ → Cluster → W → Cluster → Type 0
  Stale t c w found =
      ((get_cluster d c.spec.name w).0 ≡ ok (some found))
      × (told : ℤ) × (d.time.parse found.spec.last_updated ≡ ok told)
      × (ltb_ℤ t told ≡ true)

  -- The table holds, under its name, a row of the cluster of the update, and else what it held.
  abbrev pub IsStored : ℤ → Cluster → W → W → Type 0
  IsStored t c w w' =
      (time : String) × (seconds : ℤ) × (i : Item) × (d.db_api.marshal_map
          (row_of d seconds (with_registered_at time (with_last_updated (d.time.format_nano t) c)))
        ≡ ok i)
      × (l.item_of w' c.spec.name ≡ some i)
      × IsFramed d l c.spec.name w w'

  -- The table is as it was, and the read of the update gave a cluster with a later time.
  abbrev pub IsKept : ℤ → Cluster → W → W → Type 0
  IsKept t c w w' =
      (seen : Cluster) × Stale t c w seen × ((k : String) → l.item_of w' k ≡ l.item_of w k)

  put_at-IsStored :
      (t : ℤ) (c : Cluster) (w w1 : W)
      → ((k : String) → l.item_of w1 k ≡ l.item_of w k)
      → (put_at d unmarshal_cluster t c w1).0 ≡ ok tt
      → IsStored t c w (put_at d unmarshal_cluster t c w1).1
  put_at-IsStored t c w w1 same put =
      let c' = with_last_updated (d.time.format_nano t) c in
      let (u, i, p, q, after) = put_cluster-writes d l c' w1 put in
      let (time, registered) =
        keep_registered_at-with_registered_at (ignore_error (get_cluster d c.spec.name w1).0) c' in
      let there : l.item_of (put_at d unmarshal_cluster t c w1).1 c.spec.name ≡ some i =
        rw (after c.spec.name, eq_refl) refl in
      (
        time,
        unix u,
        i,
        ap (λ x. d.db_api.marshal_map (row_of d (unix u) x)) (sym registered) ∙ q,
        there,
        λ k.
            after k
            ∙ rw (same k) (ap (λ o. if c.spec.name == k then o else l.item_of w k) (sym there)),
      )

  update_read-IsStored :
      (t : ℤ) (c : Cluster) (w : W) (first : Result (Option Cluster))
      → (get_cluster d c.spec.name w).0 ≡ first
      → (update_read d unmarshal_cluster t c first (get_cluster d c.spec.name w).1).0 ≡ ok tt
      → IsStored t c w (update_read d unmarshal_cluster t c first (get_cluster d c.spec.name w).1).1
        ⊎ IsKept t c w (update_read d unmarshal_cluster t c first (get_cluster d c.spec.name w).1).1
  unfolding update_read
  update_read-IsStored t c w (err e) first done = cc
  update_read-IsStored t c w (ok none) first done = inl (
      put_at-IsStored t c w (get_cluster d c.spec.name w).1
        (λ k. get_cluster-keeps d l c.spec.name k w) done)
  update_read-IsStored t c w (ok (some old)) first done =
      elim (Result-cases (d.time.parse old.spec.last_updated)) [
        | inr (e, p) ↦
            rw (p, update_read)
              (inl (
                put_at-IsStored t c w (get_cluster d c.spec.name w).1
                  (λ k. get_cluster-keeps d l c.spec.name k w) (rw (p, update_read) at done)))
        | inl (told, p) ↦ elim (Bool-cases (ltb_ℤ t told)) [
          | inr q ↦
              rw (p, update_read, q)
                (inl (
                  put_at-IsStored t c w (get_cluster d c.spec.name w).1
                    (λ k. get_cluster-keeps d l c.spec.name k w) (rw (p, update_read, q) at done)))
          | inl q ↦
              rw (p, update_read, q)
                (inr (old, (first, told, p, q), λ k. get_cluster-keeps d l c.spec.name k w))
        ]
      ]

  -- An update that succeeds has written its cluster, or has seen a cluster with a later time.
  pub update_cluster-IsStored :
      (t : ℤ) (c : Cluster) (w : W)
      → (update_cluster d unmarshal_cluster t c w).0 ≡ ok tt
      → IsStored t c w (update_cluster d unmarshal_cluster t c w).1
        ⊎ IsKept t c w (update_cluster d unmarshal_cluster t c w).1
  unfolding update_cluster
  update_cluster-IsStored t c w done =
      update_read-IsStored t c w (get_cluster d c.spec.name w).0 refl done
