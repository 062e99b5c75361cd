-- ===== src/ClusterController/Hashes.antt =====
-- When the filter of the cluster controller lets an event pass:
-- pkg/client/controllers/cluster_controller.go, `hasDifferentHash`.
use cluster_registry.Prelude.{
  String, ◌≡◌, refl, ap, ◌∙◌, eq_refl, not, false, Option, none, some, [], Dict, insert, remove,
  lookup-insert, lookup-remove, remove-insert, remove_comm, remove_idem, get_or,
}
use cluster_registry.Registry.Cluster.{Cluster}
use cluster_registry.ClusterController.{
  ClusterReconciler, hash_annotation, skip_cache_invalidation_annotation, hashed_part, hash_cluster,
  annotated, with_annotations, without_hashes, has_different_hash,
}

-- The encoder leaves an empty map of annotations out, as it does a nil one.
abbrev OmitsEmpty : {W : Type 0} → ClusterReconciler W → Type 0
OmitsEmpty r =
    (c : Cluster)
    → r.digest (with_annotations [] c)
      ≡ r.digest (record c { meta = record (c.meta) { annotations = none } })

-- What the hash and the request for the cached lists leave of the annotations.
kept_annotations :
    (h : String) (m : Dict String)
    → remove skip_cache_invalidation_annotation (
        remove hash_annotation
          (remove skip_cache_invalidation_annotation (insert hash_annotation h m)))
      ≡ remove skip_cache_invalidation_annotation (remove hash_annotation m)
kept_annotations h m =
    rw
      (
        remove_comm hash_annotation skip_cache_invalidation_annotation (insert hash_annotation h m),
        remove_idem,
        remove-insert,
      )
      refl

module _ {W : Type 0} (r : ClusterReconciler W) (omits : OmitsEmpty r) where
  -- The part that is hashed, with these annotations.
  abbrev part : Cluster → Option (Dict String) → Cluster
  part c annotations = record c {
    meta = record (c.meta) {
      annotations = annotations;
      resource_version = "";
      managed_fields = [];
    };
  }

  digest-part :
      (c : Cluster) (h : String) (annotations : Option (Dict String))
      → r.digest (
          part c (
            some (
              remove skip_cache_invalidation_annotation (
                remove hash_annotation (
                  remove skip_cache_invalidation_annotation
                    (insert hash_annotation h (get_or annotations [])))))))
        ≡ r.digest (part c (without_hashes annotations))
  unfolding remove
  digest-part c h none =
      ap (λ m. r.digest (part c (some m))) (kept_annotations h []) ∙ omits (part c none)
  digest-part c h (some m) = ap (λ m. r.digest (part c (some m))) (kept_annotations h m)

  hash_cluster-annotated : (c : Cluster) → hash_cluster r (annotated r c) ≡ hash_cluster r c
  unfolding hash_cluster annotated hashed_part
  hash_cluster-annotated c = digest-part c (hash_cluster r c) c.meta.annotations

  -- The cluster as the controller annotates it has the hash that the filter of the events compares
  -- it with, whatever its annotations were, for an encoder that leaves out an empty map of
  -- annotations.
  pub has_different_hash-annotated : (c : Cluster) → has_different_hash r (annotated r c) ≡ false
  unfolding has_different_hash annotated
  has_different_hash-annotated c =
      rw (hash_cluster-annotated c, lookup-remove, lookup-insert)
        (ap not (eq_refl (hash_cluster r c)))
