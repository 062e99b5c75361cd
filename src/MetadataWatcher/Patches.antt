-- ===== src/MetadataWatcher/Patches.antt =====
-- Which patches reach the clusters: pkg/client/controllers/servicemetadatawatcher_controller.go,
-- `Reconcile` and `applyServiceMetadataPatches`.
use cluster_registry.Prelude.{
  String, ◌≡◌, refl, sym, ap, ◌∙◌, false, List, [], ◌∷◌, ◌++◌, ok, err, Act, Outcome, returned,
  panicked, out_of_fuel, then_return,
}
use cluster_registry.Registry.Cluster.{Cluster}
use cluster_registry.Kubernetes.{fetched, Reconciled, finished}
use cluster_registry.MetadataWatcher.Resource.{
  WatchedField, WatchedServiceObject, ServiceMetadataWatcher, WatcherReconciler,
}
use cluster_registry.MetadataWatcher.Watcher.{
  Gathered, ended, patches_of, get_service_id, patches_of_field, patches_of_fields, gather_object,
  gather, patch_each, patch_clusters, apply_service_metadata_patches, apply_gathered,
  reconcile_fetched, with_service_id, start, gathered_before, after_object,
}

then_return_nothing :
    (o : Outcome (List String)) → then_return o (λ rest. returned ([] ++ rest)) ≡ o
then_return_nothing (returned p) = refl
then_return_nothing panicked = refl
then_return_nothing out_of_fuel = refl

module _ {W Value Object Float : Type 0} (r : WatcherReconciler W Value Object Float) where
  -- A field that gives no patch, and does not panic, leaves the patches of the fields around it as
  -- they are.
  patches_of_fields-skipped :
      (service_id namespace : String) (obj : Value) (before after : List WatchedField)
      (field : WatchedField)
      → patches_of_field r service_id namespace obj field ≡ returned []
      → patches_of_fields r service_id namespace obj (before ++ field ∷ after)
        ≡ patches_of_fields r service_id namespace obj (before ++ after)
  unfolding patches_of_fields
  patches_of_fields-skipped service_id namespace obj [] after field skipped =
      rw (skipped, patches_of_fields)
        (then_return_nothing (patches_of_fields r service_id namespace obj after))
  patches_of_fields-skipped service_id namespace obj (f ∷ before) after field skipped =
      ap
        (λ rest.
          then_return (patches_of_field r service_id namespace obj f)
            λ first. then_return rest λ others. returned (first ++ others))
        (patches_of_fields-skipped service_id namespace obj before after field skipped)

  -- If the loop gave patches, so did this object and the rest of the loop.
  gathered_before-patches_of :
      (first : List String) (others : Outcome Gathered) {patches : List String}
      → gathered_before r first others ≡ returned (patches_of patches)
      → (rest : List String) × (others ≡ returned (patches_of rest))
  gathered_before-patches_of first (returned (patches_of rest)) e = (rest, refl)
  gathered_before-patches_of first (returned (ended x)) e = cc
  gathered_before-patches_of first panicked e = cc
  gathered_before-patches_of first out_of_fuel e = cc

  after_object-patches_of :
      (o : Outcome Gathered) (rest : Act W (Outcome Gathered)) (w w' : W) {patches : List String}
      → after_object r o rest w ≡ (returned (patches_of patches), w')
      → (p : List String) × (q : List String) × (o ≡ returned (patches_of p))
        × (rest w ≡ (returned (patches_of q), w'))
  after_object-patches_of (returned (patches_of p)) rest w w' e =
      let (q, same) = gathered_before-patches_of p (rest w).0 (ap (λ x. x.0) e) in
      (p, q, refl, rw (sym same, sym (ap (λ x. x.1) e)) refl)
  after_object-patches_of (returned (ended x)) rest w w' e = let left = ap (λ y. y.0) e in cc
  after_object-patches_of panicked rest w w' e = let left = ap (λ y. y.0) e in cc
  after_object-patches_of out_of_fuel rest w w' e = let left = ap (λ y. y.0) e in cc

  -- An object that ends the loop ends it whatever the objects before it gave.
  gather-ended :
      (service_id namespace : String) (before after : List WatchedServiceObject)
      (bad : WatchedServiceObject) (patches : List String) (result : Reconciled) (w w1 w2 : W)
      → gather r service_id namespace before w ≡ (returned (patches_of patches), w1)
      → gather_object r service_id namespace bad w1 ≡ (returned (ended result), w2)
      → gather r service_id namespace (before ++ bad ∷ after) w ≡ (returned (ended result), w2)
  unfolding gather
  gather-ended service_id namespace [] after bad patches result w w1 w2 good stops =
      ap (λ o. after_object r o.0 (λ v. gather r service_id namespace after v) o.1)
        (ap (gather_object r service_id namespace bad) (ap (λ x. x.1) good) ∙ stops)
  gather-ended service_id namespace (wso ∷ before) after bad patches result w w1 w2 good stops =
      let first = gather_object r service_id namespace wso w in
      let (p, q, same, rest) =
        after_object-patches_of first.0 (λ v. gather r service_id namespace before v) first.1 w1
          good in
      ap
        (λ o.
          after_object r o (λ v. gather r service_id namespace (before ++ bad ∷ after) v) first.1)
        same
      ∙ ap (λ x. (gathered_before r p x.0, x.1))
          (gather-ended service_id namespace before after bad q result first.1 w1 w2 rest stops)

  -- A watcher with an object asks for the service.
  reconcile_fetched-objects :
      (watcher : ServiceMetadataWatcher) (before after : List WatchedServiceObject)
      (bad : WatchedServiceObject) (w : W)
      → watcher.deleted ≡ false
      → watcher.watched_service_objects ≡ before ++ bad ∷ after
      → reconcile_fetched r (fetched watcher) w ≡ (
          let (service_id, w') = get_service_id r watcher.namespace w in
          with_service_id r watcher service_id w')
  unfolding reconcile_fetched start
  reconcile_fetched-objects watcher [] after bad w live objects =
      ap (λ d. start r d watcher.watched_service_objects watcher w) live
      ∙ ap (λ os. start r false os watcher w) objects
  reconcile_fetched-objects watcher (wso ∷ before) after bad w live objects =
      ap (λ d. start r d watcher.watched_service_objects watcher w) live
      ∙ ap (λ os. start r false os watcher w) objects

  -- An object that ends the loop over the watched objects of a watcher ends the reconciliation with
  -- its result, and in the world behind the reads: the patches that the objects before it gave are
  -- not applied.
  pub reconcile_fetched-ended :
      (watcher : ServiceMetadataWatcher) (service_id : String)
      (before after : List WatchedServiceObject) (bad : WatchedServiceObject)
      (patches : List String) (result : Reconciled) (w w1 w2 w3 : W)
      → watcher.deleted ≡ false
      → watcher.watched_service_objects ≡ before ++ bad ∷ after
      → get_service_id r watcher.namespace w ≡ (ok service_id, w1)
      → gather r service_id watcher.namespace before w1 ≡ (returned (patches_of patches), w2)
      → gather_object r service_id watcher.namespace bad w2 ≡ (returned (ended result), w3)
      → reconcile_fetched r (fetched watcher) w ≡ (returned result, w3)
  unfolding reconcile_fetched with_service_id apply_gathered
  reconcile_fetched-ended watcher service_id before after bad patches result w w1 w2 w3 live objects
        id good stops =
      reconcile_fetched-objects watcher before after bad w live objects
      ∙ ap (λ x. with_service_id r watcher x.0 x.1) id
      ∙ ap (λ g. apply_gathered r g.0 g.1)
          (ap (λ os. gather r service_id watcher.namespace os w1) objects
            ∙ gather-ended service_id watcher.namespace before after bad patches result w1 w2 w3
                good stops)

  -- No patch is accepted, and none changes the world.
  abbrev Refuses : Type 0
  Refuses = (c : Cluster) (p : String) (w : W) → (e : String) × (r.patch c p w ≡ (err e, w))

  patch_each-Refuses :
      Refuses → (c : Cluster) (patches : List String) (w : W) → patch_each r c patches w ≡ w
  unfolding patch_each
  patch_each-Refuses refuses c [] w = refl
  patch_each-Refuses refuses c (p ∷ patches) w =
      let (e, no_patch) = refuses c p w in
      rw (patch_each, no_patch) (patch_each-Refuses refuses c patches w)

  patch_clusters-Refuses :
      Refuses
      → (clusters : List Cluster) (patches : List String) (w : W)
      → patch_clusters r clusters patches w ≡ w
  unfolding patch_clusters
  patch_clusters-Refuses refuses [] patches w = refl
  patch_clusters-Refuses refuses (c ∷ clusters) patches w =
      rw (patch_clusters, patch_each-Refuses refuses c patches w)
        (patch_clusters-Refuses refuses clusters patches w)

  -- Where no patch is accepted, the reconciliation ends as if each had been, and is not tried
  -- again.
  apply_gathered-Refuses :
      Refuses
      → (patches : List String) (clusters : List Cluster) (w w' : W)
      → r.clusters_in "cluster-registry" w ≡ (ok clusters, w')
      → (p : String)
      → apply_gathered r (returned (patches_of (p ∷ patches))) w ≡ (returned finished, w')
  unfolding apply_gathered apply_service_metadata_patches
  apply_gathered-Refuses refuses patches clusters w w' listed p =
      rw
        (
          listed,
          apply_service_metadata_patches,
          patch_clusters-Refuses refuses clusters (p ∷ patches)
              (r.clusters_in "cluster-registry" w).1,
        )
        (ap (λ x. (returned finished, x.1)) listed)
