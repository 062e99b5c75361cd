-- ===== src/SyncManager/Settling.antt =====
-- What a ClusterSync comes to rest at: pkg/sync/manager/controller.go, `Reconcile`.
use cluster_registry.Prelude.{
  String, ◌≡◌, refl, ap, ◌∙◌, eq_refl, not, true, false, some, List, [], ◌∷◌, ◌++◌, ok, err,
  Result-cases, inl, inr,
}
use cluster_registry.Registry.Cluster.{ClusterSpec}
use cluster_registry.Kubernetes.{finished}
use cluster_registry.SyncManager.Parser.{WatchedResource, parse, diff}
use cluster_registry.SyncManager.Controller.{
  ClusterSync, SyncController, errors, parse_all, parse_instance, conclude, reconcile_live,
  enqueue_data, stamped, with_data, failed_sync, on_saved, on_enqueued, should_enqueue_data,
  has_different_hash, is_last_sync_successful,
}

module _ {W Object Selector Matcher : Type 0} (c : SyncController W Object Selector Matcher) where
  has_different_hash-with_data :
      (sync : ClusterSync Selector) (text : String)
      → sync.synced_data_hash ≡ some (c.digest (some text))
      → has_different_hash c (with_data c sync text) ≡ false
  unfolding has_different_hash
  has_different_hash-with_data sync text held = rw held (ap not (eq_refl (c.digest (some text))))

  reconcile_live-conclude :
      (sync : ClusterSync Selector) (parsed : ClusterSpec × List String) (w w' : W)
      → parse_instance c sync w ≡ (parsed, w')
      → reconcile_live c sync w ≡ conclude c sync parsed w'
  unfolding reconcile_live
  reconcile_live-conclude sync parsed w w' e = ap (λ r. conclude c sync r.0 r.1) e

  conclude-settled :
      (sync : ClusterSync Selector) (buffer : ClusterSpec) (text : String) (w : W)
      → diff c.parser buffer ≡ ok text
      → sync.synced_data_hash ≡ some (c.digest (some text))
      → conclude c sync (buffer, []) w ≡ (finished, w)
  unfolding conclude should_enqueue_data is_last_sync_successful
  conclude-settled sync buffer text w good held =
      rw (good, conclude, has_different_hash-with_data sync text held) refl

  conclude-lost :
      (sync : ClusterSync Selector) (buffer : ClusterSpec) (text e : String) (w w' : W)
      → diff c.parser buffer ≡ ok text
      → has_different_hash c (with_data c sync text) ≡ true
      → enqueue_data c (stamped c (with_data c sync text) (c.now w).0) (c.now w).1 ≡ (err e, w')
      → conclude c sync (buffer, []) w ≡ (
          let saved = stamped c (with_data c sync text) (c.now w).0 in
          let (u, v) = c.update_status saved (c.count errors sync.name w') in
          on_saved c (λ v. v) sync.name u v)
  unfolding conclude should_enqueue_data is_last_sync_successful on_enqueued
  conclude-lost sync buffer text e w w' good changed lost =
      rw (good, conclude, changed, lost, on_enqueued) refl

  -- An instance that holds the hash of the data that its resources give is left alone: the world is
  -- changed by the parse alone.
  reconcile_live-settled :
      (sync : ClusterSync Selector) (buffer : ClusterSpec) (text : String) (w w' : W)
      → parse_instance c sync w ≡ ((buffer, []), w')
      → diff c.parser buffer ≡ ok text
      → sync.synced_data_hash ≡ some (c.digest (some text))
      → reconcile_live c sync w ≡ (finished, w')
  reconcile_live-settled sync buffer text w w' parses good held =
      reconcile_live-conclude sync (buffer, []) w w' parses
      ∙ conclude-settled sync buffer text w' good held

  -- Where the resources of a ClusterSync are parsed without an error into data whose hash is new,
  -- and the message with that data cannot be sent, the reconciliation saves the instance with the
  -- new hash all the same; and wherever the resources of the saved instance give the same data, its
  -- reconciliation ends with no message, no saved status and no change of the world but those of
  -- the parse.
  pub reconcile_live-lost :
      (sync : ClusterSync Selector) (buffer : ClusterSpec) (text time e : String) (w w1 w2 w3 : W)
      → parse_instance c sync w ≡ ((buffer, []), w1)
      → diff c.parser buffer ≡ ok text
      → has_different_hash c (with_data c sync text) ≡ true
      → c.now w1 ≡ (time, w2)
      → enqueue_data c (stamped c (with_data c sync text) time) w2 ≡ (err e, w3)
      → (reconcile_live c sync w ≡ (
          let saved = stamped c (with_data c sync text) time in
          let (u, w4) = c.update_status saved (c.count errors sync.name w3) in
          on_saved c (λ v. v) sync.name u w4))
        × ((v v' : W)
            → parse_instance c (stamped c (with_data c sync text) time) v ≡ ((buffer, []), v')
            → reconcile_live c (stamped c (with_data c sync text) time) v ≡ (finished, v'))
  reconcile_live-lost sync buffer text time e w w1 w2 w3 parses good changed clock lost = (
    reconcile_live-conclude sync (buffer, []) w w1 parses
        ∙ conclude-lost sync buffer text e w1 w3 good changed
            (ap (λ n. enqueue_data c (stamped c (with_data c sync text) n.0) n.1) clock ∙ lost)
        ∙ ap
            (λ n.
              let saved = stamped c (with_data c sync text) n.0 in
              let (u, w4) = c.update_status saved (c.count errors sync.name w3) in
              on_saved c (λ v. v) sync.name u w4)
            clock,
    λ v v' again.
        reconcile_live-settled (stamped c (with_data c sync text) time) buffer text v v' again good
          refl,
  )

  -- The loop over the resources only adds errors at the end.
  parse_all-first_error :
      (resources : List (WatchedResource Selector)) (buffer : ClusterSpec) (e : String)
      (errs : List String) (w : W)
      → (last : ClusterSpec) × (more : List String) × (w' : W) × (parse_all c resources buffer
            (e ∷ errs)
            w
          ≡ ((last, e ∷ more), w'))
  unfolding parse_all
  parse_all-first_error [] buffer e errs w = (buffer, errs, w, refl)
  parse_all-first_error (res ∷ resources) buffer e errs w =
      elim (Result-cases (parse c.parser buffer res w).0) [
        | inl (next, p) ↦
            rw (p, parse_all)
              (parse_all-first_error resources next e errs (parse c.parser buffer res w).1)
        | inr (e', p) ↦
            rw (p, parse_all)
              (parse_all-first_error resources buffer e (errs ++ e' ∷ [])
                (parse c.parser buffer res w).1)
      ]

  -- Where the initial data cannot be decoded, nothing is sent, whatever the resources give, and the
  -- status that is saved shows the error of the decoder.
  reconcile_live-initial_error :
      (sync : ClusterSync Selector) (first : ClusterSpec) (e : String) (w : W)
      → c.unmarshal_initial sync.initial_data ≡ (first, some e)
      → (w1 : W) × (reconcile_live c sync w ≡ (
          let (time, w2) = c.now w1 in
          let (u, w3) = c.update_status (failed_sync c sync time e) (c.count errors sync.name w2) in
          on_saved c (λ v. v) sync.name u w3))
  unfolding conclude parse_instance
  reconcile_live-initial_error sync first e w bad =
      let (last, more, w1, done) = parse_all-first_error sync.watched_resources first e [] w in
      (w1, reconcile_live-conclude sync (last, e ∷ more) w w1 (rw (bad, parse_instance) done))
