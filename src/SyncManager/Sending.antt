-- ===== src/SyncManager/Sending.antt =====
-- How many messages a reconciliation sends: pkg/sync/manager/controller.go.
use cluster_registry.Prelude.{
  String, ◌≡◌, refl, ap, ◌∙◌, ◌⊎◌, inl, inr, ◌==◌, Bool, true, false, Bool-cases, Option,
  Option-cases, if◌then◌else◌, List, [], ◌∷◌, ◌++◌, Result, ok, err, Result-cases,
}
use cluster_registry.Registry.Cluster.{ClusterSpec}
use cluster_registry.Queue.{Entry}
use cluster_registry.Kubernetes.{Fetched, fetched, missing, failed, NamespacedName, finished}
use cluster_registry.SyncManager.Parser.{
  WatchedResource, GroupVersionKind, gvk_of, handler_for, selector_of, list_selected,
  get_objects_for_resource, parse_with, parse, diff,
}
use cluster_registry.SyncManager.Controller.{
  ClusterSync, SyncController, Counter, errors, requeues, enqueues, reconciliations, after_parse,
  error_list, sync_entry, send, enqueue_data, parse_all, parse_instance, stamped, with_data,
  failed_sync, on_saved, on_enqueued, should_enqueue_data, conclude, reconcile_live,
  reconcile_fetched, reconcile,
}

-- The messages that were sent: only `Enqueue` sends, and at most what it is given; whether a call
-- that fails has sent its messages is open.
pub record Sending {W Object Selector Matcher : Type 0}
    (c : SyncController W Object Selector Matcher) : Type 0 where
  pub sent : W → List Entry
  pub get_keeps : (req : NamespacedName) (w : W) → sent (c.get req w).1 ≡ sent w
  pub update_status_keeps :
      (sync : ClusterSync Selector) (w : W) → sent (c.update_status sync w).1 ≡ sent w
  pub new_uuid_keeps : (w : W) → sent (c.new_uuid w).1 ≡ sent w
  pub now_keeps : (w : W) → sent (c.now w).1 ≡ sent w
  pub count_keeps : (k : Counter) (name : String) (w : W) → sent (c.count k name w) ≡ sent w
  pub get_object_keeps :
      (gvk : GroupVersionKind) (key : NamespacedName) (w : W)
      → sent (c.parser.get_object gvk key w).1 ≡ sent w
  pub list_objects_keeps :
      (gvk : GroupVersionKind) (namespace : String) (matcher : Option Matcher) (w : W)
      → sent (c.parser.list_objects gvk namespace matcher w).1 ≡ sent w
  pub enqueue_batch_lem :
      (entries : List Entry) (w : W)
      → (sent (c.enqueue_batch entries w).1 ≡ sent w)
        ⊎ (sent (c.enqueue_batch entries w).1 ≡ sent w ++ entries)

module _ {W Object Selector Matcher : Type 0} (c : SyncController W Object Selector Matcher)
    (s : Sending c) where
  open s use {sent}

  -- Between the two worlds nothing was sent, or one message of a partial cluster.
  abbrev pub SendsOne : W → W → Type 0
  SendsOne w w' =
      (sent w' ≡ sent w)
      ⊎ ((id : String) × (body : String) × (sent w' ≡ sent w ++ sync_entry c id body ∷ []))

  keeps-SendsOne : (w v w' : W) → sent v ≡ sent w → SendsOne v w' → SendsOne w w'
  keeps-SendsOne w v w' e (inl same) = inl (same ∙ e)
  keeps-SendsOne w v w' e (inr (id, body, one)) =
      inr (id, body, one ∙ ap (λ es. es ++ sync_entry c id body ∷ []) e)

  SendsOne-keeps : (w v w' : W) → SendsOne w v → sent w' ≡ sent v → SendsOne w w'
  SendsOne-keeps w v w' (inl same) e = inl (e ∙ same)
  SendsOne-keeps w v w' (inr (id, body, one)) e = inr (id, body, e ∙ one)

  get_objects_for_resource-keeps :
      (gvk : GroupVersionKind) (res : WatchedResource Selector) (w : W)
      → sent (get_objects_for_resource c.parser gvk res w).1 ≡ sent w
  unfolding get_objects_for_resource list_selected
  get_objects_for_resource-keeps gvk res w = elim (Bool-cases (res.name == "")) [
    | inl p ↦ elim (Result-cases (selector_of c.parser res.label_selector)) [
      | inl (matcher, q) ↦
          rw (get_objects_for_resource, p, q, list_selected)
            (s.list_objects_keeps gvk res.namespace matcher w)
      | inr (e, q) ↦ rw (get_objects_for_resource, p, q, list_selected) refl
    ]
    | inr p ↦
        rw (get_objects_for_resource, p)
          (s.get_object_keeps gvk (record { namespace = res.namespace; name = res.name }) w)
  ]

  parse-keeps :
      (buffer : ClusterSpec) (res : WatchedResource Selector) (w : W)
      → sent (parse c.parser buffer res w).1 ≡ sent w
  unfolding parse parse_with
  parse-keeps buffer res w = elim (Result-cases (gvk_of c.parser.schema res)) [
    | inr (e, p) ↦ rw (parse, p) refl
    | inl (gvk, p) ↦ elim (Option-cases (handler_for gvk c.parser.handlers)) [
      | inl q ↦ rw (parse, p, q, parse_with) refl
      | inr (handle, q) ↦ rw (parse, p, q, parse_with) (get_objects_for_resource-keeps gvk res w)
    ]
  ]

  parse_all-keeps :
      (resources : List (WatchedResource Selector)) (buffer : ClusterSpec) (errs : List String)
      (w : W)
      → sent (parse_all c resources buffer errs w).1 ≡ sent w
  unfolding parse_all
  parse_all-keeps [] buffer errs w = refl
  parse_all-keeps (res ∷ resources) buffer errs w =
      let (next, errs') = after_parse c buffer errs (parse c.parser buffer res w).0 in
      parse_all-keeps resources next errs' (parse c.parser buffer res w).1
      ∙ parse-keeps buffer res w

  send-SendsOne :
      (name body : String) (id : Result String) (w : W) → SendsOne w (send c name body id w).1
  unfolding send
  send-SendsOne name body (err e) w = inl refl
  send-SendsOne name body (ok id) w =
      let w' = (c.enqueue_batch (sync_entry c id body ∷ []) w).1 in
      elim (s.enqueue_batch_lem (sync_entry c id body ∷ []) w) [
        | inl same ↦ inl (s.count_keeps enqueues name w' ∙ same)
        | inr one ↦ inr (id, body, s.count_keeps enqueues name w' ∙ one)
      ]

  enqueue_data-SendsOne :
      (sync : ClusterSync Selector) (w : W) → SendsOne w (enqueue_data c sync w).1
  unfolding enqueue_data
  enqueue_data-SendsOne sync w = elim (Result-cases (c.marshal_data sync.synced_data)) [
    | inr (e, p) ↦ rw (enqueue_data, p) (inl refl)
    | inl (body, p) ↦
        let (id, v) = c.new_uuid w in
        rw (enqueue_data, p)
          (keeps-SendsOne w v (send c sync.name body id v).1 (s.new_uuid_keeps w)
            (send-SendsOne sync.name body id v))
  ]

  on_saved-keeps :
      (counted : W → W) (name : String) (u : Result (Unit {0})) (w : W)
      → sent (counted w) ≡ sent w
      → sent (on_saved c counted name u w).1 ≡ sent w
  on_saved-keeps counted name (ok u) w e = refl
  on_saved-keeps counted name (err m) w e = s.count_keeps requeues name (counted w) ∙ e

  on_enqueued-keeps :
      (sync : ClusterSync Selector) (r : Result (Unit {0})) (w : W)
      → sent (on_enqueued c sync r w).1 ≡ sent w
  unfolding on_enqueued
  on_enqueued-keeps sync (err e) w =
      let v = c.count errors sync.name w in
      let (u, w') = c.update_status sync v in
      on_saved-keeps (λ x. x) sync.name u w' refl
      ∙ s.update_status_keeps sync v
      ∙ s.count_keeps errors sync.name w
  on_enqueued-keeps sync (ok r) w =
      let (u, w') = c.update_status sync w in
      on_saved-keeps (c.count errors sync.name) sync.name u w' (s.count_keeps errors sync.name w')
      ∙ s.update_status_keeps sync w

  -- What follows the data of the resources.
  sends_data :
      (sync : ClusterSync Selector) (text : String) (w : W)
      → SendsOne w
          (let (time, w1) = c.now w in
            let (r, w2) = enqueue_data c (stamped c (with_data c sync text) time) w1 in
            on_enqueued c (stamped c (with_data c sync text) time) r w2).1
  sends_data sync text w =
      let (time, w1) = c.now w in
      let instance' = stamped c (with_data c sync text) time in
      let (r, w2) = enqueue_data c instance' w1 in
      SendsOne-keeps w w2 (on_enqueued c instance' r w2).1
        (keeps-SendsOne w w1 w2 (s.now_keeps w) (enqueue_data-SendsOne instance' w1))
        (on_enqueued-keeps instance' r w2)

  conclude-SendsOne :
      (sync : ClusterSync Selector) (buffer : ClusterSpec) (errs : List String) (w : W)
      → SendsOne w (conclude c sync (buffer, errs) w).1
  unfolding conclude
  conclude-SendsOne sync buffer (e ∷ errs) w =
      let (time, w1) = c.now w in
      let v = c.count errors sync.name w1 in
      let (u, w2) = c.update_status (failed_sync c sync time e) v in
      inl (
        on_saved-keeps (λ x. x) sync.name u w2 refl
        ∙ s.update_status_keeps (failed_sync c sync time e) v
        ∙ s.count_keeps errors sync.name w1
        ∙ s.now_keeps w)
  conclude-SendsOne sync buffer [] w = elim (Result-cases (diff c.parser buffer)) [
    | inr (e, p) ↦ rw (conclude, p) (inl (s.count_keeps errors sync.name w))
    | inl (text, p) ↦ elim (Bool-cases (should_enqueue_data c (with_data c sync text))) [
      | inl q ↦ rw (conclude, p, q) (sends_data sync text w)
      | inr q ↦ rw (conclude, p, q) (inl refl)
    ]
  ]

  reconcile_live-SendsOne :
      (sync : ClusterSync Selector) (w : W) → SendsOne w (reconcile_live c sync w).1
  unfolding reconcile_live parse_instance
  reconcile_live-SendsOne sync w =
      let (buffer, e) = c.unmarshal_initial sync.initial_data in
      let (parsed, w') = parse_all c sync.watched_resources buffer (error_list c e) w in
      keeps-SendsOne w w' (conclude c sync parsed w').1
        (parse_all-keeps sync.watched_resources buffer (error_list c e) w)
        (conclude-SendsOne sync parsed.0 parsed.1 w')

  live-SendsOne :
      (deleted : Bool) (sync : ClusterSync Selector) (w : W)
      → SendsOne w (if deleted then (finished, w) else reconcile_live c sync w).1
  live-SendsOne true sync w = inl refl
  live-SendsOne false sync w = reconcile_live-SendsOne sync w

  reconcile_fetched-SendsOne :
      (name : String) (found : Fetched (ClusterSync Selector)) (w : W)
      → SendsOne w (reconcile_fetched c name found w).1
  unfolding reconcile_fetched
  reconcile_fetched-SendsOne name missing w = inl (s.count_keeps errors name w)
  reconcile_fetched-SendsOne name (failed e) w =
      inl (s.count_keeps requeues name (c.count errors name w) ∙ s.count_keeps errors name w)
  reconcile_fetched-SendsOne name (fetched sync) w = live-SendsOne sync.deleted sync w

  -- A reconciliation of the sync manager sends no message or one, which is that of a partial
  -- cluster, whatever its calls return, where only the queue sends, and a call of it sends what it
  -- is given or nothing.
  pub reconcile-SendsOne : (req : NamespacedName) (w : W) → SendsOne w (reconcile c req w).1
  unfolding reconcile
  reconcile-SendsOne req w =
      let (found, w1) = c.get req w in
      let w2 = (reconcile_fetched c req.name found w1).1 in
      SendsOne-keeps w w2 (c.count reconciliations req.name w2)
        (keeps-SendsOne w w1 w2 (s.get_keeps req w) (reconcile_fetched-SendsOne req.name found w1))
        (s.count_keeps reconciliations req.name w2)
