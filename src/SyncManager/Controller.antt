-- ===== src/SyncManager/Controller.antt =====
-- pkg/sync/manager/controller.go and result.go: the controller that keeps a ClusterSync and sends
-- its data to the queue. The log lines and the durations are left out.
use cluster_registry.Prelude.{
  String, ◌==◌, ◌&&◌, ◌||◌, not, Bool, true, false, Option, none, some, List, [], ◌∷◌, ◌++◌, Result,
  ok, err, Act, pos, if◌then◌else◌,
}
use cluster_registry.Registry.Cluster.{ClusterSpec}
use cluster_registry.Events.{partial_cluster_update_event}
use cluster_registry.Queue.{Entry}
use cluster_registry.Kubernetes.{
  Fetched, fetched, missing, failed, NamespacedName, Reconciled, finished, failed_with,
}
use cluster_registry.SyncManager.Parser.{WatchedResource, ResourceParser, parse, diff}

abbrev sync_status_success : String
sync_status_success = "success"

abbrev sync_status_fail : String
sync_status_fail = "fail"

-- The fields of the resource that the controller reads; `deleted` tells of a deletion timestamp,
-- and a time is its text.
pub record ClusterSync (Selector : Type 0) : Type 0 where
  pub name : String
  pub namespace : String
  pub deleted : Bool
  pub watched_resources : List (WatchedResource Selector)
  pub initial_data : String
  pub last_sync_time : Option String
  pub last_sync_status : Option String
  pub last_sync_error : Option String
  pub synced_data : Option String
  pub synced_data_hash : Option String

-- The counters of pkg/monitoring/manager.
pub data Counter : Type 0 where
  errors requeues reconciliations enqueues : Counter

-- The controller, and what it calls: the API of the cluster; the YAML decoder, which gives what it
-- read beside its error; the hash of util.go; the encoder of the data; fresh identifiers; `Enqueue`
-- of its queue, within ten seconds; the clock; and the metrics of a resource.
pub record SyncController (W Object Selector Matcher : Type 0) : Type 0 where
  pub get : NamespacedName → Act W (Fetched (ClusterSync Selector))
  pub update_status : ClusterSync Selector → Act W (Result (Unit {0}))
  pub unmarshal_initial : String → ClusterSpec × Option String
  pub digest : Option String → String
  pub marshal_data : Option String → Result String
  pub new_uuid : Act W (Result String)
  pub enqueue_batch : List Entry → Act W (Result (Unit {0}))
  pub now : Act W String
  pub count : Counter → String → W → W
  pub parser : ResourceParser W Object Selector Matcher

module _ {W Object Selector Matcher : Type 0} (c : SyncController W Object Selector Matcher) where
  unfoldable pub is_last_sync_successful : ClusterSync Selector → Bool
  is_last_sync_successful sync = elim (sync.last_sync_status) [
    | none ↦ false
    | some status ↦ status == sync_status_success
  ]

  abbrev hash_differs : Option String → Option String → Bool
  hash_differs none synced = true
  hash_differs (some h) none = true
  hash_differs (some h) (some synced) = not (h == c.digest (some synced))

  unfoldable pub has_different_hash : ClusterSync Selector → Bool
  has_different_hash sync = hash_differs sync.synced_data_hash sync.synced_data

  unfoldable pub should_enqueue_data : ClusterSync Selector → Bool
  should_enqueue_data sync = is_last_sync_successful sync && has_different_hash sync

  -- The message that `enqueueData` sends.
  abbrev pub sync_entry : String → String → Entry
  sync_entry id body = record {
    id = id;
    delay_seconds = pos 10;
    message_attributes = ("Type", partial_cluster_update_event) ∷ [];
    message_body = body;
  }

  unfoldable pub send : String → String → Result String → Act W (Result (Unit {0}))
  send name body (err e) w = (err e, w)
  send name body (ok id) w =
      let (r, w') = c.enqueue_batch (sync_entry id body ∷ []) w in (r, c.count enqueues name w')

  -- `enqueueData`
  unfoldable pub enqueue_data : ClusterSync Selector → Act W (Result (Unit {0}))
  unfolding send
  enqueue_data sync w = elim (c.marshal_data sync.synced_data) [
    | err e ↦ (err e, w)
    | ok body ↦ let (id, w') = c.new_uuid w in send sync.name body id w'
  ]

  abbrev cleared : ClusterSync Selector → ClusterSync Selector
  cleared sync = record sync { last_sync_status = some sync_status_success; last_sync_error = none }

  abbrev pub error_list : Option String → List String
  error_list none = []
  error_list (some e) = e ∷ []

  abbrev pub after_parse :
      ClusterSpec → List String → Result ClusterSpec → ClusterSpec × List String
  after_parse buffer errs (err e) = (buffer, errs ++ e ∷ [])
  after_parse buffer errs (ok next) = (next, errs)

  -- The loop over the watched resources, from a buffer and the errors so far.
  unfoldable pub parse_all :
      List (WatchedResource Selector)
      → ClusterSpec
      → List String
      → Act W (ClusterSpec × List String)
  parse_all [] buffer errs w = ((buffer, errs), w)
  parse_all (res ∷ resources) buffer errs w =
      let (r, w') = parse c.parser buffer res w in
      let (next, errs') = after_parse buffer errs r in parse_all resources next errs' w'

  -- What `updateStatus` ends the reconciliation with; a counter may stand between the two.
  abbrev pub on_saved : (W → W) → String → Result (Unit {0}) → Act W Reconciled
  on_saved counted name (ok u) w = (finished, w)
  on_saved counted name (err e) w = (
    record { requeue = false; requeue_after = pos 10; error = some e },
    c.count requeues name (counted w),
  )

  -- The status of a synchronization that failed; the first error is shown.
  abbrev pub failed_sync : ClusterSync Selector → String → String → ClusterSync Selector
  failed_sync sync time e = record (cleared sync) {
    last_sync_status = some sync_status_fail;
    last_sync_error = some e;
    last_sync_time = some time;
  }

  abbrev pub with_data : ClusterSync Selector → String → ClusterSync Selector
  with_data sync synced = record (cleared sync) { synced_data = some synced }

  -- The instance with the hash of its data and the time, as it is before it is sent.
  abbrev pub stamped : ClusterSync Selector → String → ClusterSync Selector
  stamped sync time = record sync {
    synced_data_hash = some (c.digest sync.synced_data);
    last_sync_time = some time;
  }

  -- The status is saved whether or not the data was sent.
  unfoldable pub on_enqueued : ClusterSync Selector → Result (Unit {0}) → Act W Reconciled
  on_enqueued sync (err e) w =
      let (u, w') = c.update_status sync (c.count errors sync.name w) in
      on_saved (λ v. v) sync.name u w'
  on_enqueued sync (ok sent) w =
      let (u, w') = c.update_status sync w in on_saved (c.count errors sync.name) sync.name u w'

  -- What follows a parse of all the resources.
  unfoldable pub conclude : ClusterSync Selector → ClusterSpec × List String → Act W Reconciled
  unfolding on_enqueued
  conclude sync (buffer, e ∷ errs) w =
      let (time, w1) = c.now w in
      let (u, w2) = c.update_status (failed_sync sync time e) (c.count errors sync.name w1) in
      on_saved (λ v. v) sync.name u w2
  conclude sync (buffer, []) w = elim (diff c.parser buffer) [
    | err e ↦ (finished, c.count errors sync.name w)
    | ok synced ↦
        if should_enqueue_data (with_data sync synced)
        then (let (time, w1) = c.now w in
            let (sent, w2) = enqueue_data (stamped (with_data sync synced) time) w1 in
            on_enqueued (stamped (with_data sync synced) time) sent w2)
        else (finished, w)
  ]

  -- The initial data and what the watched resources make of it, with the errors of both.
  unfoldable pub parse_instance : ClusterSync Selector → Act W (ClusterSpec × List String)
  parse_instance sync w =
      let (buffer, e) = c.unmarshal_initial sync.initial_data in
      parse_all sync.watched_resources buffer (error_list e) w

  -- `Reconcile`, from an instance that is not being deleted.
  unfoldable pub reconcile_live : ClusterSync Selector → Act W Reconciled
  reconcile_live sync w = let (parsed, w') = parse_instance sync w in conclude sync parsed w'

  unfoldable pub reconcile_fetched : String → Fetched (ClusterSync Selector) → Act W Reconciled
  reconcile_fetched name missing w = (finished, c.count errors name w)
  reconcile_fetched name (failed e) w =
      (failed_with e, c.count requeues name (c.count errors name w))
  reconcile_fetched name (fetched sync) w =
      if sync.deleted then (finished, w) else reconcile_live sync w

  -- `Reconcile`
  unfoldable pub reconcile : NamespacedName → Act W Reconciled
  unfolding reconcile_fetched
  reconcile req w =
      let (found, w1) = c.get req w in
      let (result, w2) = reconcile_fetched req.name found w1 in
      (result, c.count reconciliations req.name w2)

-- The events on a ClusterSync. `same_resources` is `reflect.DeepEqual`.
pub data SyncEvent (Selector : Type 0) : Type 0 where
  created : ClusterSync Selector → SyncEvent Selector
  updated_to : ClusterSync Selector → ClusterSync Selector → SyncEvent Selector
  deleted_last : ClusterSync Selector → Bool → SyncEvent Selector
  generic : ClusterSync Selector → SyncEvent Selector

-- `eventFilters`
unfoldable pub event_filters :
    {W Object Selector Matcher : Type 0}
    → SyncController W Object Selector Matcher
    → (List (WatchedResource Selector) → List (WatchedResource Selector) → Bool)
    → SyncEvent Selector
    → Bool
event_filters c same_resources (created sync) = has_different_hash c sync
event_filters c same_resources (updated_to old new) =
    has_different_hash c new
    || not (same_resources old.watched_resources new.watched_resources)
    || not (old.initial_data == new.initial_data)
event_filters c same_resources (deleted_last sync state_unknown) = not state_unknown
event_filters c same_resources (generic sync) = false
