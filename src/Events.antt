-- ===== src/Events.antt =====
-- The messages of the queue, and what the API server does with one: pkg/sqs/event.go,
-- pkg/apiserver/event/handler.go, pkg/sync/event/handler.go and the callback of
-- cmd/apiserver/apiserver.go. The log lines are left out.
pub mod Stamps
pub mod Freshness
pub mod Arrival
pub mod Callback
use cluster_registry.Prelude.{
  String, ◌==◌, Option, none, some, List, [], ◌∷◌, Dict, lookup, contains, Result, ok, err, Act,
  Outcome, returned, panicked, out_of_fuel, then_return, ℤ, pos, mul_int, ltb_ℤ, parse_int,
  if◌then◌else◌,
}
use cluster_registry.Registry.Cluster.{Cluster}
use cluster_registry.Database.Api.{Db}
use cluster_registry.Database.Store.{get_cluster, put_cluster}

-- `awssqs.Message`. A message attribute is the `StringValue` of its value, `none` where that is nil.
pub record Message : Type 0 where
  pub message_id : String
  pub receipt_handle : String
  pub body : Option String
  pub attributes : Dict String
  pub message_attributes : Dict (Option String)

pub record Event : Type 0 where
  pub type : String
  pub message : Message

abbrev pub cluster_update_event : String
cluster_update_event = "cluster-update"

abbrev pub partial_cluster_update_event : String
partial_cluster_update_event = "partial-cluster-update"

abbrev event_of_type : Message → String → Result Event
event_of_type msg type =
    if contains type (cluster_update_event ∷ partial_cluster_update_event ∷ [])
    then ok (record { type = type; message = msg })
    else err "invalid event type"

-- `NewEvent`: a missing attribute is an error, one without a string value is a nil pointer.
unfoldable pub new_event : Option Message → Outcome (Result Event)
new_event none = returned (err "empty message")
new_event (some msg) = elim (lookup "Type" msg.message_attributes) [
  | none ↦ returned (err "missing event type")
  | some none ↦ panicked
  | some (some type) ↦ returned (event_of_type msg type)
]

-- `PartialClusterUpdateHandler.Handle`
unfoldable pub handle_partial : Option Event → Result (Unit {0})
handle_partial none = err "event is nil"
handle_partial (some e) =
    if e.type == partial_cluster_update_event
    then ok tt
    else err "event type does not match handler type"

-- The received cluster, updated when the message was sent.
abbrev pub with_last_updated : String → Cluster → Cluster
with_last_updated t c = record c { spec = record (c.spec) { last_updated = t } }

-- `time.Unix(0, ts * int64(time.Millisecond))`, with the product in 64 bits.
abbrev pub sent_at : ℤ → ℤ
sent_at ms = mul_int ms (pos 1000000)

module _ {W Item Key Condition Expr : Type 0} (d : Db W Item Key Condition Expr)
    (unmarshal_cluster : String → Result Cluster) where
  abbrev put_at : ℤ → Cluster → Act W (Result (Unit {0}))
  put_at t c = put_cluster d (with_last_updated (d.time.format_nano t) c)

  -- What follows the read of the cluster in the database. Only a time that can be read and lies
  -- behind that of the message stops the write.
  unfoldable pub update_read : ℤ → Cluster → Result (Option Cluster) → Act W (Result (Unit {0}))
  update_read t c (err e) w = (err e, w)
  update_read t c (ok none) w = put_at t c w
  update_read t c (ok (some old)) w = elim (d.time.parse old.spec.last_updated) [
    | err e ↦ put_at t c w
    | ok told ↦ if ltb_ℤ t told then (ok tt, w) else put_at t c w
  ]

  -- The part of `Handle` behind the decoding of the message.
  unfoldable pub update_cluster : ℤ → Cluster → Act W (Result (Unit {0}))
  unfolding update_read
  update_cluster t c w = let (r, w') = get_cluster d c.spec.name w in update_read t c r w'

  -- The cluster and the time that a message carries; a missing body or timestamp is a nil pointer.
  unfoldable pub decode_message : Message → Outcome (Result (ℤ × Cluster))
  decode_message msg = elim msg.body [
    | none ↦ panicked
    | some body ↦ elim (unmarshal_cluster body) [
      | err e ↦ returned (err e)
      | ok c ↦ elim (lookup "SentTimestamp" msg.attributes) [
        | none ↦ panicked
        | some s ↦ elim (parse_int "strconv.ParseInt" s) [
          | err e ↦ returned (err e)
          | ok ms ↦ returned (ok (sent_at ms, c))
        ]
      ]
    ]
  ]

  -- What is done with the decoded message.
  unfoldable pub update_decoded :
      Outcome (Result (ℤ × Cluster)) → Act W (Outcome (Result (Unit {0})))
  update_decoded panicked w = (panicked, w)
  update_decoded out_of_fuel w = (out_of_fuel, w)
  update_decoded (returned (err e)) w = (returned (err e), w)
  update_decoded (returned (ok (t, c))) w = let (r, w') = update_cluster t c w in (returned r, w')

  -- `ClusterUpdateHandler.Handle` for a message of its type.
  unfoldable pub handle_message : Message → Act W (Outcome (Result (Unit {0})))
  handle_message msg w = update_decoded (decode_message msg) w

  -- `ClusterUpdateHandler.Handle`
  unfoldable pub handle : Option Event → Act W (Outcome (Result (Unit {0})))
  handle none w = (returned (err "event is nil"), w)
  handle (some e) w =
      if e.type == cluster_update_event
      then handle_message e.message w
      else (returned (err "event type does not match handler type"), w)

  module _ (delete_message : Message → Act W (Result (Unit {0})))
      (invalidate : String → Act W (Result (Unit {0}))) where
    -- The end of the callback: the cached lists are dropped unless the message says not to.
    unfoldable pub drop_cached : Message → W → Outcome W
    drop_cached msg w = elim (lookup "SkipCacheInvalidation" msg.message_attributes) [
      | none ↦ returned (invalidate "clusters" w).1
      | some none ↦ panicked
      | some (some v) ↦ returned (if v == "true" then w else (invalidate "clusters" w).1)
    ]

    -- The callback once the event is handled: only a message that was handled is deleted.
    unfoldable pub after_handle : Message → Outcome (Result (Unit {0})) → W → Outcome W
    unfolding drop_cached
    after_handle msg panicked w = panicked
    after_handle msg out_of_fuel w = out_of_fuel
    after_handle msg (returned (err e)) w = returned w
    after_handle msg (returned (ok u)) w = elim (delete_message msg w).0 [
      | err e ↦ returned (delete_message msg w).1
      | ok v ↦ drop_cached msg (delete_message msg w).1
    ]

    -- The handler that the API server registers with the queue.
    unfoldable pub receive : Message → W → Outcome W
    unfolding after_handle
    receive msg w = elim (new_event (some msg)) [
      | panicked ↦ panicked
      | out_of_fuel ↦ out_of_fuel
      | returned (err e) ↦ returned w
      | returned (ok e) ↦
          if e.type == cluster_update_event
          then (let (r, w') = handle (some e) w in after_handle msg r w')
          else returned w
    ]
