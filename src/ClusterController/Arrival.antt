-- ===== src/ClusterController/Arrival.antt =====
-- From the controller to a read of the database: what the message that the cluster controller sends
-- comes to, pkg/client/controllers/cluster_controller.go, pkg/sqs/event.go,
-- pkg/apiserver/event/handler.go and pkg/database/database.go.
use cluster_registry.Prelude.{
  String, ◌≡◌, sym, ap, ◌∙◌, ◌⊎◌, subst, Bool, some, Result, ok, returned, ℤ, parse_int,
}
use cluster_registry.Registry.Cluster.{Cluster}
use cluster_registry.Database.Api.{Db}
use cluster_registry.Database.Store.Table.{TableLaws}
use cluster_registry.Events.{Event, new_event, handle, update_cluster, sent_at}
use cluster_registry.Events.Arrival.{IsStored, IsKept, update_cluster-IsStored}
use cluster_registry.ClusterController.{entry_of}
use cluster_registry.ClusterController.Messages.{delivered, handle-delivered}

event_injective : {a b : Event} → returned (ok a) ≡ returned (ok b) → a ≡ b
event_injective e = cc

answer_injective : {a b : Result (Unit {0})} → returned a ≡ returned b → a ≡ b
answer_injective e = cc

module _ {W Item Key Condition Expr : Type 0} (d : Db W Item Key Condition Expr) (l : TableLaws d)
    (unmarshal_cluster : String → Result Cluster) where
  -- Where the message that the controller sends for a cluster is delivered by the queue, its body
  -- decodes to the cluster, and the API server handles it without an error, the table holds under
  -- the name the row of the cluster that was sent, updated at the time of the message and otherwise
  -- as it was but for the time of its registration, and under every other name what it held; or the
  -- table is as it was, and the read of the handler gave a cluster of that name whose time lies
  -- behind that of the message. Reads need not see the last write.
  pub table-delivered :
      (c : Cluster) (skip : Bool) (uuid id receipt timestamp body : String) (ms : ℤ) (e : Event)
      (w w' : W)
      → unmarshal_cluster body ≡ ok c
      → parse_int "strconv.ParseInt" timestamp ≡ ok ms
      → new_event (some (delivered id receipt timestamp (entry_of uuid body c skip)))
        ≡ returned (ok e)
      → handle d unmarshal_cluster (some e) w ≡ (returned (ok tt), w')
      → IsStored d l unmarshal_cluster (sent_at ms) c w w'
        ⊎ IsKept d l unmarshal_cluster (sent_at ms) c w w'
  table-delivered c skip uuid id receipt timestamp body ms e w w' decodes sent made handled =
      let (e', made', handled') =
        handle-delivered d unmarshal_cluster c skip uuid id receipt timestamp body ms w decodes
          sent in
      let done =
        ap (λ x. handle d unmarshal_cluster (some x) w) (event_injective (sym made ∙ made'))
        ∙ handled' in
      let world : (update_cluster d unmarshal_cluster (sent_at ms) c w).1 ≡ w' =
        ap (λ x. x.1) (sym done ∙ handled) in
      subst
        (λ v.
          IsStored d l unmarshal_cluster (sent_at ms) c w v
          ⊎ IsKept d l unmarshal_cluster (sent_at ms) c w v)
        world
        (update_cluster-IsStored d l unmarshal_cluster (sent_at ms) c w
          (answer_injective (ap (λ x. x.0) (sym done ∙ handled))))
