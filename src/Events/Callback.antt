-- ===== src/Events/Callback.antt =====
-- Which messages the callback of cmd/apiserver/apiserver.go takes off the queue.
use cluster_registry.Prelude.{
  String, ◌==◌, ◌≡◌, ◌≢◌, refl, ◌⊎◌, inl, inr, some, Result, ok, err, Result-cases, Act, Bool-cases,
  Outcome, returned, panicked, out_of_fuel,
}
use cluster_registry.Registry.Cluster.{Cluster}
use cluster_registry.Database.Api.{Db}
use cluster_registry.Events.{
  Message, Event, cluster_update_event, new_event, handle, after_handle, receive,
}

Outcome-cases {ℓ} :
    {A : Type ℓ} (o : Outcome A)
    → ((a : A) × (o ≡ returned a)) ⊎ ((o ≡ panicked) ⊎ (o ≡ out_of_fuel))
Outcome-cases (returned a) = inl (a, refl)
Outcome-cases panicked = inr (inl refl)
Outcome-cases out_of_fuel = inr (inr refl)

module _ {W Item Key Condition Expr : Type 0} (d : Db W Item Key Condition Expr)
    (unmarshal_cluster : String → Result Cluster)
    (delete_message delete_message' : Message → Act W (Result (Unit {0})))
    (invalidate invalidate' : String → Act W (Result (Unit {0}))) where
  after_handle-kept :
      (msg : Message) (r : Outcome (Result (Unit {0}))) (w : W)
      → r ≢ returned (ok tt)
      → after_handle d unmarshal_cluster delete_message invalidate msg r w
        ≡ after_handle d unmarshal_cluster delete_message' invalidate' msg r w
  unfolding after_handle
  after_handle-kept msg (returned (ok u)) w h = absurd (h refl)
  after_handle-kept msg (returned (err e)) w h = refl
  after_handle-kept msg panicked w h = refl
  after_handle-kept msg out_of_fuel w h = refl

  -- A message that is not handled without an error is neither deleted from the queue nor makes the
  -- cached lists be dropped: the callback ends the same way whatever those two calls do.
  pub receive-kept :
      (msg : Message) (w : W)
      → ((e : Event)
          → new_event (some msg) ≡ returned (ok e)
          → (handle d unmarshal_cluster (some e) w).0 ≢ returned (ok tt))
      → receive d unmarshal_cluster delete_message invalidate msg w
        ≡ receive d unmarshal_cluster delete_message' invalidate' msg w
  unfolding receive
  receive-kept msg w h = elim (Outcome-cases (new_event (some msg))) [
    | inr (inl p) ↦ rw (p, receive) refl
    | inr (inr p) ↦ rw (p, receive) refl
    | inl (r, p) ↦ elim (Result-cases r) [
      | inr (why, q) ↦ rw (p, receive, q) refl
      | inl (e, q) ↦ elim (Bool-cases (e.type == cluster_update_event)) [
        | inr t ↦ rw (p, receive, q, t) refl
        | inl t ↦
            rw (p, receive, q, t)
              (after_handle-kept msg (handle d unmarshal_cluster (some e) w).0
                (handle d unmarshal_cluster (some e) w).1 (h e (rw q at p)))
      ]
    ]
  ]
