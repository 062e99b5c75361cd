-- ===== src/Api/Handlers/Arrival.antt =====
-- From the message of the cluster controller to the answer of the API: what a caller is shown of a
-- cluster that was sent.
use cluster_registry.Prelude.{
  String, ◌≡◌, refl, sym, ap, ◌∙◌, ◌⊎◌, inl, inr, Bool, true, false, Option, some, ℕ, Result, ok,
  Result-cases, ok_injective, Outcome, returned, ℤ, parse_int,
}
use cluster_registry.Registry.Cluster.{Cluster}
use cluster_registry.Database.Api.{Db}
use cluster_registry.Database.Store.{get_cluster, decode_item, row_of}
use cluster_registry.Database.Store.Table.{TableLaws, IsCurrent}
use cluster_registry.Database.Store.Laws.{RoundTrips, decode_of, get_cluster-decodes}
use cluster_registry.Http.{Request, Response, answer, failure, cluster_body, Middleware}
use cluster_registry.Auth.{Authenticator, Claims, extract_token, verify, egress_target}
use cluster_registry.Auth.Worlds.{Keeps, AuthKeeps, verify-Keeps}
use cluster_registry.Events.{Event, new_event, handle, sent_at, with_last_updated}
use cluster_registry.Events.Arrival.{Arrived, Stale, IsStored, IsKept, with_registered_at}
use cluster_registry.ClusterController.{entry_of}
use cluster_registry.ClusterController.Messages.{delivered}
use cluster_registry.ClusterController.Arrival.{table-delivered}
use cluster_registry.Api.Responses.{new_cluster_response}
use cluster_registry.Api.Reads.{
  path_param, get_cluster_by_name, get_cluster_fallback, get_cluster_handler,
}
use cluster_registry.Api.Patches.{PatchApi}
use cluster_registry.Api.Limits.{LimiterLib, limiter_config, rate_limiter, passed_world}
use cluster_registry.Api.Routes.{Route, guarded, register_v2}
use cluster_registry.Api.Routes.Closed.{first_route, reached_world, guarded-reached}
use cluster_registry.Api.Handlers.{new_handler}

module _ {W V Token : Type 0} (view : W → V) (a : Authenticator W Token) (lib : LimiterLib W) where
  -- The check of the token and the limiter leave alone what is seen of the world.
  pub record GuardKeeps : Type 0 where
    pub auth_keeps : AuthKeeps view a
    pub limiter_keeps : (oid : String) → Keeps view (λ w. (lib.allow (limiter_config true) oid w).1)

  passed_world-Keeps :
      GuardKeeps → (enabled : Bool) (oid : String) → Keeps view (passed_world lib enabled oid)
  passed_world-Keeps keeps false oid w = refl
  passed_world-Keeps keeps true oid w = keeps.limiter_keeps oid w

  reached_world-Keeps :
      GuardKeeps
      → (enabled : Bool) (raw oid : String) → Keeps view (reached_world a lib enabled raw oid)
  reached_world-Keeps keeps enabled raw oid w =
      passed_world-Keeps keeps enabled oid (a.record_egress egress_target (verify a raw w).1)
      ∙ keeps.auth_keeps.egress_keeps egress_target (verify a raw w).1
      ∙ verify-Keeps view a keeps.auth_keeps raw w

module _ {W Item Key Condition Expr : Type 0} (d : Db W Item Key Condition Expr) (l : TableLaws d)
    (unmarshal_cluster : String → Result Cluster) where
  -- The answer is the error of a read that failed, or shows a cluster: the one that was sent, or the
  -- one that was there with a time behind that of the message.
  abbrev pub Shows : ℤ → Cluster → W → Outcome Response → Type 0
  Shows t c w shown =
      ((e : String) × (shown ≡ returned (answer 500 (failure e))))
      ⊎ ((found : Cluster) × (shown
            ≡ returned (answer 200 (cluster_body (new_cluster_response found))))
          × (Arrived d l unmarshal_cluster t c found ⊎ Stale d l unmarshal_cluster t c w found))

  -- What is found: a cluster, the one that was sent or one with a time behind that of the message.
  abbrev Finds : ℤ → Cluster → W → Option Cluster → Type 0
  Finds t c w r =
      (found : Cluster) × (r ≡ some found)
      × (Arrived d l unmarshal_cluster t c found ⊎ Stale d l unmarshal_cluster t c w found)

  -- The rows of the cluster of an update survive the marshaller.
  abbrev pub Survives : ℤ → Cluster → Type 0
  Survives t c =
      (time : String) (seconds : ℤ)
      → RoundTrips d l
          (row_of d seconds (with_registered_at time (with_last_updated (d.time.format_nano t) c)))

  read-Finds :
      (t : ℤ) (c : Cluster) (w w' : W) (r : Option Cluster)
      → IsStored d l unmarshal_cluster t c w w' ⊎ IsKept d l unmarshal_cluster t c w w'
      → Survives t c
      → IsCurrent l c.spec.name w
      → decode_item d c.spec.name (l.item_of w' c.spec.name) ≡ ok r
      → Finds t c w r
  read-Finds t c w w' r (inl (time, seconds, i, marshalled, there, framed)) survives current told =
      (
        with_registered_at time (with_last_updated (d.time.format_nano t) c),
        decode_of d l c.spec.name i _ r (survives time seconds i marshalled) (rw there at told),
        inl (time, refl),
      )
  read-Finds t c w w' r (inr (seen, stale, same)) survives current told =
      let before = get_cluster-decodes d l c.spec.name w (some seen) current stale.0 in
      (
        seen,
        ok_injective (sym told ∙ ap (decode_item d c.spec.name) (same c.spec.name) ∙ before),
        inr stale,
      )

  get_cluster_handler-Shows :
      (t : ℤ) (c : Cluster) (w u : W) (req : Request)
      → path_param req "name" ≡ c.spec.name
      → IsCurrent l c.spec.name u
      → ((r : Option Cluster)
          → decode_item d c.spec.name (l.item_of u c.spec.name) ≡ ok r
          → Finds t c w r)
      → Shows t c w (get_cluster_handler d req u).0
  unfolding get_cluster_handler get_cluster_by_name get_cluster_fallback
  get_cluster_handler-Shows t c w u req named current finds =
      elim (Result-cases (get_cluster d c.spec.name u).0) [
        | inr (e, p) ↦ inl (e, rw (get_cluster_handler, get_cluster_by_name, named, p) refl)
        | inl (r, p) ↦
            let (found, same, how) = finds r (get_cluster-decodes d l c.spec.name u r current p) in
            inr (found, rw (get_cluster_handler, get_cluster_by_name, named, p, same) refl, how)
      ]

module _ {W Client Item Key Condition Expr Token : Type 0} (p : PatchApi W Client)
    (d : Db W Item Key Condition Expr) (l : TableLaws d)
    (unmarshal_cluster : String → Result Cluster) (a : Authenticator W Token)
    (lib : LimiterLib W) where
  -- Where the message that the controller sends for a cluster is delivered by the queue, its body
  -- decodes to the cluster, and the API server handles it without an error, then in every world
  -- with the same table a GET of that name on the mounted route of the second version, with a token
  -- that is verified, whose claims can be read, and where the limiter is off or lets the identity
  -- pass, is answered with 500, or with 200 and a cluster without the metadata of its services: the
  -- one that was sent, updated at the time of the message, but for the time of its registration, or
  -- the one that was there, whose time lies behind that of the message; for rows of the cluster
  -- that was sent which survive the marshaller, a guard that leaves the table alone, and where the
  -- read of the message's handler and that of the request each see the last write of the name.
  pub get_cluster_route-delivered :
      (enabled : Bool) (cached services_limiter : Middleware W) (group : String) (fuel : ℕ)
      (c : Cluster) (skip : Bool) (uuid id receipt timestamp body : String) (ms : ℤ) (e : Event)
      (w w' u : W) (req : Request) (raw : String) (token : Token) (claims : Claims)
      → unmarshal_cluster body ≡ ok c
      → parse_int "strconv.ParseInt" timestamp ≡ ok ms
      → Survives d l unmarshal_cluster (sent_at ms) c
      → new_event (some (delivered id receipt timestamp (entry_of uuid body c skip)))
        ≡ returned (ok e)
      → handle d unmarshal_cluster (some e) w ≡ (returned (ok tt), w')
      → l.item_of u ≡ l.item_of w'
      → IsCurrent l c.spec.name w
      → IsCurrent l c.spec.name (reached_world a lib enabled raw claims.oid u)
      → GuardKeeps l.item_of a lib
      → path_param req "name" ≡ c.spec.name
      → extract_token req.authorization ≡ ok raw
      → (verify a raw u).0 ≡ ok token
      → a.claims token ≡ ok claims
      → (enabled ≡ false)
        ⊎ ((lib.allow
              (limiter_config true)
              claims.oid
              (a.record_egress egress_target (verify a raw u).1)).0
            ≡ true)
      → (route : Route W) × (first_route "GET" "/api/v2/clusters/:name"
            (register_v2 a (rate_limiter lib enabled) cached services_limiter group)
          ≡ some route)
        × Shows d l unmarshal_cluster (sent_at ms) c w (route.serve (new_handler p d fuel) req u).0
  unfolding register_v2 new_handler
  get_cluster_route-delivered enabled cached services_limiter group fuel c skip uuid id receipt
        timestamp body ms e w w' u req raw token claims decodes sent trips made handled same current
        current_v keeps named p1 p2 p3 may =
      let seen = record req { oid = some claims.oid; groups = some claims.groups } in
      let v = reached_world a lib enabled raw claims.oid u in
      let table : l.item_of v ≡ l.item_of w' =
        reached_world-Keeps l.item_of a lib keeps enabled raw claims.oid u ∙ same in
      let shows =
        get_cluster_handler-Shows d l unmarshal_cluster (sent_at ms) c w v seen named current_v
          λ r told.
            read-Finds d l unmarshal_cluster (sent_at ms) c w w' r
              (table-delivered d l unmarshal_cluster c skip uuid id receipt timestamp body ms e w w'
                decodes sent made handled)
              trips current
              (ap (λ items. decode_item d c.spec.name (items c.spec.name)) (sym table) ∙ told) in
      let reached =
        guarded-reached a lib enabled cached req u raw token claims (get_cluster_handler d) p1 p2 p3
          may in
      (
        record {
          method = "GET";
          path = "/api/v2/clusters/:name";
          serve = λ hs. guarded a (rate_limiter lib enabled) cached hs.get_cluster;
        },
        refl,
        rw reached shows,
      )
