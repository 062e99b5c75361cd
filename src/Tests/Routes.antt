-- ===== src/Tests/Routes.antt =====
-- The theorems of the routes with the handlers of the API at concrete inputs.
use cluster_registry.Prelude.{
  String, ◌==◌, ◌≡◌, refl, true, false, none, some, [], ◌∷◌, Result, ok, err, Act, Outcome,
  returned, pos, parse_int, inr, lookup, insert, contains, mul_int, if◌then◌else◌,
}
use cluster_registry.Registry.Cluster.{Cluster}
use cluster_registry.Events.{
  new_event, handle, handle_message, decode_message, update_decoded, update_read, update_cluster,
  sent_at,
}
use cluster_registry.ClusterController.{entry_of}
use cluster_registry.Database.Api.{unix}
use cluster_registry.Database.Store.{get_cluster, put_cluster, decode_item}
use cluster_registry.Http.{Request, Response, Handler}
use cluster_registry.Auth.{Authenticator, extract_token, verify}
use cluster_registry.Api.Patches.{PatchApi}
use cluster_registry.Api.Limits.{LimiterConfig, LimiterLib, rate_limiter}
use cluster_registry.Api.Routes.{Route, register_v2}
use cluster_registry.Api.Handlers.{new_handler}
use cluster_registry.Api.Handlers.Arrival.{GuardKeeps, Shows, get_cluster_route-delivered}
use cluster_registry.Tests.Memory.{
  Table, memory, memory_laws, memory_IsCurrent, row, same_row, parse_unary, format_unary,
}
use cluster_registry.Api.Routes.Closed.{reached_world, first_route}
use cluster_registry.Database.Store.{row_of}
use cluster_registry.Events.Arrival.{with_registered_at}
use cluster_registry.Tests.Controllers.{one, arrived, event}
use cluster_registry.Tests.Api.{patch_api, bad_patch, bad-IsTag}
use cluster_registry.Api.Handlers.Unsent.{with_clients, patch_cluster_route-unsent}

-- A reader is known, and nobody else; the limiter lets everybody pass; nothing can be patched.
abbrev readers : Authenticator Table String
readers = record {
  verifier = λ raw w. (if raw == "reader" then ok raw else err "unknown", w);
  spn_verifier = λ raw w. (err "unknown", w);
  claims = λ token. ok (record { oid = token; groups = "readers" ∷ [] });
  record_egress = λ target w. w;
}

abbrev decided :
    LimiterConfig → Handler Table → Request → Table → Result String → Outcome Response × Table
decided cfg next c w (err e) = (returned (cfg.on_error c e), w)
decided cfg next c w (ok name) = next c w

abbrev lenient : LimiterLib Table
lenient = record {
  limit =
      λ cfg next c w. if cfg.skipper c then next c w else decided cfg next c w (cfg.identifier c);
  allow = λ cfg name w. (true, w);
  skipped = λ cfg next c w h. rw h refl;
  unnamed = λ cfg next c w e h i. rw (h, i) refl;
  asked = λ cfg next c w name h i. rw (h, i) refl;
}

abbrev unpatched : PatchApi Table String
unpatched = record {
  bind = λ c. err "no body";
  validate_struct = λ patch. ok tt;
  get_client = λ c w. (err "no client", w);
  marshal_patch = λ patch. err "no patch";
  merge_patch = λ client path namespace resource name patch w. (err "no client", w);
}

abbrev question : Request
question = record {
  authorization = "Bearer reader";
  path_params = ("name", "one") ∷ [];
  query_params = [];
  body = "";
  oid = none;
  groups = none;
}

abbrev table_keeps : GuardKeeps memory_laws.item_of readers lenient
table_keeps = record {
  auth_keeps = record {
    verifier_keeps = λ raw w. refl;
    spn_keeps = λ raw w. refl;
    egress_keeps = λ target w. refl;
  };
  limiter_keeps = λ oid w. refl;
}

get_cluster_route-delivered_example :
    (route : Route Table) × (first_route "GET" "/api/v2/clusters/:name" (
        register_v2 readers
          (rate_limiter lenient true)
          (λ next. next)
          (rate_limiter lenient true)
          "writers")
      ≡ some route)
    × Shows memory memory_laws
        (λ body. ok one)
        (sent_at (pos 0))
        one
        []
        (route.serve
          (new_handler unpatched memory 1)
          question
          (("one", row (pos 0) arrived) ∷ [])).0
unfolding parse_int new_event handle handle_message decode_message update_decoded update_cluster
    update_read put_cluster get_cluster decode_item lookup insert contains entry_of parse_unary
    format_unary mul_int unix extract_token verify
get_cluster_route-delivered_example =
    get_cluster_route-delivered unpatched memory memory_laws (λ body. ok one) readers lenient true
      (λ next. next) (rate_limiter lenient true) "writers" 1 one false "u" "m" "r" "0" "one" (pos 0)
      event [] (("one", row (pos 0) arrived) ∷ []) (("one", row (pos 0) arrived) ∷ []) question
      "reader" "reader" (record { oid = "reader"; groups = "readers" ∷ [] }) refl refl
      (λ time seconds i e. same_row (row_of memory seconds (with_registered_at time arrived)) i e)
      refl refl refl (memory_IsCurrent "one" [])
      (memory_IsCurrent "one"
        (reached_world readers lenient true "reader" "reader" (("one", row (pos 0) arrived) ∷ [])))
      table_keeps refl refl refl refl (inr refl)

-- A client for every cluster, at the price of the whole table.
abbrev removing : Cluster → Act Table (Result (Unit {0}))
removing c w = (ok tt, [])

patch_cluster_route-unsent_example :
    (route : Route Table) × (first_route "PATCH" "/api/v2/clusters/:name" (
        register_v2 readers
          (rate_limiter lenient true)
          (λ next. next)
          (rate_limiter lenient true)
          "readers")
      ≡ some route)
    × (route.serve (new_handler patch_api memory 1) question (("one", row (pos 0) arrived) ∷ [])
        ≡ route.serve
            (new_handler (with_clients removing patch_api.merge_patch patch_api) memory 1)
            question
            (("one", row (pos 0) arrived) ∷ []))
patch_cluster_route-unsent_example =
    patch_cluster_route-unsent patch_api removing patch_api.merge_patch memory readers lenient true
      (λ next. next) (rate_limiter lenient true) "readers" 1 question bad_patch
      (("one", row (pos 0) arrived) ∷ []) (λ oid groups. refl) bad-IsTag
