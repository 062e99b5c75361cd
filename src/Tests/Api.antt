-- ===== src/Tests/Api.antt =====
-- The theorems of `Auth` and `Api` at concrete inputs.
use cluster_registry.Prelude.{
  String, ◌≡◌, ◌≢◌, refl, ap, sym, subst, ◌∙◌, true, false, parse_int, inr, none, some, List, [],
  ◌∷◌, All, Result, ok, err, returned, eq_iff, arith, contains, lookup, ◌==◌, if◌then◌else◌, pos,
}
use cluster_registry.Database.Filter.{FilterCondition, add_condition, list_filter}
use cluster_registry.Database.Listing.{list_clusters}
use cluster_registry.Api.Responses.{new_cluster_list_response}
use cluster_registry.Http.{
  Request, Response, Handler, Middleware, answer, nothing, failure, list_body,
}
use cluster_registry.Auth.{Authenticator, Claims, extract_token, verify}
use cluster_registry.Auth.Access.{PassesOrAnswers, IsAuthorized}
use cluster_registry.Api.Texts.{span, line_of, behind, trim_space}
use cluster_registry.Api.Names.{get_cluster_dash_name, match_short_name, dash_name, environment_of}
use cluster_registry.Api.Queries.{
  new_filter_condition_from_query, find_match, match_here, first_operand,
}
use cluster_registry.Api.Reads.{
  parse_conditions, list_clusters_v1, list_clusters_v2, with_conditions,
}
use cluster_registry.Api.Patches.{validate, SpecPatch, PatchApi, patch_found}
use cluster_registry.Api.Conditions.{IsFound, new_filter_condition_from_query-operand}
use cluster_registry.Api.Access.{IsTag, patch_found-invalid}
use cluster_registry.Tests.Memory.{Table, memory, cluster, row, parse_unary}

abbrev condition : String → String → String → FilterCondition
condition field operand value = record { field = field; operand = operand; value = value }

dash_name_tests :
    (get_cluster_dash_name "cluster01produseast1" ≡ ok "cluster01-prod-useast1")
    × (get_cluster_dash_name "c1prod" ≡ err "Cannot convert shortName c1prod to standard name")
    × (get_cluster_dash_name "cluster01-prod"
        ≡ err "Cannot convert shortName cluster01-prod to standard name")
unfolding get_cluster_dash_name match_short_name dash_name environment_of span behind line_of
dash_name_tests = (refl, refl, refl)

-- The operand `<=` is read as `<`, and its second character as part of the value.
query_tests :
    (new_filter_condition_from_query "region:=va6 " ≡ ok (condition "region" "=" "va6"))
    × (new_filter_condition_from_query "a b:>= 3" ≡ ok (condition "b" ">=" "3"))
    × (new_filter_condition_from_query "lastUpdated:<=2024"
        ≡ ok (condition "lastUpdated" "<" "=2024"))
    × (new_filter_condition_from_query ":=x" ≡ err "invalid query")
unfolding new_filter_condition_from_query find_match first_operand span behind line_of trim_space
query_tests = (refl, refl, refl, refl)

extract_token_tests :
    (extract_token "Bearer abc" ≡ ok "abc")
    × (extract_token "Bearer_abc" ≡ ok "abc")
    × (extract_token "Bearer " ≡ err "missing or malformed jwt")
    × (extract_token "Basic abcdef" ≡ err "missing or malformed jwt")
unfolding extract_token
extract_token_tests = (refl, refl, refl, refl)

-- A token is the name of its owner, and the one of "admin" names the group.
abbrev authenticator : Authenticator Table String
authenticator = record {
  verifier = λ raw w. (ok raw, w);
  spn_verifier = λ raw w. (err "expired", w);
  claims = λ token.
      ok (record { oid = token; groups = if token == "admin" then "writers" ∷ [] else [] });
  record_egress = λ target w. w;
}

abbrev no_limit : Middleware Table
no_limit next = next

no_limit-PassesOrAnswers : PassesOrAnswers no_limit
no_limit-PassesOrAnswers c w = inr (w, λ next. refl)

abbrev request : String → Request
request authorization = record {
  authorization = authorization;
  path_params = ("name", "one") ∷ [];
  query_params = ("conditions", "region:=va6" ∷ []) ∷ [];
  body = "";
  oid = none;
  groups = none;
}

abbrev table : Table
table = ("one", row (pos 0) (cluster "one" "va6" "Active" "")) ∷ []

abbrev pub bad_patch : SpecPatch
bad_patch = record { status = none; phase = none; tags = some (("scaling", "maybe") ∷ []) }

abbrev pub patch_api : PatchApi Table (Unit {0})
patch_api = record {
  bind = λ c. ok bad_patch;
  validate_struct = λ patch. ok tt;
  get_client = λ cl w. (ok tt, w);
  marshal_patch = λ patch. ok "";
  merge_patch = λ client path namespace resource name patch w. (ok "", w);
}

abbrev reader : Request
reader = request "Bearer reader"

abbrev text_or : String → Result String → String
text_or d (ok s) = s
text_or d (err e) = d

abbrev groups_or : Result Claims → List String
groups_or (ok claims) = claims.groups
groups_or (err e) = []

not_reader : contains "writers" (groups_or (authenticator.claims "reader")) ≢ true
unfolding contains
not_reader e = cc

reader_closed : ¬ IsAuthorized authenticator no_limit "writers" reader table
unfolding extract_token verify contains
reader_closed (raw, token, claims, p, q, r, m) =
    let same : "reader" ≡ token = ap (text_or "") (p ∙ q) in
    let none_named : contains "writers" (groups_or (authenticator.claims token)) ≡ true =
      ap (λ x. contains "writers" (groups_or x)) r ∙ m in
    not_reader (
      subst (λ t. contains "writers" (groups_or (authenticator.claims t)) ≡ true) (sym same)
        none_named)

abbrev silent : Handler Table
silent c w = (returned (answer 204 nothing), w)

new_filter_condition_from_query-operand_example : IsFound "<"
new_filter_condition_from_query-operand_example =
    new_filter_condition_from_query-operand "lastUpdated:<=2024"
      {c = condition "lastUpdated" "<" "=2024"} query_tests.2

parsed : parse_conditions [] ("region:=va6" ∷ []) ≡ ok (condition "region" "=" "va6" ∷ [])
unfolding parse_conditions add_condition new_filter_condition_from_query find_match match_here
    first_operand span behind line_of trim_space
parsed = refl

pub bad-IsTag : ¬ All IsTag (("scaling", "maybe") ∷ [])
bad-IsTag h = ground (arith, h.0.1, eq_iff "maybe" "on", eq_iff "maybe" "off")

patch_found-invalid_example :
    (e : String) × (validate patch_api bad_patch ≡ err e)
    × (patch_found patch_api reader (ok (some (cluster "one" "va6" "Active" ""))) table
        ≡ (returned (answer 400 (failure e)), table))
patch_found-invalid_example =
    patch_found-invalid patch_api reader (cluster "one" "va6" "Active" "") bad_patch table refl
      bad-IsTag

abbrev empty_answer : Response
empty_answer = answer 200 (
    list_body
      (record { items = []; items_count = pos 0; offset = pos 0; limit = pos 200; more = false }))

abbrev request_for : String → Request
request_for q = record (request "Bearer reader") { query_params = ("conditions", q ∷ []) ∷ [] }

-- A time that is no time makes the database fail.
abbrev wrong_time : Request
wrong_time = record (request "Bearer reader") { query_params = ("lastUpdated", "soon" ∷ []) ∷ [] }

swallowed : (list_clusters_v1 memory 9 wrong_time table).0 ≡ returned empty_answer
unfolding list_clusters_v1 list_clusters list_filter parse_int lookup parse_unary
    new_cluster_list_response
swallowed = refl

refused :
    (list_clusters_v2 memory 9 (request_for "region") table).0
    ≡ returned (answer 400 (failure "invalid query"))
unfolding list_clusters_v2 with_conditions parse_conditions new_filter_condition_from_query
    find_match match_here span behind lookup
refused = refl
