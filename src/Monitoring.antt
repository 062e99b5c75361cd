-- ===== src/Monitoring.antt =====
-- pkg/monitoring/apiserver: the metrics of the API server, and the middleware that measures each
-- request. An observed duration is left out, so that a histogram is the number of its observations.
pub mod Counting
use cluster_registry.Prelude.{
  ℕ, ◌+◌, eqb, String, ◌==◌, ◌&&◌, ◌||◌, Bool, true, false, Option, none, some, List, [], ◌∷◌, Act,
  get_or, decimal, if◌then◌else◌,
}

-- A vector of counters: one for each list of label values that was seen.
abbrev pub Vec : Type 0
Vec = List (List String × ℕ)

unfoldable pub same_labels : List String → List String → Bool
same_labels [] [] = true
same_labels [] (t ∷ ts) = false
same_labels (s ∷ ss) [] = false
same_labels (s ∷ ss) (t ∷ ts) = (s == t) && same_labels ss ts

-- `WithLabelValues(labels...).Inc()`
unfoldable pub inc : List String → Vec → Vec
inc labels [] = (labels, 1) ∷ []
inc labels (entry ∷ vec) =
    if same_labels entry.0 labels then (entry.0, entry.1 + 1) ∷ vec else entry ∷ inc labels vec

-- The value of the counter; one that was not seen is 0.
unfoldable pub count_at : List String → Vec → ℕ
count_at labels [] = 0
count_at labels (entry ∷ vec) = if same_labels entry.0 labels then entry.1 else count_at labels vec

-- `Metrics`; the label that is read from the context is empty in one that `NewMetrics` makes.
pub record Metrics : Type 0 where
  pub ingress_req_cnt : Vec
  pub egress_req_cnt : Vec
  pub ingress_req_dur : Vec
  pub egress_req_dur : Vec
  pub err_cnt : Vec
  pub url_label_from_context : String

abbrev pub new_metrics : Metrics
new_metrics = record {
  ingress_req_cnt = [];
  egress_req_cnt = [];
  ingress_req_dur = [];
  egress_req_dur = [];
  err_cnt = [];
  url_label_from_context = "";
}

abbrev pub record_error_cnt : String → Metrics → Metrics
record_error_cnt target m = record m { err_cnt = inc (target ∷ []) m.err_cnt }

abbrev record_egress_request_cnt : String → Metrics → Metrics
record_egress_request_cnt target m = record m {
  egress_req_cnt = inc (target ∷ []) m.egress_req_cnt;
}

abbrev record_egress_request_dur : String → Metrics → Metrics
record_egress_request_dur target m = record m {
  egress_req_dur = inc (target ∷ []) m.egress_req_dur;
}

abbrev record_ingress_request_cnt : String → String → String → Metrics → Metrics
record_ingress_request_cnt code method url m = record m {
  ingress_req_cnt = inc (code ∷ method ∷ url ∷ []) m.ingress_req_cnt;
}

abbrev record_ingress_request_dur : String → String → String → Metrics → Metrics
record_ingress_request_dur code method url m = record m {
  ingress_req_dur = inc (code ∷ method ∷ url ∷ []) m.ingress_req_dur;
}

-- The error of a handler: `errors.As` finds an `HTTPError` in it, with its code, or it does not.
pub data ServeError : Type 0 where
  http_error : ℕ → String → ServeError
  other_error : String → ServeError

-- What a handler leaves: its error, the status that was written, and the values in the context.
pub record Served : Type 0 where
  pub error : Option ServeError
  pub status : ℕ
  pub context : String → Option String

abbrev error_status : ℕ → ServeError → ℕ
error_status status (http_error code message) = code
error_status status (other_error message) = status

-- The status that is counted: an error is never counted as a success.
unfoldable pub counted_status : ℕ → Option ServeError → ℕ
counted_status status none = status
counted_status status (some e) =
    if eqb (error_status status e) 0 || eqb (error_status status e) 200
    then 500
    else error_status status e

-- The URL that is counted.
unfoldable pub url_label : Metrics → String → (String → Option String) → String
url_label m path context =
    if m.url_label_from_context == ""
    then path
    else get_or (context m.url_label_from_context) "unknown"

-- The metrics beside the world.
abbrev pub Measured : Type 0 → Type 0
Measured W = Metrics × W

abbrev pub measure : String → String → Served → Metrics → Metrics
measure method path served m =
    let code = decimal (counted_status served.status served.error) in
    let url = url_label m path served.context in
    record_ingress_request_dur code method url (record_ingress_request_cnt code method url m)

-- `handlerFunc`, of the method and the path of the route of a request.
unfoldable pub handler_func :
    {W : Type 0} → String → String → Act (Measured W) Served → Act (Measured W) Served
handler_func method path next s =
    if path == "/metrics"
    then next s
    else (let (served, s') = next s in (served, (measure method path served s'.0, s'.1)))
