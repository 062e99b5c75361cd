-- ===== src/Monitoring/Counting.antt =====
-- What the middleware of pkg/monitoring/apiserver counts.
use cluster_registry.Prelude.{
  ℕ, ◌+◌, String, ◌==◌, ◌≡◌, ◌≢◌, ◌↔◌, inl, inr, refl, Bool-cases, true, some, List, [], ◌∷◌, Act,
  decimal, eq_iff, eqb, ◌||◌, ◌⊎◌, Option, none, Option-cases, arith, if◌then◌else◌,
}
use cluster_registry.Monitoring.{
  Vec, same_labels, inc, count_at, ServeError, http_error, other_error, Served, counted_status,
  Metrics, url_label, Measured, measure, handler_func,
}

same_labels_iff : (ss ts : List String) → (same_labels ss ts ≡ true) ↔ (ss ≡ ts)
unfolding same_labels
same_labels_iff [] [] = (λ h. refl, λ h. refl)
same_labels_iff [] (t ∷ ts) = (λ h. cc, λ h. cc)
same_labels_iff (s ∷ ss) [] = (λ h. cc, λ h. cc)
same_labels_iff (s ∷ ss) (t ∷ ts) = (
  λ h. ground (arith, h, eq_iff s t, same_labels_iff ss ts),
  λ h. ground (arith, h, eq_iff s t, same_labels_iff ss ts),
)

count_at-inc :
    (labels seen : List String) (vec : Vec)
    → count_at seen (inc labels vec)
      ≡ count_at seen vec + (if same_labels labels seen then 1 else 0)
unfolding count_at inc
count_at-inc labels seen [] = ground arith
count_at-inc labels seen (entry ∷ vec) = ground (
  arith,
  count_at-inc labels seen vec,
  same_labels_iff entry.0 labels,
  same_labels_iff entry.0 seen,
  same_labels_iff labels seen,
)

-- One more is counted under these labels, and nothing else.
abbrev IsCounted : List String → Vec → Vec → Type 0
IsCounted labels before after =
    (seen : List String)
    → count_at seen after ≡ count_at seen before + (if same_labels labels seen then 1 else 0)

-- The status that a request is to be counted with: that of a success is the one that was written,
-- that of an error is its own code, or the one that was written where it has none, unless that is
-- not set or the one of a success.
pub data IsStatus : ℕ → Option ServeError → ℕ → Type 0 where
  success : {status : ℕ} → IsStatus status none status
  own_code :
      {status code : ℕ} {message : String}
      → code ≢ 0
      → code ≢ 200
      → IsStatus status (some (http_error code message)) code
  own_code_unfit :
      {status code : ℕ} {message : String}
      → (code ≡ 0) ⊎ (code ≡ 200)
      → IsStatus status (some (http_error code message)) 500
  written :
      {status : ℕ} {message : String}
      → status ≢ 0
      → status ≢ 200
      → IsStatus status (some (other_error message)) status
  written_unfit :
      {status : ℕ} {message : String}
      → (status ≡ 0) ⊎ (status ≡ 200)
      → IsStatus status (some (other_error message)) 500

-- The URL that a request is to be counted with: the path of its route, or what the context has under
-- the label, if there is a label.
pub data IsUrl (path : String) (context : String → Option String) : String → String → Type 0 where
  of_route : IsUrl path context "" path
  of_context :
      {label url : String} → label ≢ "" → context label ≡ some url → IsUrl path context label url
  unknown :
      {label : String} → label ≢ "" → context label ≡ none → IsUrl path context label "unknown"

fit_status :
    (code : ℕ)
    → ((code ≢ 0) × (code ≢ 200) × ((if eqb code 0 || eqb code 200 then 500 else code) ≡ code))
      ⊎ (((code ≡ 0) ⊎ (code ≡ 200)) × ((if eqb code 0 || eqb code 200 then 500 else code) ≡ 500))
fit_status code = ground arith

counted_status-IsStatus :
    (status : ℕ) (e : Option ServeError) → IsStatus status e (counted_status status e)
unfolding counted_status
counted_status-IsStatus status none = success
counted_status-IsStatus status (some (http_error code message)) = elim (fit_status code) [
  | inl (p, q, same) ↦ rw same (own_code p q)
  | inr (unfit, same) ↦ rw same (own_code_unfit unfit)
]
counted_status-IsStatus status (some (other_error message)) = elim (fit_status status) [
  | inl (p, q, same) ↦ rw same (written p q)
  | inr (unfit, same) ↦ rw same (written_unfit unfit)
]

url_label-IsUrl :
    (m : Metrics) (path : String) (context : String → Option String)
    → IsUrl path context m.url_label_from_context (url_label m path context)
unfolding url_label
url_label-IsUrl m path context = elim (Bool-cases (m.url_label_from_context == "")) [
  | inl empty ↦
      let none_set = (eq_iff m.url_label_from_context "").0 empty in
      rw (empty, url_label) (rw none_set of_route)
  | inr set ↦
      let is_set : m.url_label_from_context ≢ "" =
        λ e. cc (set, (eq_iff m.url_label_from_context "").1 e) in
      elim (Option-cases (context m.url_label_from_context)) [
        | inl p ↦ rw (set, url_label, p) (unknown is_set p)
        | inr (url, p) ↦ rw (set, url_label, p) (of_context is_set p)
      ]
]

-- What is counted of a request that is served: one request and one duration, with the status and
-- the URL that it is to be counted with.
pub record Counts {W : Type 0} (method path : String) (served : Served) (before after : Measured W)
    : Type 0 where
  pub status : ℕ
  pub url : String
  pub is_status : IsStatus served.status served.error status
  pub is_url : IsUrl path served.context before.0.url_label_from_context url
  pub counted_requests :
      IsCounted
        (decimal status ∷ method ∷ url ∷ [])
        before.0.ingress_req_cnt
        after.0.ingress_req_cnt
  pub counted_durations :
      IsCounted
        (decimal status ∷ method ∷ url ∷ [])
        before.0.ingress_req_dur
        after.0.ingress_req_dur
  pub calls : after.0.egress_req_cnt ≡ before.0.egress_req_cnt
  pub call_durations : after.0.egress_req_dur ≡ before.0.egress_req_dur
  pub errors : after.0.err_cnt ≡ before.0.err_cnt
  pub label : after.0.url_label_from_context ≡ before.0.url_label_from_context
  pub outside : after.1 ≡ before.1

counts :
    {W : Type 0} (method path : String) (served : Served) (s : Measured W)
    → Counts method path served s (measure method path served s.0, s.1)
counts method path served s = record {
  status = counted_status served.status served.error;
  url = url_label s.0 path served.context;
  is_status = counted_status-IsStatus served.status served.error;
  is_url = url_label-IsUrl s.0 path served.context;
  counted_requests = λ seen. count_at-inc _ seen s.0.ingress_req_cnt;
  counted_durations = λ seen. count_at-inc _ seen s.0.ingress_req_dur;
  calls = refl;
  call_durations = refl;
  errors = refl;
  label = refl;
  outside = refl;
}

-- On any path but /metrics the middleware of the metrics gives what the handler gives, counts one
-- request and one duration, and nothing else. They are counted under the method, the path of the
-- route, or where the metrics have a label for it the value of the context under that label or
-- "unknown", and a status: that which was written for a success, and for an error its own code, or
-- where it has none the one that was written, unless that is 0 or 200, which is counted as 500.
pub handler_func-Counts :
    {W : Type 0} (method path : String) (next : Act (Measured W) Served) (s : Measured W)
    → path ≢ "/metrics"
    → ((handler_func method path next s).0 ≡ (next s).0)
      × Counts method path (next s).0 (next s).1 (handler_func method path next s).1
unfolding handler_func
handler_func-Counts method path next s other = elim (Bool-cases (path == "/metrics")) [
  | inl same ↦ absurd (other ((eq_iff path "/metrics").0 same))
  | inr differs ↦ rw (differs, handler_func) (refl, counts method path (next s).0 (next s).1)
]
