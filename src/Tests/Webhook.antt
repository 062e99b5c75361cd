-- ===== src/Tests/Webhook.antt =====
-- The theorems of `Webhook` at concrete inputs.
use cluster_registry.Prelude.{
  ℕ, zero, suc, String, ◌≡◌, refl, ap, subst, ◌↔◌, ◌==◌, eq_iff, arith, Option, none, some, List,
  [], ◌∷◌, Dict, lookup, insert, contains, Result, ok, err, Act, if◌then◌else◌, decimal, ◌<◌,
}
use cluster_registry.Registry.Cluster.{Cluster}
use cluster_registry.Webhook.{
  Alert, AlertRule, Server, excluded_tags, split_comma, apply_tags, tag_cluster, retry, retry_loop,
  update_items, update_cluster_tags, apply_rule, process_rules, process,
}
use cluster_registry.Webhook.Retries.{before_attempt, retry-ok_iff}
use cluster_registry.Webhook.Delivery.{
  Labels, IsDistinct, labels, labels_of, ClusterLaws, process-tagged,
}
use cluster_registry.Tests.Memory.{cluster}

split_tests :
    (split_comma "onboarding,scaling" ≡ "onboarding" ∷ "scaling" ∷ [])
    × (split_comma "" ≡ "" ∷ [])
    × (split_comma "a,," ≡ "a" ∷ "" ∷ "" ∷ [])
    × (decimal 0 ≡ "0")
    × (decimal 4093 ≡ "4093")
unfolding split_comma decimal
split_tests = (refl, refl, refl, refl, refl)

-- The server of one cluster: how many of its next lists fail, and the labels of the cluster.
abbrev World : Type 0
World = ℕ × Labels

abbrev cluster_with : Labels → Cluster
cluster_with l = record (cluster "one" "va6" "Active" "") {
  meta = record ((cluster "one" "va6" "Active" "").meta) { name = "one"; annotations = l.0 };
  spec = record ((cluster "one" "va6" "Active" "").spec) { tags = l.1 };
}

abbrev list_one : Act World (Result (List Cluster))
list_one (zero, l) = (ok (cluster_with l ∷ []), (zero, l))
list_one (suc n, l) = (err "timeout", (n, l))

abbrev update_one : Cluster → Act World (Result (Unit {0}))
update_one c w = if c.meta.name == "one" then (ok tt, (w.0, labels c)) else (err "not found", w)

abbrev rules : List AlertRule
rules =
    record {
      alert_name = "HighLoad";
      on_firing = ("scaling", "off") ∷ ("onboarding", "off") ∷ [];
      on_resolved = ("scaling", "on") ∷ [];
    }
    ∷ []

abbrev server : Server World
server = record {
  list = list_one;
  update = update_one;
  record_dms_last_timestamp = λ w. w;
  pause = λ w. w;
  alert_map = rules;
}

abbrev view : String → World → Option Labels
view name w = if "one" == name then some w.1 else none

one_listed :
    (w : World) (items : List Cluster)
    → (list_one w).0 ≡ ok items
    → IsDistinct items × ((name : String) → view name (list_one w).1 ≡ labels_of name items)
one_listed (zero, l) items e =
    let same : cluster_with l ∷ [] ≡ items = cc in
    subst (λ i. IsDistinct i × ((name : String) → view name (zero, l) ≡ labels_of name i)) same
      ((refl, tt), λ name. refl)
one_listed (suc n, l) items e = cc

one_updated :
    (c : Cluster) (w : World)
    → (update_one c w).0 ≡ ok tt
    → (name : String)
    → view name (update_one c w).1 ≡ (if c.meta.name == name then some (labels c) else view name w)
one_updated c w e name =
    ground (arith, e, eq_iff c.meta.name "one", eq_iff c.meta.name name, eq_iff "one" name)

server_laws : ClusterLaws server view
server_laws = record { listed = one_listed; updated = one_updated }

abbrev alert : String → String → Alert
alert name status = record {
  receiver = "";
  status = status;
  alerts = [];
  group_labels = record { alertname = name };
  common_labels = record { alertname = name; service = ""; severity = "" };
  common_annotations = record { summary = "" };
  external_url = "";
  version = "4";
  group_key = "";
}

-- The cluster excludes the tag `onboarding`, and the first two lists fail.
abbrev excluding : Option (Dict String)
excluding = some (("registry.ethos.adobe.com/excluded-tags", "other,onboarding") ∷ [])

abbrev start : World
start = (2, (excluding, some (("onboarding", "on") ∷ [])))

processed :
    process server (alert "HighLoad" "firing") start
    ≡ (ok tt, (0, (excluding, some (("onboarding", "on") ∷ ("scaling", "off") ∷ []))))
unfolding process process_rules apply_rule retry retry_loop update_cluster_tags update_items
    tag_cluster apply_tags excluded_tags split_comma lookup insert contains
processed = refl

abbrev on_firing : Dict String
on_firing = ("scaling", "off") ∷ ("onboarding", "off") ∷ []

process-tagged_example :
    lookup {V = String} "scaling" (("onboarding", "on") ∷ ("scaling", "off") ∷ []) ≡ some "off"
unfolding lookup contains excluded_tags split_comma
process-tagged_example =
    process-tagged server view server_laws (alert "HighLoad" "firing") on_firing start refl refl
      (refl, (refl, tt)) (ap (λ r. r.0) processed) "one" (ap (λ r. view "one" r.1) processed)
      "scaling" "off" refl refl

retry-ok_iff_example :
    (retry (λ w. w) (update_cluster_tags server on_firing) 2 start).0 ≡ ok tt
    ↔ (i : ℕ) × (i < 2)
      × ((update_cluster_tags server on_firing
            (before_attempt (λ w. w) (update_cluster_tags server on_firing) i start)).0
          ≡ ok tt)
retry-ok_iff_example = retry-ok_iff (λ w. w) (update_cluster_tags server on_firing) 2 start
