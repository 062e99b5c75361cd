-- ===== src/Webhook.antt =====
-- pkg/client/webhook: the Alertmanager webhook of the client, which tags the clusters of its
-- namespace when an alert fires or is resolved. The log lines are left out.
pub mod Tags
pub mod Retries
pub mod Delivery
use Prim.Native.Char.{code}
use Prim.Native.String.{[] as empty_text, ◌∷◌ as prefixed}
use cluster_registry.Prelude.{
  ℕ, zero, suc, String, ◌<>◌, ◌==◌, ◌&&◌, Option, none, some, List, [], ◌∷◌, Dict, lookup, insert,
  get_or, contains, Result, ok, err, Act, ℤ, if◌then◌else◌, eqb, decimal,
}
use cluster_registry.Registry.Cluster.{Cluster}

pub record AlertLabels : Type 0 where
  pub alertname : String
  pub service : String
  pub severity : String

pub record CommonAnnotations : Type 0 where
  pub summary : String

pub record GroupLabels : Type 0 where
  pub alertname : String

pub record CommonLabels : Type 0 where
  pub alertname : String
  pub service : String
  pub severity : String

-- Times are nanoseconds since 1970.
pub record AlertItem : Type 0 where
  pub status : String
  pub labels : AlertLabels
  pub annotations : CommonAnnotations
  pub starts_at : ℤ
  pub ends_at : ℤ
  pub generator_url : String
  pub fingerprint : String

pub record Alert : Type 0 where
  pub receiver : String
  pub status : String
  pub alerts : List AlertItem
  pub group_labels : GroupLabels
  pub common_labels : CommonLabels
  pub common_annotations : CommonAnnotations
  pub external_url : String
  pub version : String
  pub group_key : String

pub record AlertRule : Type 0 where
  pub alert_name : String
  pub on_firing : Dict String
  pub on_resolved : Dict String

abbrev pub firing : String
firing = "firing"

abbrev pub resolved : String
resolved = "resolved"

abbrev pub dead_mans_switch : String
dead_mans_switch = "CRCDeadMansSwitch"

abbrev excluded_tags_annotation : String
excluded_tags_annotation = "registry.ethos.adobe.com/excluded-tags"

abbrev onto_first : String → List String → List String
onto_first c [] = c ∷ []
onto_first c (word ∷ words) = (c <> word) ∷ words

-- `strings.Split(s, ",")`
unfoldable pub split_comma : String → List String
split_comma empty_text = "" ∷ []
split_comma (prefixed c s) =
    let words = split_comma s in
    if eqb (code c) b',' then "" ∷ words else onto_first (prefixed c empty_text) words

-- The tags that the annotations of a cluster exclude. A nil map has no entries.
unfoldable pub excluded_tags : Option (Dict String) → List String
excluded_tags annotations =
    let annotation = get_or (lookup excluded_tags_annotation (get_or annotations [])) "" in
    if annotation == "" then [] else split_comma annotation

-- The loop over the tags of a rule.
unfoldable pub apply_tags : List String → Dict String → Dict String → Dict String
apply_tags excluded [] tags = tags
apply_tags excluded (entry ∷ rest) tags =
    let others = apply_tags excluded rest in
    if contains entry.0 excluded then others tags else others (insert entry.0 entry.1 tags)

-- One cluster of the loop of `updateClusterTags`, before it is written.
unfoldable pub tag_cluster : Dict String → Cluster → Cluster
tag_cluster tag c = record c {
  spec = record (c.spec) {
    tags = some (apply_tags (excluded_tags c.meta.annotations) tag (get_or c.spec.tags []));
  };
}

-- What the server calls: the Kubernetes client, in the server's namespace, the metric of the dead
-- man's switch, and the pause of two seconds between attempts.
pub record Server (W : Type 0) : Type 0 where
  pub list : Act W (Result (List Cluster))
  pub update : Cluster → Act W (Result (Unit {0}))
  pub record_dms_last_timestamp : W → W
  pub pause : W → W
  pub alert_map : List AlertRule

abbrev shown_error : Option String → String
shown_error none = "%!s(<nil>)"
shown_error (some e) = e

module _ {W : Type 0} where
  -- The loop of `retry`, with the attempts that are left and the last error.
  unfoldable pub retry_loop :
      ℕ → ℕ → (W → W) → Act W (Result (Unit {0})) → Option String → Act W (Result (Unit {0}))
  retry_loop attempts zero pause f last w =
      (err ("after " <> decimal attempts <> " attempts, last error: " <> shown_error last), w)
  retry_loop attempts (suc left) pause f last w = elim (f w).0 [
    | ok u ↦ (ok tt, (f w).1)
    | err e ↦ retry_loop attempts left pause f (some e) (pause (f w).1)
  ]

  unfoldable pub retry : (W → W) → Act W (Result (Unit {0})) → ℕ → Act W (Result (Unit {0}))
  unfolding retry_loop
  retry pause f attempts w = retry_loop attempts attempts pause f none w

-- The status code of an answer.
abbrev pub code_of : Result (Unit {0}) → ℕ
code_of (ok u) = 200
code_of (err e) = 400

module _ {W : Type 0} (s : Server W) where
  -- The loop over the clusters, which ends at the first that cannot be written.
  unfoldable pub update_items : Dict String → List Cluster → Act W (Result (Unit {0}))
  update_items tag [] w = (ok tt, w)
  update_items tag (c ∷ items) w = elim (s.update (tag_cluster tag c) w).0 [
    | err e ↦ (err e, (s.update (tag_cluster tag c) w).1)
    | ok u ↦ update_items tag items (s.update (tag_cluster tag c) w).1
  ]

  -- `updateClusterTags`
  unfoldable pub update_cluster_tags : Dict String → Act W (Result (Unit {0}))
  update_cluster_tags tag w = elim (s.list w).0 [
    | err e ↦ (err e, (s.list w).1)
    | ok items ↦ update_items tag items (s.list w).1
  ]

  -- What the first rule of the alert's name does; no later rule is looked at.
  unfoldable pub apply_rule : String → AlertRule → Act W (Result (Unit {0}))
  apply_rule status a w =
      if status == firing
      then retry s.pause (update_cluster_tags a.on_firing) 3 w
      else if status == resolved
      then retry s.pause (update_cluster_tags a.on_resolved) 3 w
      else (err "invalid alert status", w)

  -- The loop over the rules.
  unfoldable pub process_rules : Alert → List AlertRule → Act W (Result (Unit {0}))
  process_rules alert [] w = (err "unmapped alert received via webhook", w)
  process_rules alert (a ∷ rules) w =
      let others = process_rules alert rules w in
      if a.alert_name == alert.common_labels.alertname then apply_rule alert.status a w else others

  unfoldable pub process : Alert → Act W (Result (Unit {0}))
  process alert w =
      if (alert.common_labels.alertname == dead_mans_switch) && (alert.status == firing)
      then (ok tt, s.record_dms_last_timestamp w)
      else process_rules alert s.alert_map w

  -- `webhookHandler`: the code of its answer. The body is the read of the request's, and
  -- `unmarshal` is the decoder of an alert.
  unfoldable pub webhook_handler : (String → Result Alert) → Result String → Act W ℕ
  webhook_handler unmarshal (err e) w = (500, w)
  webhook_handler unmarshal (ok body) w = elim (unmarshal body) [
    | err e ↦ (400, w)
    | ok alert ↦ (code_of (process alert w).0, (process alert w).1)
  ]
