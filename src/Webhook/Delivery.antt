-- ===== src/Webhook/Delivery.antt =====
-- What an alert leaves on the clusters, whatever the client does otherwise:
-- pkg/client/webhook/webhook.go, from `process` to the writes of the clusters.
use mathlib.Core.Option.{map}
use cluster_registry.Prelude.{
  ℕ, ◌≡◌, refl, sym, ap, ◌∙◌, String, ◌==◌, eq_iff, ◌&&◌, Bool, false, Bool-cases, Option, none,
  some, List, [], ◌∷◌, inl, inr, Dict, lookup, contains, get_or, if◌then◌else◌, Result, ok, err,
  Result-cases, is_ok, arith,
}
use cluster_registry.Registry.Cluster.{Cluster}
use cluster_registry.Webhook.{
  Alert, AlertRule, Server, firing, resolved, dead_mans_switch, excluded_tags, apply_tags,
  tag_cluster, update_items, update_cluster_tags, apply_rule, process_rules, process, retry,
  code_of, webhook_handler,
}
use cluster_registry.Webhook.Tags.{IsMap, or_else, lookup-apply_tags}
use cluster_registry.Webhook.Retries.{retry_loop-ok}

-- The annotations and the tags of a cluster.
abbrev pub Labels : Type 0
Labels = Option (Dict String) × Option (Dict String)

abbrev pub labels : Cluster → Labels
labels c = (c.meta.annotations, c.spec.tags)

-- The labels of a cluster to which a rule was applied.
abbrev pub tagged : Dict String → Labels → Labels
tagged tag l = (l.0, some (apply_tags (excluded_tags l.0) tag (get_or l.1 [])))

abbrev pub labels_of : String → List Cluster → Option Labels
labels_of name [] = none
labels_of name (c ∷ items) = if c.meta.name == name then some (labels c) else labels_of name items

abbrev pub IsDistinct : List Cluster → Type 0
IsDistinct [] = Unit
IsDistinct (c ∷ items) = (labels_of c.meta.name items ≡ none) × IsDistinct items

-- What the Kubernetes API documents of the calls that succeed: a list holds each cluster of the
-- namespace once, and an update changes the labels of its own cluster alone.
pub record ClusterLaws {W : Type 0} (s : Server W) (view : String → W → Option Labels)
    : Type 0 where
  pub listed :
      (w : W) (items : List Cluster)
      → (s.list w).0 ≡ ok items
      → IsDistinct items × ((name : String) → view name (s.list w).1 ≡ labels_of name items)
  pub updated :
      (c : Cluster) (w : W)
      → (s.update c w).0 ≡ ok tt
      → (name : String)
      → view name (s.update c w).1 ≡ (if c.meta.name == name then some (labels c) else view name w)

-- The tags that the rules have for an alert: those of the first rule of its name, for its status.
abbrev rule_tags : String → AlertRule → Option (Dict String)
rule_tags status a =
    if status == firing
    then some a.on_firing
    else if status == resolved
    then some a.on_resolved
    else none

abbrev wanted_tags : Alert → List AlertRule → Option (Dict String)
wanted_tags alert [] = none
wanted_tags alert (a ∷ rules) =
    if a.alert_name == alert.common_labels.alertname
    then rule_tags alert.status a
    else wanted_tags alert rules

abbrev is_dead_mans_switch : Alert → Bool
is_dead_mans_switch alert =
    (alert.common_labels.alertname == dead_mans_switch) && (alert.status == firing)

module _ {W : Type 0} (s : Server W) where
  process_rules_lem :
      (alert : Alert) (rules : List AlertRule) (w : W) (tag : Dict String)
      → wanted_tags alert rules ≡ some tag
      → process_rules s alert rules w ≡ retry s.pause (update_cluster_tags s tag) 3 w
  unfolding process_rules apply_rule
  process_rules_lem alert [] w tag e = cc
  process_rules_lem alert (a ∷ rules) w tag e =
      ground (arith, e, process_rules_lem alert rules w tag)

or_else_self : (f : Labels → Labels) (l : Option Labels) → or_else (map f l) l ≡ map f l
or_else_self f none = refl
or_else_self f (some l) = refl

tagged_has :
    (tag : Dict String) (l : Option Labels) {annotations tags : Option (Dict String)}
    → IsMap tag
    → map (tagged tag) l ≡ some (annotations, tags)
    → (key value : String) → lookup key tag ≡ some value
    → contains key (excluded_tags annotations) ≡ false
    → lookup key (get_or tags []) ≡ some value
tagged_has tag none keys e key value has free = cc
tagged_has tag (some l) {annotations} {tags} keys e key value has free =
    let same : (excluded_tags annotations ≡ excluded_tags l.0) × (tags ≡ (tagged tag l).1) =
      (cc, cc) in
    rw
      (
        same.1,
        lookup-apply_tags (excluded_tags l.0) tag (get_or l.1 []) key keys,
        sym same.0,
        free,
        has,
      )
      refl

code_of_failure :
    {W : Type 0} (r : Result (Unit {0}) × W) {w : W}
    → (is_ok r.0 ≡ false) × (r.1 ≡ w)
    → ◌≡◌ {A = ℕ × W} (code_of r.0, r.1) (400, w)
code_of_failure (ok u, w) (bad, same) = cc
code_of_failure (err e, w) (bad, same) = cc

-- One write of a cluster, and the writes of those behind it.
view_step :
    (tag : Dict String) (c : Cluster) (items : List Cluster) (name : String)
    (before : Option Labels)
    → labels_of c.meta.name items ≡ none
    → {written after : Option Labels}
    → written ≡ (if c.meta.name == name then some (tagged tag (labels c)) else before)
    → after ≡ or_else (map (tagged tag) (labels_of name items)) written
    → after ≡ or_else (map (tagged tag) (labels_of name (c ∷ items))) before
view_step tag c items name before fresh e rest = elim (Bool-cases (c.meta.name == name)) [
  | inl p ↦ rw (rest, e, p, (rw ((eq_iff c.meta.name name).0 p) at fresh)) refl
  | inr p ↦ rw (rest, e, p) refl
]

module _ {W : Type 0} (s : Server W) (view : String → W → Option Labels)
    (laws : ClusterLaws s view) where
  view-update_items :
      (tag : Dict String) (items : List Cluster) (w : W)
      → IsDistinct items
      → (update_items s tag items w).0 ≡ ok tt
      → (name : String)
      → view name (update_items s tag items w).1
        ≡ or_else (map (tagged tag) (labels_of name items)) (view name w)
  unfolding update_items tag_cluster
  view-update_items tag [] w distinct e name = refl
  view-update_items tag (c ∷ items) w (fresh, distinct) e name =
      elim (Result-cases (s.update (tag_cluster tag c) w).0) [
        | inl (u, p) ↦
            rw (p, update_items)
              (view_step tag c items name (view name w) fresh
                (laws.updated (tag_cluster tag c) w p name)
                (view-update_items tag items (s.update (tag_cluster tag c) w).1 distinct
                  (rw (p, update_items) at e) name))
        | inr (why, p) ↦ cc (rw (p, update_items) at e)
      ]

  view-update_cluster_tags :
      (tag : Dict String) (w : W)
      → (update_cluster_tags s tag w).0 ≡ ok tt
      → (name : String)
      → view name (update_cluster_tags s tag w).1 ≡ map (tagged tag) (view name (s.list w).1)
  unfolding update_cluster_tags
  view-update_cluster_tags tag w e name = elim (Result-cases (s.list w).0) [
    | inl (items, p) ↦
        let (distinct, shown) = laws.listed w items p in
        rw
          (
            p,
            update_cluster_tags,
            view-update_items tag items (s.list w).1 distinct (rw (p, update_cluster_tags) at e)
                name,
            shown name,
          )
          (or_else_self (tagged tag) _)
    | inr (why, p) ↦ cc (rw (p, update_cluster_tags) at e)
  ]

  view-retry :
      (attempts : ℕ) (tag : Dict String) (w : W)
      → (retry s.pause (update_cluster_tags s tag) attempts w).0 ≡ ok tt
      → (name : String)
      → (before : Option Labels) × (view name
            (retry s.pause (update_cluster_tags s tag) attempts w).1
          ≡ map (tagged tag) before)
  unfolding retry
  view-retry attempts tag w e name =
      let (i, small, good, world) =
        retry_loop-ok s.pause (update_cluster_tags s tag) attempts attempts none w e in
      (_, ap (view name) world ∙ view-update_cluster_tags tag _ good name)

  -- An alert that the rules have tags for, once processed without an error, leaves every cluster of
  -- the namespace with every tag that its annotations do not exclude, unless it is the dead man's
  -- switch, for a Kubernetes API whose successful calls do what they document.
  pub process-tagged :
      (alert : Alert) (tag : Dict String) (w : W)
      → is_dead_mans_switch alert ≡ false
      → wanted_tags alert s.alert_map ≡ some tag
      → IsMap tag
      → (process s alert w).0 ≡ ok tt
      → (name : String) {annotations tags : Option (Dict String)}
      → view name (process s alert w).1 ≡ some (annotations, tags)
      → (key value : String) → lookup key tag ≡ some value
      → contains key (excluded_tags annotations) ≡ false
      → lookup key (get_or tags []) ≡ some value
  unfolding process
  process-tagged alert tag w dms wanted keys e name found key value has free =
      let same : process s alert w ≡ retry s.pause (update_cluster_tags s tag) 3 w =
        rw (process, dms) (process_rules_lem s alert s.alert_map w tag wanted) in
      let (before, shown) = view-retry 3 tag w (rw same at e) name in
      tagged_has tag before keys (sym shown ∙ (rw same at found)) key value has free

module _ {W : Type 0} (s : Server W) where
  process_rules-ignored :
      (alert : Alert) (rules : List AlertRule) (w : W)
      → wanted_tags alert rules ≡ none
      → (is_ok (process_rules s alert rules w).0 ≡ false) × ((process_rules s alert rules w).1 ≡ w)
  unfolding process_rules apply_rule
  process_rules-ignored alert [] w e = (refl, refl)
  process_rules-ignored alert (a ∷ rules) w e =
      ground (arith, e, process_rules-ignored alert rules w)

  -- A message that is read as an alert for which the rules have no tags, which is not the dead
  -- man's switch, is answered with 400, and leaves the world as it was.
  webhook_handler-ignored :
      (unmarshal : String → Result Alert) (body : String) (alert : Alert) (w : W)
      → unmarshal body ≡ ok alert
      → is_dead_mans_switch alert ≡ false
      → wanted_tags alert s.alert_map ≡ none
      → webhook_handler s unmarshal (ok body) w ≡ (400, w)
  unfolding webhook_handler process
  webhook_handler-ignored unmarshal body alert w read dms e =
      rw (read, webhook_handler, process, dms)
        (code_of_failure (process_rules s alert s.alert_map w)
          (process_rules-ignored alert s.alert_map w e))
