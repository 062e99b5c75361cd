-- ===== src/Webhook/Tags.antt =====
-- What the loop over the tags of a rule leaves on a cluster: pkg/client/webhook/webhook.go,
-- `updateClusterTags`.
use cluster_registry.Prelude.{
  String, ◌≡◌, eq_iff, arith, Option, none, some, [], ◌∷◌, List, Dict, lookup, insert,
  lookup-insert, contains, if◌then◌else◌,
}
use cluster_registry.Webhook.{apply_tags}

-- No key stands in two entries, as in every Go map.
abbrev pub IsMap {ℓ} : {V : Type ℓ} → Dict V → Type ℓ
IsMap [] = Unit
IsMap (entry ∷ rest) = (lookup entry.0 rest ≡ none) × IsMap rest

-- The first value, where there is one.
abbrev pub or_else {ℓ} : {V : Type ℓ} → Option V → Option V → Option V
or_else none d = d
or_else (some v) d = some v

-- Behind the loop a tag has the rule's value if the rule has one and the cluster does not exclude
-- it, and else its old value, for the tags of a map.
pub lookup-apply_tags :
    (excluded : List String) (tag tags : Dict String) (key : String)
    → IsMap tag
    → lookup key (apply_tags excluded tag tags) ≡ (
        if contains key excluded
        then lookup key tags
        else or_else (lookup key tag) (lookup key tags))
unfolding apply_tags lookup
lookup-apply_tags excluded [] tags key h = ground arith
lookup-apply_tags excluded (entry ∷ rest) tags key (fresh, h) = ground (
  arith,
  fresh,
  lookup-apply_tags excluded rest tags key h,
  lookup-apply_tags excluded rest (insert entry.0 entry.1 tags) key h,
  lookup-insert entry.0 key entry.1 tags,
  eq_iff entry.0 key,
)
