-- ===== src/SyncManager/Merge.antt =====
-- pkg/api/registry/v1/merge.go. The merge of structs is that of the mergo library.
use cluster_registry.Prelude.{◌==◌, List, [], ◌∷◌, Result, ok, ◌>>=◌, if◌then◌else◌}
use cluster_registry.Registry.Cluster.{ClusterSpec, Tier}

-- `merge` is the merge of two clusters with override, in which tiers are merged by the function that
-- it is given; `merge_tier` is that of two tiers, which appends slices.
pub record Mergo : Type 0 where
  pub merge :
      (List Tier → List Tier → Result (List Tier)) → ClusterSpec → ClusterSpec → Result ClusterSpec
  pub merge_tier : Tier → Tier → Result Tier

module _ (m : Mergo) where
  -- A tier is merged into the first of its name, and left out if there is none.
  unfoldable pub merge_into : Tier → List Tier → Result (List Tier)
  merge_into s [] = ok []
  merge_into s (d ∷ tiers) =
      let rest = merge_into s tiers in
      if d.name == s.name
      then (m.merge_tier d s >>= (λ t. ok (t ∷ tiers)))
      else (rest >>= (λ ts. ok (d ∷ ts)))

  -- `mergeTiers`
  unfoldable pub merge_tiers : List Tier → List Tier → Result (List Tier)
  merge_tiers tiers [] = ok tiers
  merge_tiers tiers (s ∷ others) = merge_into s tiers >>= λ next. merge_tiers next others

  -- `Merge`
  unfoldable pub merge_spec : ClusterSpec → ClusterSpec → Result ClusterSpec
  merge_spec into from = m.merge merge_tiers into from
