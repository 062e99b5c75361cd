-- ===== src/SyncManager/Tiers.antt =====
-- The tiers of a partial cluster: pkg/sync/parser/handler and pkg/api/registry/v1/merge.go.
use cluster_registry.Prelude.{
  suc, ◌+◌, ◌≤◌, String, ◌≡◌, sym, ok_injective, ap, subst, ◌∙◌, ◌≢◌, ◌==◌, eq_iff, Bool-cases, inl,
  inr, List, [], ◌∷◌, map, ok, bind-eq-ok, length, All, arith,
}
use cluster_registry.Registry.Cluster.{Tier, ClusterSpec, empty_spec}
use cluster_registry.SyncManager.Objects.{ObjectApi}
use cluster_registry.SyncManager.Handlers.{
  put_tier, handle_all, handle_objects, machine_pool, pool_tier, with_tiers,
}
use cluster_registry.SyncManager.Merge.{Mergo, merge_into, merge_tiers}

abbrev name_of : Tier → String
name_of t = t.name

-- A merge of two tiers that are there keeps the name: it overrides nothing that is not empty.
abbrev KeepsName : Mergo → Type 0
KeepsName m = (d s t : Tier) → d.name ≡ s.name → m.merge_tier d s ≡ ok t → t.name ≡ d.name

module _ (m : Mergo) (keeps : KeepsName m) where
  merge_into-names :
      (s : Tier) (tiers : List Tier) {merged : List Tier}
      → merge_into m s tiers ≡ ok merged
      → map name_of merged ≡ map name_of tiers
  unfolding merge_into
  merge_into-names s [] e = ap (map name_of) (sym (ok_injective e))
  merge_into-names s (d ∷ tiers) e = elim (Bool-cases (d.name == s.name)) [
    | inl p ↦
        let (t, good, same) =
          bind-eq-ok (m.merge_tier d s) (λ x. ok (x ∷ tiers)) (rw (p, merge_into) at e) in
        rw (sym (ok_injective same))
          (ap (λ n. n ∷ map name_of tiers) (keeps d s t ((eq_iff d.name s.name).0 p) good))
    | inr p ↦
        let (ts, good, same) =
          bind-eq-ok (merge_into m s tiers) (λ x. ok (d ∷ x)) (rw (p, merge_into) at e) in
        rw (sym (ok_injective same)) (ap (λ ns. d.name ∷ ns) (merge_into-names s tiers good))
  ]

  -- A merge of tiers that gives no error neither adds nor removes one: the names stay as they are,
  -- in order.
  merge_tiers-names :
      (tiers others : List Tier) {merged : List Tier}
      → merge_tiers m tiers others ≡ ok merged
      → map name_of merged ≡ map name_of tiers
  unfolding merge_tiers
  merge_tiers-names tiers [] e = ap (map name_of) (sym (ok_injective e))
  merge_tiers-names tiers (s ∷ others) e =
      let (next, good, rest) = bind-eq-ok (merge_into m s tiers) (λ n. merge_tiers m n others) e in
      merge_tiers-names next others rest ∙ merge_into-names s tiers good

-- No two tiers have one name.
abbrev HasName : String → Tier → Type 0
HasName name t = t.name ≢ name

abbrev pub IsDistinct : List Tier → Type 0
IsDistinct [] = Unit
IsDistinct (t ∷ tiers) = All (HasName t.name) tiers × IsDistinct tiers

put_tier-HasName :
    (name : String) (tier : Tier) (tiers : List Tier)
    → tier.name ≢ name
    → All (HasName name) tiers
    → All (HasName name) (put_tier tier tiers)
unfolding put_tier
put_tier-HasName name tier [] other h = (other, tt)
put_tier-HasName name tier (t ∷ tiers) other (first, rest) =
    elim (Bool-cases (t.name == tier.name)) [
      | inl p ↦ rw p (other, rest)
      | inr p ↦ rw p (first, put_tier-HasName name tier tiers other rest)
    ]

put_tier-IsDistinct :
    (tier : Tier) (tiers : List Tier) → IsDistinct tiers → IsDistinct (put_tier tier tiers)
unfolding put_tier
put_tier-IsDistinct tier [] h = (tt, tt)
put_tier-IsDistinct tier (t ∷ tiers) (fresh, h) = elim (Bool-cases (t.name == tier.name)) [
  | inl p ↦ rw p (subst (λ n. All (HasName n) tiers) ((eq_iff t.name tier.name).0 p) fresh, h)
  | inr p ↦ rw p (
    put_tier-HasName t.name tier tiers (λ e. ground (arith, p, e, eq_iff t.name tier.name)) fresh,
    put_tier-IsDistinct tier tiers h,
  )
]

length-put_tier :
    (tier : Tier) (tiers : List Tier) → length (put_tier tier tiers) ≤ suc (length tiers)
unfolding put_tier
length-put_tier tier [] = omega arith
length-put_tier tier (t ∷ tiers) = ground (arith, length-put_tier tier tiers)

module _ {Object Element : Type 0} (api : ObjectApi Object Element) where
  -- What one machine pool makes of the tiers.
  machine_pool-tiers :
      (spec : ClusterSpec) (obj : Object) {next : ClusterSpec}
      → machine_pool api spec obj ≡ ok next
      → (tier : Tier) × (next.tiers ≡ put_tier tier spec.tiers)
  unfolding machine_pool
  machine_pool-tiers spec obj e =
      let (tier, good, same) =
        bind-eq-ok (pool_tier api obj) (λ t. ok (with_tiers spec (put_tier t spec.tiers))) e in
      (tier, ap (λ r. r.tiers) (sym (ok_injective same)))

  handle_all-machine_pool :
      (spec : ClusterSpec) (objects : List Object) {last : ClusterSpec}
      → IsDistinct spec.tiers
      → handle_all api (machine_pool api) spec objects ≡ ok last
      → IsDistinct last.tiers × (length last.tiers ≤ length spec.tiers + length objects)
  unfolding handle_all
  handle_all-machine_pool spec [] distinct e = rw (sym (ok_injective e)) (distinct, omega arith)
  handle_all-machine_pool spec (obj ∷ objects) distinct e =
      let (next, good, rest) =
        bind-eq-ok (machine_pool api spec obj) (λ n. handle_all api (machine_pool api) n objects)
          e in
      let (tier, same) = machine_pool-tiers spec obj good in
      let (last_distinct, short) =
        handle_all-machine_pool next objects
          (rw same (put_tier-IsDistinct tier spec.tiers distinct)) rest in
      (last_distinct, omega (arith, short, ap length same, length-put_tier tier spec.tiers))

  -- The tiers that are made of machine pools have distinct names, and are at most as many as the
  -- machine pools.
  pub handle_objects-machine_pool :
      (objects : List Object) {spec : ClusterSpec}
      → handle_objects api (machine_pool api) objects ≡ ok spec
      → IsDistinct spec.tiers × (length spec.tiers ≤ length objects)
  handle_objects-machine_pool objects e =
      let (distinct, short) = handle_all-machine_pool empty_spec objects tt e in
      (distinct, omega (arith, short))
