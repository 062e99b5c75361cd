-- ===== src/SyncManager/Handlers.antt =====
-- pkg/sync/parser/handler: what each kind of object tells of a cluster. A handler goes through its
-- objects, and the first error ends it.
use text.Mathlib.Text.{starts_with}
use Prim.Native.Char.{code}
use Prim.Native.String.{[] as empty_text, ◌∷◌ as prefixed}
use cluster_registry.Prelude.{
  String, ◌==◌, Bool, true, false, List, [], ◌∷◌, ◌++◌, Result, ok, ◌>>=◌, pos, if◌then◌else◌, eqb,
}
use cluster_registry.Registry.Cluster.{ClusterSpec, empty_spec, Tier}
use cluster_registry.SyncManager.Objects.{
  ObjectApi, get_nested_string, get_nested_int64, get_nested_string_slice, get_nested_string_map,
  get_nested_slice,
}

-- `strings.Cut(arn, "/")`: the text behind the first slash, or nothing.
unfoldable pub extract_oidc_issuer_from_arn : String → String
extract_oidc_issuer_from_arn empty_text = ""
extract_oidc_issuer_from_arn (prefixed c s) =
    let later = extract_oidc_issuer_from_arn s in if eqb (code c) b'/' then s else later

-- `strings.Contains(name, "private")`
unfoldable pub mentions_private : String → Bool
mentions_private empty_text = false
mentions_private (prefixed c s) =
    let later = mentions_private s in if starts_with (prefixed c s) "private" then true else later

-- The tier of this name is replaced where it stands, or the tier is added at the end.
unfoldable pub put_tier : Tier → List Tier → List Tier
put_tier tier [] = tier ∷ []
put_tier tier (t ∷ tiers) = if t.name == tier.name then tier ∷ tiers else t ∷ put_tier tier tiers

-- A tier with a container runtime and nothing else.
abbrev runtime_tier : String → String → Tier
runtime_tier name runtime = record {
  name = name;
  instance_type = "";
  container_runtime = runtime;
  min_capacity = pos 0;
  max_capacity = pos 0;
  labels = [];
  taints = [];
  enable_kata_support = false;
  kernel_parameters = [];
}

-- The tier of this name takes the container runtime, or one that has nothing else is added.
unfoldable pub put_runtime : String → String → List Tier → List Tier
put_runtime name runtime [] = runtime_tier name runtime ∷ []
put_runtime name runtime (t ∷ tiers) =
    if t.name == name
    then record t { container_runtime = runtime } ∷ tiers
    else t ∷ put_runtime name runtime tiers

abbrev pub with_tiers : ClusterSpec → List Tier → ClusterSpec
with_tiers spec tiers = record spec { tiers = tiers }

module _ {Object Element : Type 0} (api : ObjectApi Object Element) where
  -- The loop of a handler, from the result so far.
  unfoldable pub handle_all :
      (ClusterSpec → Object → Result ClusterSpec) → ClusterSpec → List Object → Result ClusterSpec
  handle_all one spec [] = ok spec
  handle_all one spec (obj ∷ objects) = one spec obj >>= λ next. handle_all one next objects

  -- `AWSManagedControlPlaneHandler`
  unfoldable pub control_plane : ClusterSpec → Object → Result ClusterSpec
  control_plane spec obj = do
    arn ← get_nested_string api obj ("status" ∷ "oidcProvider" ∷ "arn" ∷ [])
    ok (record spec {
      extra = record (spec.extra) { oidc_issuer = extract_oidc_issuer_from_arn arn };
    })

  -- `ClusterHandler`
  unfoldable pub capi_cluster : ClusterSpec → Object → Result ClusterSpec
  capi_cluster spec obj = do
    short_name ← get_nested_string api obj ("metadata" ∷ "labels" ∷ "clusterShortName" ∷ [])
    region ← get_nested_string api obj ("metadata" ∷ "labels" ∷ "locationShortName" ∷ [])
    provider ← get_nested_string api obj ("metadata" ∷ "labels" ∷ "provider" ∷ [])
    location ← get_nested_string api obj ("metadata" ∷ "labels" ∷ "location" ∷ [])
    environment ← get_nested_string api obj ("metadata" ∷ "labels" ∷ "environment" ∷ [])
    ok (record spec {
      short_name = short_name;
      region = region;
      cloud_type = provider;
      cloud_provider_region = location;
      environment = environment;
    })

  -- `EKSConfigHandler`
  unfoldable pub eks_config : ClusterSpec → Object → Result ClusterSpec
  eks_config spec obj = do
    runtime ← get_nested_string api obj ("spec" ∷ "containerRuntime" ∷ [])
    ok (with_tiers spec (put_runtime (api.get_name obj) runtime spec.tiers))

  -- What a private subnet adds.
  private_subnet : ClusterSpec → Object → Result ClusterSpec
  private_subnet spec obj = do
    name ← get_nested_string api obj ("spec" ∷ "availabilityZone" ∷ [])
    id ← get_nested_string api obj ("spec" ∷ "availabilityZoneID" ∷ [])
    ok (record spec {
      availability_zones = spec.availability_zones ++ (record { name = name; id = id }) ∷ [];
    })

  -- `SubnetHandler`, which passes over the subnets that are not private.
  unfoldable pub subnet : ClusterSpec → Object → Result ClusterSpec
  unfolding private_subnet
  subnet spec obj = if mentions_private (api.get_name obj) then private_subnet spec obj else ok spec

  -- `VPCHandler`
  unfoldable pub vpc : ClusterSpec → Object → Result ClusterSpec
  vpc spec obj = do
    id ← get_nested_string api obj ("status" ∷ "vpcID" ∷ [])
    cidrs ← get_nested_string_slice api obj ("spec" ∷ "cidrBlocks" ∷ [])
    account ← get_nested_string api obj ("status" ∷ "ownerID" ∷ [])
    ok (record spec {
      virtual_networks = spec.virtual_networks ++ (record { id = id; cidrs = cidrs }) ∷ [];
      account_id = account;
    })

  taints_from : List Element → Result (List String)
  taints_from [] = ok []
  taints_from (t ∷ taints) = do shown ← api.taint t; rest ← taints_from taints; ok (shown ∷ rest)

  -- `getTaintsAsStringSlice`
  unfoldable pub get_taints_as_string_slice : Object → List String → Result (List String)
  unfolding taints_from
  get_taints_as_string_slice obj fields = get_nested_slice api obj fields >>= taints_from

  -- The tier of a machine pool.
  unfoldable pub pool_tier : Object → Result Tier
  pool_tier obj = do
    name ← get_nested_string api obj ("spec" ∷ "awsLaunchTemplate" ∷ "name" ∷ [])
    instance_type ← get_nested_string api obj ("spec" ∷ "awsLaunchTemplate" ∷ "instanceType" ∷ [])
    min_size ← get_nested_int64 api obj ("spec" ∷ "scaling" ∷ "minSize" ∷ [])
    max_size ← get_nested_int64 api obj ("spec" ∷ "scaling" ∷ "maxSize" ∷ [])
    labels ← get_nested_string_map api obj ("spec" ∷ "labels" ∷ [])
    taints ← get_taints_as_string_slice obj ("spec" ∷ "taints" ∷ [])
    ok (record {
      name = name;
      instance_type = instance_type;
      container_runtime = "";
      min_capacity = min_size;
      max_capacity = max_size;
      labels = labels;
      taints = taints;
      enable_kata_support = false;
      kernel_parameters = [];
    })

  -- `AWSManagedMachinePoolHandler`
  unfoldable pub machine_pool : ClusterSpec → Object → Result ClusterSpec
  machine_pool spec obj = pool_tier obj >>= λ tier. ok (with_tiers spec (put_tier tier spec.tiers))

  -- `Handle` of each kind.
  abbrev pub handle_objects :
      (ClusterSpec → Object → Result ClusterSpec) → List Object → Result ClusterSpec
  handle_objects one objects = handle_all one empty_spec objects
