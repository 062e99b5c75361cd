-- ===== src/Registry/Cluster.antt =====
-- pkg/api/registry/v1/cluster_types.go. A slice is a list; a map is the list of its entries, and
-- `none` where the code can tell a nil map from an empty one; a pointer is an option.
use cluster_registry.Prelude.{String, Bool, Option, none, List, [], Dict, ℤ, pos}

pub record ApiServer : Type 0 where
  pub endpoint : String
  pub certificate_authority_data : String

pub record AllowedOnboardingTeam : Type 0 where
  pub name : String
  pub git_teams : List String
  pub ldap_groups : List String

pub record Extra : Type 0 where
  pub domain_name : String
  pub lb_endpoints : Dict String
  pub logging_endpoints : List (Dict String)
  pub ecr_iam_arns : Dict (List String)
  pub egress_ports : String
  pub nfs_info : List (Dict String)
  pub extended_region : String
  pub oidc_issuer : String
  pub namespace_profile_infra_type : String

pub record Tier : Type 0 where
  pub name : String
  pub instance_type : String
  pub container_runtime : String
  pub min_capacity : ℤ
  pub max_capacity : ℤ
  pub labels : Dict String
  pub taints : List String
  pub enable_kata_support : Bool
  pub kernel_parameters : Dict String

pub record VirtualNetwork : Type 0 where
  pub id : String
  pub cidrs : List String

pub record PeerVirtualNetwork : Type 0 where
  pub id : String
  pub cidrs : List String
  pub owner_id : String

pub record Capacity : Type 0 where
  pub last_updated : String
  pub cluster_capacity : ℤ
  pub cluster_provisioning : ℤ
  pub max_bqu_per_request : ℤ
  pub cluster_max_bqu : ℤ
  pub cluster_current_bqu : ℤ

-- Namespaces to fields to values.
abbrev ServiceMetadataItem : Type 0
ServiceMetadataItem = Dict (Dict String)

-- Service identifiers to their items.
abbrev pub ServiceMetadata : Type 0
ServiceMetadata = Dict ServiceMetadataItem

pub record AvailabilityZone : Type 0 where
  pub name : String
  pub id : String

pub record ClusterSpec : Type 0 where
  pub name : String
  pub short_name : String
  pub api_server : ApiServer
  pub region : String
  pub cloud_type : String
  pub cloud_provider_region : String
  pub environment : String
  pub business_unit : String
  pub chargeback_business_unit : String
  pub charged_back : Option Bool
  pub managing_org : String
  pub offering : List String
  pub account_id : String
  pub tiers : List Tier
  pub virtual_networks : List VirtualNetwork
  pub registered_at : String
  pub status : String
  pub phase : String
  pub maintenance_group : String
  pub argo_instance : String
  pub type : String
  pub extra : Extra
  pub allowed_onboarding_teams : List AllowedOnboardingTeam
  pub capabilities : List String
  pub peer_virtual_networks : List PeerVirtualNetwork
  pub last_updated : String
  pub tags : Option (Dict String)
  pub capacity : Capacity
  pub service_metadata : ServiceMetadata
  pub availability_zones : List AvailabilityZone

-- The metadata of a resource: the fields of `metav1.ObjectMeta` that the program reads or writes.
pub record ObjectMeta : Type 0 where
  pub name : String
  pub namespace : String
  pub annotations : Option (Dict String)
  pub resource_version : String
  pub managed_fields : List String
  pub is_deleted : Bool

pub record Cluster : Type 0 where
  pub meta : ObjectMeta
  pub spec : ClusterSpec

-- `ClusterSpec{}`: every field at its zero value.
abbrev pub empty_spec : ClusterSpec
empty_spec = record {
  name = "";
  short_name = "";
  api_server = record { endpoint = ""; certificate_authority_data = "" };
  region = "";
  cloud_type = "";
  cloud_provider_region = "";
  environment = "";
  business_unit = "";
  chargeback_business_unit = "";
  charged_back = none;
  managing_org = "";
  offering = [];
  account_id = "";
  tiers = [];
  virtual_networks = [];
  registered_at = "";
  status = "";
  phase = "";
  maintenance_group = "";
  argo_instance = "";
  type = "";
  extra = record {
    domain_name = "";
    lb_endpoints = [];
    logging_endpoints = [];
    ecr_iam_arns = [];
    egress_ports = "";
    nfs_info = [];
    extended_region = "";
    oidc_issuer = "";
    namespace_profile_infra_type = "";
  };
  allowed_onboarding_teams = [];
  capabilities = [];
  peer_virtual_networks = [];
  last_updated = "";
  tags = none;
  capacity = record {
    last_updated = "";
    cluster_capacity = pos 0;
    cluster_provisioning = pos 0;
    max_bqu_per_request = pos 0;
    cluster_max_bqu = pos 0;
    cluster_current_bqu = pos 0;
  };
  service_metadata = [];
  availability_zones = [];
}
