-- ===== src/Api.antt =====
-- api/v1alpha1: the pool types, and of the Cluster API types the fields that the program uses.
pub mod Scheme
use cluster_api_ipam_provide.Base.{String, Bool, Option, List}
use cluster_api_ipam_provide.Base.Dict.{Dict}
use cluster_api_ipam_provide.Base.Int.{ℤ}

abbrev pub group : String
group = "ipam.cluster.x-k8s.io"

abbrev pub group_version : String
group_version = "ipam.cluster.x-k8s.io/v1alpha1"

abbrev pub netbox_ip_pool_kind : String
netbox_ip_pool_kind = "NetBoxIPPool"

abbrev pub global_netbox_ip_pool_kind : String
global_netbox_ip_pool_kind = "GlobalNetBoxIPPool"

pub record GroupKind : Type 0 where
  pub group : String
  pub kind : String

abbrev pub group_kind_netbox_ip_pool : GroupKind
group_kind_netbox_ip_pool = record { group = group; kind = netbox_ip_pool_kind }

abbrev pub group_kind_global_netbox_ip_pool : GroupKind
group_kind_global_netbox_ip_pool = record { group = group; kind = global_netbox_ip_pool_kind }

pub record NamespacedSecretReference : Type 0 where
  pub name : String
  pub namespace : String

-- A nil `*int32` is `none`, and an int32 is an integer.
pub record NetBoxPrefixReference : Type 0 where
  pub id : Option ℤ
  pub cidr : String
  pub vrf_id : Option ℤ
  pub gateway : String

pub record NetBoxMetadata : Type 0 where
  pub tenant_id : Option ℤ
  pub vrf_id : Option ℤ
  pub dns_name : String
  pub tags : List String
  pub custom_fields : Dict String

pub record NetBoxIpPoolSpec : Type 0 where
  pub cluster_name : String
  pub connection_secret_ref : NamespacedSecretReference
  pub prefixes : List NetBoxPrefixReference
  pub metadata_defaults : NetBoxMetadata
  pub ownership_tag : String
  pub claim_uid_custom_field : String
  pub ip_address_status : String
  pub gateway : String
  pub gateway_custom_field : String

pub record NetBoxPoolStatusAddresses : Type 0 where
  pub allocated : ℤ

pub record ResolvedPrefix : Type 0 where
  pub id : ℤ
  pub cidr : String
  pub gateway : String

-- `metav1.ConditionStatus`, and `metav1.Condition` without its time stamp
pub data ConditionStatus : Type 0 where
  condition_true condition_false : ConditionStatus

pub record Condition : Type 0 where
  pub type : String
  pub status : ConditionStatus
  pub reason : String
  pub message : String
  pub observed_generation : ℤ

pub record NetBoxIpPoolStatus : Type 0 where
  pub observed_generation : ℤ
  pub addresses : Option NetBoxPoolStatusAddresses
  pub resolved_prefixes : List ℤ
  pub resolved_prefix_details : List ResolvedPrefix
  pub conditions : List Condition

-- Either pool type, as the controllers see it through `statusPool`: its metadata, `PoolSpec` and
-- `PoolStatus`. A pool that is not namespaced has the namespace "".
pub record Pool : Type 0 where
  -- `GetObjectKind().GroupVersionKind()`
  pub gvk_group : String
  pub gvk_version : String
  pub gvk_kind : String
  pub namespace : String
  pub name : String
  pub generation : ℤ
  -- `DeletionTimestamp` is set
  pub deleting : Bool
  pub finalizers : List String
  pub labels : Dict String
  pub annotations : Dict String
  pub spec : NetBoxIpPoolSpec
  pub status : NetBoxIpPoolStatus

pub record IpPoolReference : Type 0 where
  pub api_group : String
  pub kind : String
  pub name : String

pub record IpAddressClaim : Type 0 where
  pub namespace : String
  pub name : String
  pub uid : String
  pub deleting : Bool
  pub finalizers : List String
  pub labels : Dict String
  pub annotations : Dict String
  -- `Spec.ClusterName` and `Spec.PoolRef`
  pub cluster_name : String
  pub pool_ref : IpPoolReference
  -- `Status.AddressRef.Name`, and the condition of type Ready of `Status.Conditions`
  pub address_ref : String
  pub ready : Option Condition

pub record OwnerReference : Type 0 where
  pub api_version : String
  pub kind : String
  pub name : String
  pub uid : String
  pub controller : Option Bool
  pub block_owner_deletion : Option Bool

pub record IpAddress : Type 0 where
  pub namespace : String
  pub name : String
  pub finalizers : List String
  pub labels : Dict String
  pub owner_references : List OwnerReference
  -- `Spec.ClaimRef.Name`, and the other fields of `Spec`
  pub claim_ref : String
  pub pool_ref : IpPoolReference
  pub address : String
  pub prefix : Option ℤ
  pub gateway : String
