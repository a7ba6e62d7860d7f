-- ===== src/Cluster.antt =====
-- The Kubernetes API as the controllers call it: each call acts on the states `W` of the world.
use cluster_api_ipam_provide.Base.{ℕ, String, Bool, List, Option, none, some, Effect, Result}
use cluster_api_ipam_provide.Base.Dict.{Dict}
use cluster_api_ipam_provide.Base.Errors.{Error}
use cluster_api_ipam_provide.Api.{Pool, IpAddress, IpAddressClaim, OwnerReference}

-- What a controller asks to be done after a time, in seconds: `ctrl.Result{RequeueAfter: …}`.
pub record Requeue : Type 0 where
  pub after : ℕ

-- `(ctrl.Result, error)` of a reconcile; the zero result asks for nothing.
pub record Outcome : Type 0 where
  pub requeue : Option Requeue
  pub error : Option Error

-- `Cluster` of Cluster API, as far as pausing goes: `annotations.IsPaused(cluster, cluster)`.
pub record LinkedCluster : Type 0 where
  pub paused : Bool

-- An event for `EventRecorder`.
pub data EventType : Type 0 where
  normal warning : EventType

pub record Event : Type 0 where
  pub type : EventType
  pub reason : String
  pub action : String
  pub message : String

-- `recordEvent` of pkg/reconcileutil, of an object; a recorder that is nil is `none`
abbrev pub recorded : {W : Type 0} → Option (Event → W → W) → Event → W → W
recorded none event w = w
recorded (some eventf) event w = eventf event w

-- `Name` and `Namespace` of a request or of an object.
pub record Key : Type 0 where
  pub namespace : String
  pub name : String

-- What `controllerutil.CreateOrPatch` leaves: the object, what was done, and the last values that
-- the mutate function gave to the caller's variable and as its error.
pub record Written : Type 0 where
  pub address : IpAddress
  pub operation : String
  pub requeue : Option Requeue
  pub error : Option Error

pub record Mutated : Type 0 where
  pub address : IpAddress
  pub requeue : Option Requeue
  pub error : Option Error

-- The helpers of controller-runtime and apimachinery that work on objects, or call back.
pub record Controllerutil (W : Type 0) : Type 0 where
  -- `AddFinalizer`, with whether it changed the list, and `RemoveFinalizer`
  pub add_finalizer : String → List String → List String × Bool
  pub remove_finalizer : String → List String → List String × Bool
  -- `SetControllerReference` of the claim and `SetOwnerReference` of the pool
  pub set_controller_reference :
      IpAddressClaim → List OwnerReference → Result Error (List OwnerReference)
  pub set_owner_reference : Pool → List OwnerReference → Result Error (List OwnerReference)
  -- `annotations.HasPaused`
  pub has_paused : Pool → Bool
  pub create_or_patch : IpAddress → (IpAddress → W → Mutated × W) → W → Written × W
  -- `wait.PollUntilContextTimeout`, with the error that it ends with
  pub poll : Effect W Error Bool → W → Option Error × W

pub record Kube (W : Type 0) : Type 0 where
  -- `client.Get`, each by namespace and name
  pub get_secret : String → String → Effect W Error (Dict String)
  pub get_claim : String → String → Effect W Error IpAddressClaim
  pub get_netbox_ip_pool : String → String → Effect W Error Pool
  pub get_global_netbox_ip_pool : String → Effect W Error Pool
  pub get_address : String → String → Effect W Error IpAddress
  -- `client.List` of the addresses with this `index.poolRef`, in a namespace if one is given
  pub list_addresses : String → Option String → Effect W Error (List IpAddress)
  -- `client.List` of the claims by the cluster's name
  pub list_claims : String → Effect W Error (List IpAddressClaim)
  -- the patch of an address from its state before
  pub patch_address : (before after : IpAddress) → Effect W Error (Unit {0})
  pub delete_address : IpAddress → Effect W Error (Unit {0})
  -- `patch.Helper.Patch`, from the state that the helper was made with
  pub patch_claim : (before after : IpAddressClaim) → Effect W Error (Unit {0})
  -- `patch.NewHelper`
  pub new_claim_helper : IpAddressClaim → Result Error (Unit {0})
  pub new_pool_helper : Pool → Result Error (Unit {0})
  pub patch_pool : (before after : Pool) → Effect W Error (Unit {0})
  -- `clusterutil.GetClusterByName`, and `GetClusterFromMetadata` of a claim
  pub get_cluster_by_name : String → String → Effect W Error LinkedCluster
  pub get_cluster_from_metadata : IpAddressClaim → Effect W Error LinkedCluster
  -- `EventRecorder.Eventf`
  pub record_event : Event → W → W
