-- ===== src/Manager/Builder.antt =====
-- `ctrl.Manager` and the builder of its controllers, as the program uses them: `ctrl.NewControllerManagedBy`.
use cluster_api_ipam_provide.Base.{ℕ, String, Bool, true, List, [], Option, none, Effect}
use cluster_api_ipam_provide.Base.Errors.{Error}
use cluster_api_ipam_provide.Cluster.{Kube, Controllerutil, Event as Recorded, Key, Outcome}
use cluster_api_ipam_provide.Predicates.{Object, Event}

-- The type of the objects that a controller or an index is for.
pub data ObjectType : Type 0 where
  ip_address_claim ip_address capi_cluster netbox_pool global_netbox_pool : ObjectType

-- `Watches` with `EnqueueRequestsFromMapFunc`, by the object's name.
pub record Watch (W : Type 0) : Type 0 where
  pub object : ObjectType
  pub requests : String → W → List Key × W
  pub filter : Event → Bool

-- `For`, `Owns`, `Watches`, `WithEventFilter`, `WithOptions` and `Named`.
pub record Builder (W : Type 0) : Type 0 where
  pub controlled : Option (ObjectType × (Event → Bool))
  pub owned : List (ObjectType × (Event → Bool))
  pub watched : List (Watch W)
  pub event_filter : Event → Bool
  pub max_concurrent_reconciles : Option ℕ
  pub name : String

abbrev pub new_builder : {W : Type 0} → Builder W
new_builder = record {
  controlled = none;
  owned = [];
  watched = [];
  event_filter = λ e. true;
  max_concurrent_reconciles = none;
  name = "";
}

pub record Manager (W : Type 0) : Type 0 where
  -- `GetClient`, and the helpers that work on its objects
  pub client : Kube W
  pub util : Controllerutil W
  pub get_event_recorder : String → Option (Recorded → W → W)
  -- `ResourceNotPausedAndHasFilterLabel` for a filter value
  pub resource_not_paused_and_has_filter_label : String → Event → Bool
  -- `GetFieldIndexer().IndexField` and `GetCache().IndexField`; an index function that panics gives
  -- `none`
  pub index_field :
      ObjectType → String → (Object → Option (List String)) → Effect W Error (Unit {0})
  pub complete : Builder W → (Key → W → Outcome × W) → Effect W Error (Unit {0})
  pub add_healthz_check : String → Effect W Error (Unit {0})
  pub add_readyz_check : String → Effect W Error (Unit {0})
  pub start : Effect W Error (Unit {0})
