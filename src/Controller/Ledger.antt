-- ===== src/Controller/Ledger.antt =====
-- The life of NetBox's record of a claim under EnsureAddress and ReleaseAddress of
-- internal/controller/ipaddressclaim_controller.go: an abstract ledger of at most one address, and the calls
-- as they are made one after another.
pub mod Connecting
pub mod Allocating
pub mod Ensuring
pub mod Releasing
pub mod Refinement
pub mod Agreement
pub mod Implementation
use cluster_api_ipam_provide.Base.{
  ℕ, String, Bool, false, List, [], ◌∷◌, Option, none, some, Result, ok, err, ◌≡◌, ◌⊎◌,
  if◌then◌else◌, After,
}
use cluster_api_ipam_provide.Base.Text.{is_empty}
use cluster_api_ipam_provide.Base.Errors.{Error, is_no_available_ip}
use cluster_api_ipam_provide.Base.Int.{ℤ}
use cluster_api_ipam_provide.Api.{Pool, IpAddressClaim, IpAddress, NetBoxPrefixReference}
use cluster_api_ipam_provide.Netbox.Config.{ConnectionConfig}
use cluster_api_ipam_provide.Netbox.Metadata.{EffectiveMetadata}
use cluster_api_ipam_provide.Netbox.Wire.{Client, AllocatedAddress}
use cluster_api_ipam_provide.Controller.Handler.{
  Adapter, Failure, find_own, ensure_address, allocation_request,
}
use cluster_api_ipam_provide.Controller.Releasing.{release_address}

-- NetBox's record of one claim.
abbrev pub Ledger : Type 0
Ledger = Option AllocatedAddress

-- What a call answers: an address and its prefix length, nothing because the address was set already,
-- a release, or a failure.
pub data Answer : Type 0 where
  gives : String → Option ℤ → Answer
  keeps frees ensure_fails release_fails : Answer

-- The specification: how the ledger may change with each answer. A failure may come after the change.
pub data Step : Ledger → Answer → Ledger → Type 0 where
  allocated : (a : AllocatedAddress) → Step none (gives a.address (some a.prefix)) (some a)
  found : (a : AllocatedAddress) → Step (some a) (gives a.address (some a.prefix)) (some a)
  kept : (l : Ledger) → Step l keeps l
  freed : (l : Ledger) → Step l frees none
  not_ensured : (l : Ledger) → Step l ensure_fails l
  unconfirmed : (a : AllocatedAddress) → Step none ensure_fails (some a)
  not_released : (l : Ledger) → Step l release_fails l
  unanswered : (a : AllocatedAddress) → Step (some a) release_fails none

-- Steps that follow each other.
pub data Trace : Ledger → List Answer → Ledger → Type 0 where
  stop : (l : Ledger) → Trace l [] l
  next :
      (l l1 l2 : Ledger) (answer : Answer) (answers : List Answer)
      → Step l answer l1
      → Trace l1 answers l2
      → Trace l (answer ∷ answers) l2

pub data Call : Type 0 where
  ensures : IpAddress → Call
  releases : Call

abbrev pub ensured : (asked : IpAddress) → Result Failure IpAddress → Answer
ensured asked (ok r) = if is_empty asked.address then gives r.address r.prefix else keeps
ensured asked (err f) = ensure_fails

abbrev pub released : Result Failure (Unit {0}) → Answer
released (ok u) = frees
released (err f) = release_fails

module _ {W : Type 0} (A : Adapter W) (claim : IpAddressClaim) (pool : Pool) where
  -- one call of the handler, whose pool was fetched
  unfoldable pub perform : Call → W → Answer × W
  perform (ensures address) w =
      let (r, w') = ensure_address A claim pool address w in (ensured address r, w')
  perform releases w = let (r, w') = release_address A claim (some pool) w in (released r, w')

  unfoldable pub run : List Call → W → List Answer × W
  run [] w = ([], w)
  run (call ∷ calls) w =
      let (answer, w1) = perform call w in
      let (answers, w2) = run calls w1 in (answer ∷ answers, w2)

  -- What NetBox and the cluster promise. `Holds w l`: in the state `w` NetBox's record of the claim is
  -- `l`. Only an allocation for the claim and the deletion of its record change it; either may have
  -- happened also where its answer is lost, but not where NetBox says that the prefix is full.
  pub record Keeps (Holds : W → Ledger → Type 0) : Type 0 where
    pub secret :
        (namespace name : String) (l : Ledger) (w : W)
        → Holds w l
        → Holds (A.kube.get_secret namespace name w).1 l
    pub object :
        (namespace name : String) (l : Ledger) (w : W)
        → Holds w l
        → Holds (A.kube.get_address namespace name w).1 l
    pub resolving :
        (cfg : ConnectionConfig) (client : Client W) (refs : List NetBoxPrefixReference)
        (l : Ledger) (w : W)
        → A.new_client cfg ≡ ok client
        → Holds w l
        → Holds (client.resolve_prefix_ids refs w).1 l
    pub details :
        (cfg : ConnectionConfig) (client : Client W) (ids : List ℤ) (l : Ledger) (w : W)
        → A.new_client cfg ≡ ok client
        → Holds w l
        → Holds (client.get_prefix_details ids w).1 l
    pub custom_field :
        (cfg : ConnectionConfig) (client : Client W) (name : String) (l : Ledger) (w : W)
        → A.new_client cfg ≡ ok client
        → Holds w l
        → Holds (client.ensure_ip_address_custom_field name w).1 l
    pub by_address :
        (cfg : ConnectionConfig) (client : Client W) (tag candidate : String) (l : Ledger) (w : W)
        → A.new_client cfg ≡ ok client
        → Holds w l
        → Holds (client.find_ip_address_by_address tag candidate w).1 l
    -- A search for the claim's UID that is answered gives the record.
    pub by_uid :
        (cfg : ConnectionConfig) (client : Client W) (l : Ledger) (w : W)
        → A.new_client cfg ≡ ok client
        → Holds w l
        → After
            (λ o v. (o ≡ l) × Holds v l)
            (λ e v. Holds v l)
            (find_own A claim pool client w).0
            (find_own A claim pool client w).1
    pub allocating :
        (cfg : ConnectionConfig) (client : Client W) (id : ℤ) (metadata : EffectiveMetadata) (w : W)
        → A.new_client cfg ≡ ok client
        → Holds w none
        → After
            (λ a v. Holds v (some a))
            (λ e v.
              Holds v none
              ⊎ ((is_no_available_ip e ≡ false) × ((a : AllocatedAddress) × Holds v (some a))))
            (client.allocate_ip_address id (allocation_request A claim pool metadata) w).0
            (client.allocate_ip_address id (allocation_request A claim pool metadata) w).1
    pub deleting :
        (cfg : ConnectionConfig) (client : Client W) (a : AllocatedAddress) (w : W)
        → A.new_client cfg ≡ ok client
        → Holds w (some a)
        → After
            (λ u v. Holds v none)
            (λ e v. Holds v none ⊎ Holds v (some a))
            (client.delete_ip_address a.id w).0
            (client.delete_ip_address a.id w).1
    pub deleting_another :
        (cfg : ConnectionConfig) (client : Client W) (id : ℤ) (w : W)
        → A.new_client cfg ≡ ok client
        → Holds w none
        → Holds (client.delete_ip_address id w).1 none
