-- ===== src/Tests/Claims.antt =====
-- Examples of the claim reconciler, of the events that wake it, and of the owners of an address.
use cluster_api_ipam_provide.Base.Dict.{lookup}
use cluster_api_ipam_provide.Netbox.Config.{load_connection_config, connection_config}
use cluster_api_ipam_provide.Base.{false, ℕ, true, [], ◌∷◌, none, some, ok, ◌≡◌, ◌↔◌, ◌⊎◌, refl}
use cluster_api_ipam_provide.Api.{IpAddressClaim}
use cluster_api_ipam_provide.Ipamutil.Address.{ensure_ip_address_owner_references, demoted}
use cluster_api_ipam_provide.Ipamutil.Address.Owners.{ensure_owner_references_demote}
use cluster_api_ipam_provide.Ipamutil.Reconciler.{ClaimHandler, done}
use cluster_api_ipam_provide.Ipamutil.Reconcile.{reconcile_claim_address, reconcile}
use cluster_api_ipam_provide.Ipamutil.Assigning.{assign_address}
use cluster_api_ipam_provide.Ipamutil.Reconcile.Deletion.{Freed, reconcile_claim_address_kept}
use cluster_api_ipam_provide.Ipamutil.Reconcile.Ready.{Settled, assign_address_settled}
use cluster_api_ipam_provide.Ipamutil.Reconcile.Progress.{
  Answers, Usable, LetGo, deletion_completes,
}
use cluster_api_ipam_provide.Ipamutil.Reconcile.Guards.{Course, reconcile_course}
use cluster_api_ipam_provide.Controller.ClaimHandler.{claim_handler_for}
use cluster_api_ipam_provide.Controller.ClaimHandler.Stuck.{release_stuck}
use cluster_api_ipam_provide.Controller.Handler.{
  Adapter, sanitized, fetch_pool, connect, netbox_address_candidates,
}
use cluster_api_ipam_provide.Controller.Releasing.{
  unlocated, find_existing_netbox_ip, find_by_candidates, release_address, release_from_netbox,
}
use cluster_api_ipam_provide.Base.Errors.{wrap}
use cluster_api_ipam_provide.Predicates.{
  Event, update, cluster, watched_claim_event, watched_address_event, watched_cluster_event,
}
use cluster_api_ipam_provide.Predicates.Watched.{
  OursClaim, OursAddress, Wakes, subject, watched_iff,
}
use cluster_api_ipam_provide.Tests.World.{
  client, answer, kube, util, a_claim, a_pool, set_address, adapter, claim_owner, pool_owner,
}

abbrev handler : ClaimHandler ℕ
handler = claim_handler_for adapter a_claim

abbrev doomed : IpAddressClaim
doomed = record a_claim { deleting = true; finalizers = "f" ∷ [] }

reconcile_claim_address_kept_example :
    ((reconcile_claim_address kube util handler doomed 0).0.0.finalizers ≡ "f" ∷ [])
    ⊎ (((reconcile_claim_address kube util handler doomed 0).0.1 ≡ done)
        × ((true ≡ true)
            × Freed kube util doomed handler
                (handler.fetch_pool handler.start 0).1
                (handler.fetch_pool handler.start 0).2))
reconcile_claim_address_kept_example = reconcile_claim_address_kept kube util doomed handler 0

assign_address_settled_example :
    Settled kube util handler
      (handler.fetch_pool handler.start 0).1
      a_claim
      a_pool
      0
      (assign_address kube util handler (handler.fetch_pool handler.start 0).1 a_claim a_pool 0)
assign_address_settled_example =
    assign_address_settled kube util handler (handler.fetch_pool handler.start 0).1 a_claim a_pool 0

reconcile_course_example :
    Course kube util
      (claim_handler_for adapter)
      (record { namespace = "ns"; name = "c" })
      0
      (reconcile kube util (claim_handler_for adapter) (record { namespace = "ns"; name = "c" }) 0)
reconcile_course_example =
    reconcile_course kube util (claim_handler_for adapter) (record { namespace = "ns"; name = "c" })
      0

-- a cluster goes on after a pause
abbrev resumed : Event
resumed = update (cluster (record { paused = true })) (cluster (record { paused = false }))

watched_iff_example :
    ((watched_claim_event resumed ≡ true) ↔ OursClaim (subject resumed))
    × ((watched_address_event resumed ≡ true) ↔ OursAddress (subject resumed))
    × ((watched_cluster_event resumed ≡ true) ↔ Wakes resumed)
watched_iff_example = watched_iff resumed

ensure_owner_references_demote_example :
    ensure_ip_address_owner_references util set_address a_claim a_pool
    ≡ ok (record set_address { owner_references = claim_owner ∷ demoted pool_owner ∷ [] })
ensure_owner_references_demote_example =
    ensure_owner_references_demote util set_address a_claim a_pool (claim_owner ∷ [])
      (claim_owner ∷ []) [] pool_owner refl refl refl tt

-- A NetBox without a record of any claim.
abbrev forgetful : Adapter ℕ
forgetful = record adapter {
  new_client =
      λ cfg. ok (record client { find_ip_address_by_address = λ tag address. answer (ok none) });
}

release_stuck_example :
    reconcile_claim_address kube util (claim_handler_for forgetful doomed) doomed 0 ≡ (
      (
        doomed,
        record {
          requeue = some (record { after = 5 });
          error = some (
              wrap "release address"
                (sanitized (unlocated forgetful doomed a_pool set_address)).cause);
        },
      ),
      6,
    )
unfolding fetch_pool connect load_connection_config connection_config lookup find_existing_netbox_ip
    find_by_candidates netbox_address_candidates
release_stuck_example =
    release_stuck forgetful util doomed a_pool
      (record client { find_ip_address_by_address = λ tag address. answer (ok none) }) set_address 0
      1 2 3 6 refl refl refl refl refl refl

kube-Answers : Answers kube util doomed
kube-Answers = record {
  reads = λ e w w' h. absurd (cc);
  patches = λ before after w. refl;
  deletes = λ a w. refl;
}

deletion_completes_example :
    LetGo kube util doomed
      (reconcile_claim_address kube util (claim_handler_for adapter doomed) doomed 0)
unfolding claim_handler_for fetch_pool release_address release_from_netbox connect
    load_connection_config connection_config lookup find_existing_netbox_ip find_by_candidates
    netbox_address_candidates
deletion_completes_example =
    deletion_completes kube util doomed kube-Answers (claim_handler_for adapter doomed) 0 refl
      (Usable.present a_pool refl refl refl refl) refl
