-- ===== src/Tests/Ledger.antt =====
-- Examples of the ledger, over the NetBox of one record.
use cluster_api_ipam_provide.Netbox.Metadata.{effective_pool_metadata}
use cluster_api_ipam_provide.Base.Dict.{lookup}
use cluster_api_ipam_provide.Netbox.Config.{load_connection_config, connection_config}
use cluster_api_ipam_provide.Controller.Handler.{
  ensure_address, obtain_address, connect, allocate_new, allocate_from, with_gateway,
}
use cluster_api_ipam_provide.Base.{[], ◌∷◌, none, some, ◌≡◌, refl, sym, map}
use cluster_api_ipam_provide.Base.Int.{pos}
use mathlib.Core.List.{Memᴰ}
use cluster_api_ipam_provide.Netbox.Wire.{AllocatedAddress}
use cluster_api_ipam_provide.Controller.Ledger.{
  Ledger, Trace, Keeps, ensures, releases, run, perform,
}
use cluster_api_ipam_provide.Controller.Ledger.Refinement.{run_refines}
use cluster_api_ipam_provide.Controller.Ledger.Agreement.{given_is_recorded}
use cluster_api_ipam_provide.Tests.World.{a_pool, a_claim, unset_address}
use cluster_api_ipam_provide.Tests.Retry.{Memory, provider, made}

abbrev Is : Memory → Ledger → Type 0
Is w l = w ≡ l

server-Keeps : Keeps provider a_claim a_pool Is
server-Keeps = record {
  secret = λ namespace name l w h. h;
  object = λ namespace name l w h. h;
  resolving = λ cfg client refs l w e h. rw (sym (made client e)) h;
  details = λ cfg client ids l w e h. rw (sym (made client e)) h;
  custom_field = λ cfg client name l w e h. rw (sym (made client e)) h;
  by_address = λ cfg client tag candidate l w e h. rw (sym (made client e)) h;
  by_uid = λ cfg client l w e h. rw (sym (made client e)) (h, h);
  allocating = λ cfg client id metadata w e h. rw (sym (made client e)) refl;
  deleting = λ cfg client a w e h. rw (sym (made client e)) refl;
  deleting_another = λ cfg client id w e h. rw (sym (made client e)) refl;
}

-- An address is given, given again and freed.
run_refines_example :
    (l' : Ledger) × Trace none
      (run provider a_claim a_pool
        (ensures unset_address ∷ ensures unset_address ∷ releases ∷ [])
        none).0
      l'
    × ((run provider a_claim a_pool
          (ensures unset_address ∷ ensures unset_address ∷ releases ∷ [])
          none).1
        ≡ l')
run_refines_example =
    run_refines provider a_claim a_pool Is server-Keeps
      (ensures unset_address ∷ ensures unset_address ∷ releases ∷ []) none none refl

given_is_recorded_example :
    (a : AllocatedAddress) × ((run provider a_claim a_pool
        (map ensures (unset_address ∷ unset_address ∷ []))
        none).1
      ≡ some a)
    × ("10.0.0.9" ≡ a.address)
    × (some (pos 24) ≡ some a.prefix)
unfolding run perform ensure_address obtain_address connect load_connection_config connection_config
    lookup allocate_new effective_pool_metadata allocate_from with_gateway
given_is_recorded_example =
    given_is_recorded provider a_claim a_pool Is server-Keeps (unset_address ∷ unset_address ∷ [])
      none none "10.0.0.9" (some (pos 24)) refl (Memᴰ.head refl)
