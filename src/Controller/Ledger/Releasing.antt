-- ===== src/Controller/Ledger/Releasing.antt =====
-- What ReleaseAddress does to NetBox's record of the claim, whether it succeeds or fails.
use cluster_api_ipam_provide.Base.{
  String, List, [], ◌∷◌, Option, none, some, ok, ◌≡◌, ◌⊎◌, inl, inr, refl, sym, Effect, wrapping,
  After, Ensures, After-any, After-weaken, Ensures-wrapping, Ensures-bind,
}
use cluster_api_ipam_provide.Base.Errors.{Error}
use cluster_api_ipam_provide.Api.{Pool, IpAddressClaim, IpAddress}
use cluster_api_ipam_provide.Netbox.Config.{ConnectionConfig}
use cluster_api_ipam_provide.Netbox.Defaults.{ownership_tag}
use cluster_api_ipam_provide.Netbox.Wire.{Client, AllocatedAddress}
use cluster_api_ipam_provide.Controller.Handler.{
  Adapter, plain, sanitized, connect, find_own, netbox_address_candidates,
}
use cluster_api_ipam_provide.Controller.Releasing.{
  or_next, find_by_candidates, or_by_candidates, find_existing_netbox_ip, without_record,
  delete_or_report, read_address, release_from_netbox, release_address,
}
use cluster_api_ipam_provide.Controller.Ledger.{Ledger, Keeps}
use cluster_api_ipam_provide.Controller.Ledger.Connecting.{Connected, connect-Connected}

module _ {W : Type 0} (A : Adapter W) (claim : IpAddressClaim) (pool : Pool)
    (Holds : W → Ledger → Type 0) (K : Keeps A claim pool Holds) where
  -- ReleaseAddress failed: the record is as it was, or it is gone.
  abbrev pub Remains : Ledger → W → Type 0
  Remains l w = Holds w none ⊎ Holds w l

  module _ (cfg : ConnectionConfig) (client : Client W) (made : A.new_client cfg ≡ ok client) where
    -- What the search gives: the record, or if there is none perhaps another one of the same address.
    abbrev Found : Ledger → Option AllocatedAddress → W → Type 0
    Found l o w = Holds w l × ((l ≡ none) ⊎ (o ≡ l))

    or_next-Holds :
        (rest : Effect W Error (Option AllocatedAddress)) (o : Option AllocatedAddress)
        → Ensures (λ p v. Holds v none) (λ e v. Holds v none) (λ v. Holds v none) rest
        → Ensures
            (λ p v. Holds v none)
            (λ e v. Holds v none)
            (λ v. Holds v none)
            (or_next A claim pool rest o)
    or_next-Holds rest (some a) k = λ w h. h
    or_next-Holds rest none k = k

    find_by_candidates-Holds :
        (candidates : List String)
        → Ensures
            (λ o v. Holds v none)
            (λ e v. Holds v none)
            (λ v. Holds v none)
            (find_by_candidates A claim pool client candidates)
    unfolding find_by_candidates
    find_by_candidates-Holds [] = λ w h. h
    find_by_candidates-Holds (candidate ∷ candidates) =
        let tag = ownership_tag pool.spec in
        Ensures-bind (λ o v. Holds v none) (λ o v. Holds v none) (λ e v. Holds v none)
          (client.find_ip_address_by_address tag candidate) _
          (λ w h.
            After-any (λ v. Holds v none) _ _ (K.by_address cfg client tag candidate none w made h))
          (λ o.
            or_next-Holds (find_by_candidates A claim pool client candidates) o
              (find_by_candidates-Holds candidates))

    or_by_candidates-Found :
        (k8s : Option IpAddress) (o l : Option AllocatedAddress) (w : W)
        → o ≡ l
        → Holds w l
        → After
            (Found l)
            (λ e v. Holds v l)
            (or_by_candidates A claim pool client k8s o w).0
            (or_by_candidates A claim pool client k8s o w).1
    or_by_candidates-Found k8s (some a) l w e h = (h, inr e)
    or_by_candidates-Found k8s none l w e h = rw (sym e) (
        After-weaken (λ o v. Holds v none) (Found none) (λ x v. Holds v none) (λ x v. Holds v none)
          _ _ (λ o q. (q, inl refl)) (λ x q. q)
          (find_by_candidates-Holds (netbox_address_candidates k8s) w (rw (sym e) at h)))

    find_existing-Found :
        (k8s : Option IpAddress) (l : Ledger)
        → Ensures
            (Found l)
            (λ e v. Holds v l)
            (λ v. Holds v l)
            (find_existing_netbox_ip A claim pool client k8s)
    unfolding find_existing_netbox_ip
    find_existing-Found k8s l =
        Ensures-bind (λ o v. (o ≡ l) × Holds v l) (Found l) (λ e v. Holds v l)
          (find_own A claim pool client) _ (λ w h. K.by_uid cfg client l w made h)
          (λ o w q. or_by_candidates-Found k8s o l w q.0 q.1)

    deleted :
        (a : AllocatedAddress) (l : Ledger) (w : W)
        → Found l (some a) w
        → After
            (λ u v. Holds v none)
            (λ e. Remains l)
            (client.delete_ip_address a.id w).0
            (client.delete_ip_address a.id w).1
    deleted a l w (h, inr e) = rw (sym e) (K.deleting cfg client a w made (rw (sym e) at h))
    deleted a l w (h, inl e) =
        After-weaken (λ u v. Holds v none) (λ u v. Holds v none) (λ x v. Holds v none)
          (λ x. Remains l) _ _ (λ u q. q) (λ x q. inl q)
          (After-any (λ v. Holds v none) _ _
            (K.deleting_another cfg client a.id w made (rw e at h)))

    without_record-Remains :
        (k8s : Option IpAddress) (l : Ledger) (w : W)
        → Found l none w
        → After
            (λ u v. Holds v none)
            (λ f. Remains l)
            (without_record A claim pool k8s w).0
            (without_record A claim pool k8s w).1
    without_record-Remains none l w (h, inl e) = rw e at h
    without_record-Remains none l w (h, inr e) = rw (sym e) at h
    without_record-Remains (some k) l w (h, e) = inr h

    delete_or_report-Remains :
        (k8s : Option IpAddress) (o : Option AllocatedAddress) (l : Ledger)
        → Ensures
            (λ u v. Holds v none)
            (λ f. Remains l)
            (Found l o)
            (delete_or_report A claim pool client k8s o)
    delete_or_report-Remains k8s (some a) l =
        Ensures-wrapping (λ u v. Holds v none) (λ f. Remains l) plain
          (client.delete_ip_address a.id) (deleted a l)
    delete_or_report-Remains k8s none l = without_record-Remains k8s l

  read_address-Holds :
      (l : Ledger)
      → Ensures (λ k v. Holds v l) (λ f. Remains l) (λ v. Holds v l) (read_address A claim pool)
  read_address-Holds l w h =
      After-weaken (λ k v. Holds v l) (λ k v. Holds v l) (λ f v. Holds v l) (λ f. Remains l) _ _
        (λ k q. q) (λ f q. inr q)
        (After-any (λ v. Holds v l) (read_address A claim pool w).0 (read_address A claim pool w).1
          (K.object claim.namespace claim.name l w h))

  -- a part of a release that leaves the record alone
  undeleted :
      {B : Type 0} (Q : B → W → Type 0) (P : W → Type 0) (l : Ledger) (m : Effect W Error B)
      → Ensures Q (λ e v. Holds v l) P m
      → Ensures Q (λ f. Remains l) P (wrapping plain m)
  undeleted Q P l m k =
      Ensures-wrapping Q (λ f. Remains l) plain m
        (λ w h.
          After-weaken Q Q (λ e v. Holds v l) (λ e. Remains l) (m w).0 (m w).1 (λ b q. q)
            (λ e q. inr q) (k w h))

  -- After ReleaseAddress, of a claim whose pool was fetched.
  pub release_address-Remains :
      (l : Ledger)
      → Ensures
          (λ u v. Holds v none)
          (λ f. Remains l)
          (λ v. Holds v l)
          (release_address A claim (some pool))
  unfolding release_address release_from_netbox
  release_address-Remains l =
      Ensures-wrapping (λ u v. Holds v none) (λ f. Remains l) sanitized
        (release_from_netbox A claim pool)
        (Ensures-bind (λ k v. Holds v l) (λ u v. Holds v none) (λ f. Remains l)
          (read_address A claim pool) _ (read_address-Holds l)
          (λ k8s.
            Ensures-bind (Connected A claim pool Holds K l) (λ u v. Holds v none) (λ f. Remains l)
              (wrapping plain (connect A claim pool)) _
              (undeleted (Connected A claim pool Holds K l) (λ v. Holds v l) l
                (connect A claim pool) (connect-Connected A claim pool Holds K l))
              (λ client w c.
                Ensures-bind (Found c.0.0 client c.0.1 l) (λ u v. Holds v none) (λ f. Remains l)
                  (wrapping plain (find_existing_netbox_ip A claim pool client k8s)) _
                  (undeleted (Found c.0.0 client c.0.1 l) (λ v. Holds v l) l
                    (find_existing_netbox_ip A claim pool client k8s)
                    (find_existing-Found c.0.0 client c.0.1 k8s l))
                  (λ o. delete_or_report-Remains c.0.0 client c.0.1 k8s o l) w c.1)))
