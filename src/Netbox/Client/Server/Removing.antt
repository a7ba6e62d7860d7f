-- ===== src/Netbox/Client/Server/Removing.antt =====
-- The deletion of a record, on a server that keeps its promises.
use cluster_api_ipam_provide.Base.{
  ℕ, String, Bool, true, false, [], ◌∷◌, Option, none, some, Result, ok, err, ◌≡◌, ◌⊎◌, refl, ap,
  ◌∙◌, ◌<>◌, ◌==◌, inl, inr, arith, lift, wrapping, map_err, After, Ensures, After-weaken,
  After-any, Ensures-bind, Bool-cases, Result-cases, Option-cases,
}
use cluster_api_ipam_provide.Base.Errors.{Error, ApiError, wrap, as_api}
use cluster_api_ipam_provide.Base.Int.{ℤ}
use cluster_api_ipam_provide.Netbox.Numbers.{format_int}
use cluster_api_ipam_provide.Netbox.Wire.{Network, Response, delete, AllocatedAddress}
use cluster_api_ipam_provide.Netbox.Client.{
  ApiClient, http_request, do_request, read_response, contains_status,
}
use cluster_api_ipam_provide.Netbox.Client.Addresses.{deletion_error, delete_ip_address}
use cluster_api_ipam_provide.Netbox.Client.Server.{Serves, Removal}
use cluster_api_ipam_provide.Netbox.Client.Server.Reading.{do_request-Keeping}

module _ {W : Type 0} (Holds : W → Option AllocatedAddress → Type 0) (N : Network W) (c : ApiClient)
    (fuel : ℕ) (tag field uid : String) (S : Serves Holds N c tag field uid) where
  abbrev missing_status : Option ApiError → Bool
  missing_status none = false
  missing_status (some x) = x.status_code == 404

  -- whether an error says that the record is missing
  abbrev is_missing : Error → Bool
  is_missing e = missing_status (as_api e)

  -- a deletion failed with `e`, before that is told from a record that is missing
  abbrev Undeleted : AllocatedAddress → Error → W → Type 0
  Undeleted a e w = Holds w none ⊎ ((is_missing e ≡ false) × Holds w (some a))

  removed :
      (a : AllocatedAddress) (r : Result Error Response) (w : W)
      → Removal Holds a r w
      → After (λ resp v. Removal Holds a (ok resp) v) (Undeleted a) r w
  removed a (ok resp) w k = k
  removed a (err e) w (Removal.unsent x v f (inl h)) = inl h
  removed a (err e) w (Removal.unsent x v f (inr h)) = inr (ap missing_status f, h)

  answered :
      (a : AllocatedAddress) (d : String) (resp : Response) (w : W)
      → Removal Holds a (ok resp) w
      → After
          (λ u v. Holds v none)
          (Undeleted a)
          (read_response N c (λ _. ok tt) tt d (204 ∷ 404 ∷ []) resp)
          w
  unfolding read_response
  answered a d resp w (Removal.gone x v h) =
      After-weaken (λ u v. Holds v none) (λ u v. Holds v none) (λ e v. Holds v none) (Undeleted a) _
        w (λ u q. q) (λ e q. inl q) (After-any (λ v. Holds v none) _ w h)
  answered a d resp w (Removal.refused x v other foreign (inl h)) = elim (Result-cases resp.body) [
    | inl (b, body) ↦ rw body (rw other (inl h))
    | inr (e, body) ↦ rw body (inl h)
  ]
  answered a d resp w (Removal.refused x v other foreign (inr h)) = elim (Result-cases resp.body) [
    | inl (b, body) ↦ rw body (rw other (inr (not_404 resp.status_code other, h)))
    | inr (e, body) ↦ rw body (inr (ap missing_status (foreign e body), h))
  ]
    where
      not_404 : (n : ℕ) → contains_status (204 ∷ 404 ∷ []) n ≡ false → (n == 404) ≡ false
      not_404 n h = ground arith

  deletion_foreign :
      (id : ℤ) (e : Error)
      → as_api e ≡ none
      → deletion_error N c fuel id (err e) ≡ err (wrap ("delete ip address " <> format_int id) e)
  deletion_foreign id e f = rw (f, deletion_error) refl

  deletion_missing :
      (id : ℤ) (e : Error) (x : ApiError)
      → as_api e ≡ some x
      → (x.status_code == 404) ≡ true
      → deletion_error N c fuel id (err e) ≡ ok tt
  deletion_missing id e x f m = rw (f, deletion_error) (rw m refl)

  deletion_other :
      (id : ℤ) (e : Error) (x : ApiError)
      → as_api e ≡ some x
      → (x.status_code == 404) ≡ false
      → deletion_error N c fuel id (err e) ≡ err (wrap ("delete ip address " <> format_int id) e)
  deletion_other id e x f m = rw (f, deletion_error) (rw m refl)

  concluded :
      (a : AllocatedAddress) (r : Result Error (Unit {0})) (w : W)
      → After (λ u v. Holds v none) (Undeleted a) r w
      → After
          (λ u v. Holds v none)
          (λ e v. Holds v none ⊎ Holds v (some a))
          (deletion_error N c fuel a.id r)
          w
  concluded a (ok u) w h = h
  concluded a (err e) w h = elim (Option-cases (as_api e)) [
    | inl foreign ↦ rw (deletion_foreign a.id e foreign) (either h)
    | inr (x, answer) ↦ elim (Bool-cases (x.status_code == 404)) [
      | inl missing ↦
          rw (deletion_missing a.id e x answer missing)
            (gone h (ap missing_status answer ∙ missing))
      | inr other ↦ rw (deletion_other a.id e x answer other) (either h)
    ]
  ]
    where
      either : Undeleted a e w → Holds w none ⊎ Holds w (some a)
      either (inl k) = inl k
      either (inr k) = inr k.1

      gone : Undeleted a e w → is_missing e ≡ true → Holds w none
      gone (inl k) m = k
      gone (inr (n, k)) m = absurd (cc)

  -- The deletion of the record.
  pub delete-removed :
      (a : AllocatedAddress)
      → Ensures
          (λ u v. Holds v none)
          (λ e v. Holds v none ⊎ Holds v (some a))
          (λ v. Holds v (some a))
          (delete_ip_address N c fuel a.id)
  unfolding delete_ip_address do_request http_request
  delete-removed a w h =
      let path = "/api/ipam/ip-addresses/" <> format_int a.id <> "/" in
      let request = http_request N c delete path [] none in
      let (r, w') = do_request N c (λ _. ok tt) tt delete path [] none (204 ∷ 404 ∷ []) w in
      concluded a r w' (
        Ensures-bind (λ u v. Holds v (some a)) (λ u v. Holds v none) (Undeleted a)
          (wrapping (wrap _) (lift (N.check_url (c.base_url <> path)))) _
          (λ v k. checked (c.base_url <> path) _ (N.check_url (c.base_url <> path)) v refl k)
          (λ u.
            Ensures-bind (λ resp v. Removal Holds a (ok resp) v) (λ u v. Holds v none) (Undeleted a)
              (N.send request) _
              (λ v k.
                removed a (N.send request v).0 (N.send request v).1
                  (S.removing request a v refl refl k))
              (λ resp v k. answered a _ resp v k))
          w h)
    where
      checked :
          (url text : String) (r : Result Error (Unit {0})) (v : W)
          → N.check_url url ≡ r
          → Holds v (some a)
          → After (λ u k. Holds k (some a)) (Undeleted a) (map_err (wrap text) r) v
      checked url text (ok u) v e k = k
      checked url text (err x) v e k = inr (ap missing_status (S.urls url x e), k)

  -- The deletion of another record.
  pub delete-kept : (id : ℤ) (w : W) → Holds w none → Holds (delete_ip_address N c fuel id w).1 none
  unfolding delete_ip_address http_request
  delete-kept id w h =
      let path = "/api/ipam/ip-addresses/" <> format_int id <> "/" in
      let sent = http_request N c delete path [] none in
      (do_request-Keeping Holds N c fuel tag field uid S none (λ _. ok tt) tt delete path [] none
          (204 ∷ 404 ∷ []) (record { at = λ v k. S.removing_another sent v refl k })).at
        w h
