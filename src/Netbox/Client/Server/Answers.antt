-- ===== src/Netbox/Client/Server/Answers.antt =====
-- What a successful answer of the client comes from, on any server: a page of addresses, and a tag.
use cluster_api_ipam_provide.Base.{
  ℕ, String, true, false, List, Option, Result, ok, ◌≡◌, ◌⊎◌, inl, inr, ap, ◌<>◌, lift, wrapping,
  >>=_ok, wrapping_ok, map_err_ok, Bool-cases, Result-cases,
}
use cluster_api_ipam_provide.Base.Text.{is_empty}
use cluster_api_ipam_provide.Base.Errors.{Error, wrap}
use cluster_api_ipam_provide.Netbox.Wire.{Network, Response, Method, Payload}
use cluster_api_ipam_provide.Netbox.Client.{
  ApiClient, http_request, do_request, read_response, contains_status,
}

module _ {W A : Type 0} (N : Network W) (c : ApiClient) (decode : String → Result Error A)
    (unset : A) where
  -- A response that is read as `a`.
  pub record Read (expected : List ℕ) (resp : Response) (a : A) : Type 0 where
    pub success : contains_status expected resp.status_code ≡ true
    pub body : String
    pub received : resp.body ≡ ok body
    pub decoded :
        ((is_empty body ≡ true) × (a ≡ unset)) ⊎ ((is_empty body ≡ false) × (decode body ≡ ok a))

  read_response-Read :
      (d : String) (expected : List ℕ) (resp : Response) (a : A)
      → read_response N c decode unset d expected resp ≡ ok a
      → Read expected resp a
  unfolding read_response
  read_response-Read d expected resp a h = elim (Result-cases resp.body) [
    | inr (e, failed) ↦ absurd (cc (rw failed at h))
    | inl (body, received) ↦ elim (Bool-cases (contains_status expected resp.status_code)) [
      | inr refused ↦ absurd (cc (rw refused at (rw received at h)))
      | inl success ↦
          let k = rw success at (rw received at h) in
          record {
            success = success;
            body = body;
            received = received;
            decoded = elim (Bool-cases (is_empty body)) [
              | inl empty ↦ inl (empty, cc (rw empty at k))
              | inr full ↦ inr (full, map_err_ok _ (decode body) a (rw full at k))
            ];
          }
    ]
  ]

  -- A request that succeeds was answered with a response that is read as its result.
  pub do_request-Read :
      (method : Method) (path : String) (query : List (String × String)) (body : Option Payload)
      (expected : List ℕ) (a : A) (w w' : W)
      → do_request N c decode unset method path query body expected w ≡ (ok a, w')
      → (resp : Response) × (N.send (http_request N c method path query body) w ≡ (ok resp, w'))
        × Read expected resp a
  unfolding do_request
  do_request-Read method path query body expected a w w' h =
      let checking = wrapping (wrap _) (lift (N.check_url (c.base_url <> path))) in
      let (u, w1, eu, h1) = >>=_ok checking _ w w' a h in
      let built = wrapping_ok (wrap _) (lift (N.check_url (c.base_url <> path))) w w1 u eu in
      let (resp, w2, sent, h2) =
        >>=_ok (N.send (http_request N c method path query body)) _ w1 w' a h1 in
      let same : w1 ≡ w = cc in
      let stays : w2 ≡ w' = cc in
      (resp, rw same at (rw stays at sent), read_response-Read _ expected resp a (ap (λ q. q.0) h2))
