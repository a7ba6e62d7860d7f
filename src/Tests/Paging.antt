-- ===== src/Tests/Paging.antt =====
-- An example of a listing of several pages, over a server whose state is the number of the pages that follow.
use cluster_api_ipam_provide.Base.{
  ℕ, zero, suc, String, List, [], ◌∷◌, Result, ok, ◌≡◌, arith, ◌=ˢ◌, if◌then◌else◌, Effect,
}
use cluster_api_ipam_provide.Base.Errors.{Error}
use cluster_api_ipam_provide.Netbox.Wire.{Network, Request, Response, ListResponse, NetBoxTag}
use cluster_api_ipam_provide.Netbox.Client.{list_all, get_page}
use cluster_api_ipam_provide.Netbox.Client.Termination.{Progresses, list_all_settled}
use cluster_api_ipam_provide.Tests.Client.{api, free_network, response, own_tag}

abbrev send : Request → Effect ℕ Error Response
send request zero = (ok (response 200 "last"), zero)
send request (suc n) = (ok (response 200 "more"), n)

abbrev decode : String → Result Error (ListResponse NetBoxTag)
decode body = ok (record { next = if body =ˢ "more" then "/next" else ""; results = own_tag ∷ [] })

abbrev paged : Network ℕ
paged = record free_network { send = send }

abbrev left : ℕ → String → List (String × String) → ℕ
left w path query = w

paged-Progresses : Progresses paged api decode left
unfolding get_page
paged-Progresses path query zero w1 page url e more parsed = absurd (cc)
paged-Progresses path query (suc n) w1 page url e more parsed = omega (arith, world e)
  where
    world :
        {p q : Result Error (ListResponse NetBoxTag)} {u v : ℕ}
        → ◌≡◌ {A = Result Error (ListResponse NetBoxTag) × ℕ} (p, u) (q, v)
        → u ≡ v
    world h = cc

list_all_settled_example :
    list_all paged api decode 3 "/api/extras/tags/" [] 2
    ≡ list_all paged api decode 9 "/api/extras/tags/" [] 2
list_all_settled_example =
    list_all_settled paged api decode left paged-Progresses 3 9 "/api/extras/tags/" [] 2
      (omega arith) (omega arith)
