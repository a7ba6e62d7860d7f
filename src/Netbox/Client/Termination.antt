-- ===== src/Netbox/Client/Termination.antt =====
-- That `listAll` comes to an end, and so that the model's fuel does not decide what it gives.
use cluster_api_ipam_provide.Base.{
  ℕ, zero, suc, ◌<◌, String, false, List, [], ◌++◌, Result, ok, ◌≡◌, refl, inl, inr, arith,
  Bool-cases, Result-cases, Answered-cases,
}
use cluster_api_ipam_provide.Base.Text.{is_empty}
use cluster_api_ipam_provide.Base.Errors.{Error}
use cluster_api_ipam_provide.Netbox.Config.{Url}
use cluster_api_ipam_provide.Netbox.Wire.{Network, ListResponse}
use cluster_api_ipam_provide.Netbox.Client.{ApiClient, get_page, list_from, list_all}

module _ {W A : Type 0} (N : Network W) (c : ApiClient)
    (decode : String → Result Error (ListResponse A))
    (left : W → String → List (String × String) → ℕ) where
  -- Of the pages that are left to read, each page that is read with a next one takes at least one away.
  abbrev pub Progresses : Type 0
  Progresses =
      (path : String) (query : List (String × String)) (w w1 : W) (page : ListResponse A)
      (url : Url)
      → get_page N c decode path query w ≡ (ok page, w1)
      → is_empty page.next ≡ false
      → N.parse_url page.next ≡ ok url
      → left w1 url.path url.query < left w path query

  list_from_settled :
      Progresses
      → (f g : ℕ) (all : List A) (path : String) (query : List (String × String)) (w : W)
      → left w path query < f
      → left w path query < g
      → list_from N c decode f all path query w ≡ list_from N c decode g all path query w
  unfolding list_from
  list_from_settled P zero g all path query w lf lg = absurd (omega arith)
  list_from_settled P (suc f) zero all path query w lf lg = absurd (omega arith)
  list_from_settled P (suc f) (suc g) all path query w lf lg =
      elim (Answered-cases (get_page N c decode path query w)) [
        | inr (x, (w1, e)) ↦ rw e refl
        | inl (page, (w1, e)) ↦ elim (Bool-cases (is_empty page.next)) [
          | inl last ↦ rw e (rw last refl)
          | inr more ↦ elim (Result-cases (N.parse_url page.next)) [
            | inr (x, bad) ↦ rw e (rw more (rw bad refl))
            | inl (url, good) ↦
                let less = P path query w w1 page url e more good in
                rw e (
                  rw more (
                    rw good (
                      list_from_settled P f g (all ++ page.results) url.path url.query w1
                        (omega arith) (omega arith))))
          ]
        ]
      ]

  -- A listing ends by itself, whether it succeeds or fails: where every page leaves fewer pages to be
  -- read after it, any two bounds above the number of the pages that are left at the start give the
  -- same result and leave the world the same.
  pub list_all_settled :
      Progresses
      → (f g : ℕ) (path : String) (query : List (String × String)) (w : W) → left w path query < f
      → left w path query < g
      → list_all N c decode f path query w ≡ list_all N c decode g path query w
  unfolding list_all
  list_all_settled P f g path query w lf lg = list_from_settled P f g [] path query w lf lg
