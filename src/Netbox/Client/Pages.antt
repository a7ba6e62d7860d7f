-- ===== src/Netbox/Client/Pages.antt =====
-- What `listAll` gathers: the results of all the pages that follow each other by their `next`.
use cluster_api_ipam_provide.Base.{
  ℕ, zero, suc, ◌≤◌, String, true, false, List, [], ◌++◌, Result, ok, ◌≡◌, ◌↔◌, refl, sym, ◌∙◌, ap,
  inl, inr, arith, Effect, pure, lift, wrapping, ◌>>=◌, >>=_ok, wrapping_ok, ok_injective,
  Bool-cases, if◌then◌else◌, ◌<>◌,
}
use cluster_api_ipam_provide.Base.Text.{is_empty}
use cluster_api_ipam_provide.Base.Errors.{Error, wrap}
use cluster_api_ipam_provide.Netbox.Config.{Url}
use cluster_api_ipam_provide.Netbox.Wire.{Network, ListResponse}
use cluster_api_ipam_provide.Netbox.Client.{ApiClient, get_page, list_from, list_all}
use mathlib.Core.List.{append_assoc}

module _ {W A : Type 0} (N : Network W) (c : ApiClient)
    (decode : String → Result Error (ListResponse A)) where
  -- The `n` pages that a server gives from a path and a query on, with the results of them all.
  pub data Pages (w' : W) : ℕ → W → String → List (String × String) → List A → Type 0 where
    last :
        (w : W) (path : String) (query : List (String × String)) (page : ListResponse A)
        → get_page N c decode path query w ≡ (ok page, w')
        → is_empty page.next ≡ true
        → Pages w' 1 w path query page.results
    more :
        (n : ℕ) (w w1 : W) (path : String) (query : List (String × String)) (page : ListResponse A)
        (url : Url) (rest : List A)
        → get_page N c decode path query w ≡ (ok page, w1)
        → is_empty page.next ≡ false
        → N.parse_url page.next ≡ ok url
        → Pages w' n w1 url.path url.query rest
        → Pages w' (suc n) w path query (page.results ++ rest)

  abbrev following : ℕ → List A → ListResponse A → Url → Effect W Error (List A)
  following fuel all page url = list_from N c decode fuel (all ++ page.results) url.path url.query

  -- What comes after a page: nothing, or the pages from its `next` on.
  abbrev after : ℕ → List A → ListResponse A → Effect W Error (List A)
  after fuel all page =
      if is_empty page.next
      then pure (all ++ page.results)
      else wrapping (wrap ("parse next page url " <> page.next)) (lift (N.parse_url page.next))
        >>= following fuel all page

  -- The results after the ones that are gathered, of at most `fuel` pages.
  abbrev Gathered : ℕ → List A → W → String → List (String × String) → List A → W → Type 0
  Gathered fuel all w path query items w' =
      (n : ℕ) × (rest : List A) × (n ≤ fuel) × (items ≡ all ++ rest) × Pages w' n w path query rest

  Gathered-more :
      (fuel : ℕ) (all items : List A) (w w1 w' : W) (path : String) (query : List (String × String))
      (page : ListResponse A) (url : Url)
      → get_page N c decode path query w ≡ (ok page, w1)
      → is_empty page.next ≡ false
      → N.parse_url page.next ≡ ok url
      → Gathered fuel (all ++ page.results) w1 url.path url.query items w'
      → Gathered (suc fuel) all w path query items w'
  Gathered-more fuel all items w w1 w' path query page url e ne eu (n, rest, le, eq, pages) = (
    suc n,
    page.results ++ rest,
    omega arith,
    eq ∙ append_assoc all page.results rest,
    more n w w1 path query page url rest e ne eu pages,
  )

  list_from_sound :
      (fuel : ℕ) (all items : List A) (path : String) (query : List (String × String)) (w w' : W)
      → list_from N c decode fuel all path query w ≡ (ok items, w')
      → Gathered fuel all w path query items w'
  unfolding list_from
  list_from_sound zero all items path query w w' h = absurd (cc)
  list_from_sound (suc fuel) all items path query w w' h =
      let (page, w1, e, h1) =
        >>=_ok (get_page N c decode path query) (after fuel all) w w' items h in
      elim (Bool-cases (is_empty page.next)) [
        | inl done ↦
            let (eq, same) = ok_injective (rw done at h1) in
            (
              1,
              page.results,
              omega arith,
              sym eq,
              last w path query page (e ∙ ap (λ v. (ok page, v)) same) done,
            )
        | inr ne ↦
            let parse =
              wrapping (wrap ("parse next page url " <> page.next))
                (lift (N.parse_url page.next)) in
            let (url, w2, eu, h2) =
              >>=_ok parse (following fuel all page) w1 w' items (rw ne at h1) in
            let parsed = wrapping_ok _ (lift (N.parse_url page.next)) w1 w2 url eu in
            let same = ap (λ q. q.1) parsed in
            Gathered-more fuel all items w w1 w' path query page url e ne (ap (λ q. q.0) parsed) (
              list_from_sound fuel (all ++ page.results) items url.path url.query w1 w'
                (rw (sym same) at h2))
      ]

  list_from_complete :
      {w' : W} (fuel : ℕ) (all : List A) {n : ℕ} {w : W} {path : String}
      {query : List (String × String)} {rest : List A}
      → n ≤ fuel
      → Pages w' n w path query rest
      → list_from N c decode fuel all path query w ≡ (ok (all ++ rest), w')
  unfolding list_from
  list_from_complete zero all le (last w path query page e done) = absurd (omega arith)
  list_from_complete zero all le (more n w w1 path query page url rest e ne eu p) =
      absurd (omega arith)
  list_from_complete (suc fuel) all le (last w path query page e done) = rw e (rw done refl)
  list_from_complete {w'} (suc fuel) all le (more n w w1 path query page url rest e ne eu p) =
      rw e (
        rw ne (
          rw eu (
            list_from_complete fuel (all ++ page.results) (omega arith) p
            ∙ ap (λ items. (ok items, w')) (append_assoc all page.results rest))))

  -- A listing succeeds exactly when the server's pages come to an end within `fuel` pages, and then
  -- it is the results of them all, in the order of the pages.
  pub list_all_iff :
      (fuel : ℕ) (path : String) (query : List (String × String)) (items : List A) (w w' : W)
      → (list_all N c decode fuel path query w ≡ (ok items, w'))
        ↔ ((n : ℕ) × (n ≤ fuel) × Pages w' n w path query items)
  unfolding list_all
  list_all_iff fuel path query items w w' = (
    (λ h.
        let (n, rest, le, eq, pages) = list_from_sound fuel [] items path query w w' h in
        (n, le, rw (sym eq) at pages)),
    (λ g. let (n, le, pages) = g in list_from_complete fuel [] le pages),
  )
