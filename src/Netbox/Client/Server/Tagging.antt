-- ===== src/Netbox/Client/Server/Tagging.antt =====
-- The tags of an allocation, on a server that keeps its promises: the ownership tag is among them.
use cluster_api_ipam_provide.Base.{
  ℕ, String, true, false, List, [], ◌∷◌, ◌++◌, Option, some, ok, ◌≡◌, inl, inr, refl, sym, ap, ◌∙◌,
  ◌<>◌, ◌=ˢ◌, arith, eq_iff, wrapping, >>=_ok, wrapping_ok, ok_injective, Bool-cases, Option-cases,
}
use mathlib.Core.List.{Memᴰ}
use cluster_api_ipam_provide.Base.Text.{is_empty, trim_space}
use cluster_api_ipam_provide.Base.Errors.{wrap}
use cluster_api_ipam_provide.Netbox.Slug.{slugify_tag}
use cluster_api_ipam_provide.Netbox.Wire.{Network, post, a_tag, NetBoxTag, AllocatedAddress}
use cluster_api_ipam_provide.Netbox.Client.{ApiClient, http_request, post_request, list_all}
use cluster_api_ipam_provide.Netbox.Client.Tags.{
  seen, append_unique, tag_named, create_tag, ensure_tag, ensure_tags,
}
use cluster_api_ipam_provide.Netbox.Client.Tags.Unique.{names, append_unique_exact}
use cluster_api_ipam_provide.Netbox.Client.Server.{Serves}
use cluster_api_ipam_provide.Netbox.Client.Server.Answers.{do_request-Read}

tag_named-name :
    (name : String) (tags : List NetBoxTag) (t : NetBoxTag)
    → tag_named name tags ≡ some t
    → t.name ≡ name
unfolding tag_named
tag_named-name name [] t h = absurd (cc)
tag_named-name name (x ∷ tags) t h = elim (Bool-cases (x.name =ˢ name)) [
  | inl same ↦ let e : x ≡ t = cc (rw same at h) in rw e at ((eq_iff x.name name).0 same)
  | inr differs ↦ tag_named-name name tags t (rw differs at h)
]

module _ {W : Type 0} (Holds : W → Option AllocatedAddress → Type 0) (N : Network W) (c : ApiClient)
    (fuel : ℕ) (tag field uid : String) (S : Serves Holds N c tag field uid) where
  create_tag-name :
      (name : String) (t : NetBoxTag) (w w' : W)
      → create_tag N c fuel name w ≡ (ok t, w')
      → t.name ≡ name
  unfolding create_tag post_request http_request
  create_tag-name name t w w' h =
      let asked : NetBoxTag = record { name = name; slug = slugify_tag N.unicode name } in
      let posting =
        post_request N c N.decode_tag (record { name = ""; slug = "" }) "/api/extras/tags/"
          (a_tag asked) (201 ∷ []) in
      let (made, w1, e, h1) = >>=_ok (wrapping (wrap ("create tag " <> name)) posting) _ w w' t h in
      let (resp, sent, r) =
        do_request-Read N c N.decode_tag (record { name = ""; slug = "" }) post "/api/extras/tags/"
          [] (some (a_tag asked)) (201 ∷ []) made w w1
          (wrapping_ok (wrap ("create tag " <> name)) posting w w1 made e) in
      elim (Bool-cases (is_empty made.name)) [
        | inl empty ↦ absurd (cc (rw empty at h1))
        | inr full ↦
            let same : made ≡ t = cc (rw full at h1) in
            rw (sym same) (elim r.decoded [
              | inl (none_sent, unread) ↦
                  absurd (cc (full, ap (λ (x : NetBoxTag). is_empty x.name) unread))
              | inr (some_sent, decoded) ↦
                  S.naming _ asked made w w1 resp r.body refl refl sent r.received decoded
            ])
      ]

  ensure_tag-name :
      (name : String) (t : NetBoxTag) (w w' : W)
      → ensure_tag N c fuel name w ≡ (ok t, w')
      → t.name ≡ name
  unfolding ensure_tag
  ensure_tag-name name t w w' h =
      let listing =
        wrapping (wrap ("list tag " <> name))
          (list_all N c N.decode_tags fuel "/api/extras/tags/" (("name", name) ∷ [])) in
      let (results, w1, e, h1) = >>=_ok listing _ w w' t h in
      elim (Option-cases (tag_named name results)) [
        | inl absent ↦ create_tag-name name t w1 w' (rw absent at h1)
        | inr (x, present) ↦
            let same : x ≡ t = cc (rw present at h1) in
            rw same at (tag_named-name name results x present)
      ]

  -- Each name that is asked for is that of a tag.
  ensure_tags-name :
      (s : String) (asked : List String) (tags : List NetBoxTag) (w w' : W)
      → trim_space s ≡ s
      → is_empty s ≡ false
      → seen s asked ≡ true
      → ensure_tags N c fuel asked w ≡ (ok tags, w')
      → (t : NetBoxTag) × Memᴰ t tags × (t.name ≡ s)
  unfolding ensure_tags seen
  ensure_tags-name s [] tags w w' trimmed full there h = absurd (cc)
  ensure_tags-name s (name ∷ asked) tags w w' trimmed full there h =
      elim (Bool-cases (is_empty (trim_space name))) [
        | inl blank ↦
            ensure_tags-name s asked tags w w' trimmed full (elsewhere blank) (rw blank at h)
        | inr filled ↦
            let (t, w1, e, h1) =
              >>=_ok (ensure_tag N c fuel (trim_space name)) _ w w' tags (rw filled at h) in
            let (ts, w2, es, h2) = >>=_ok (ensure_tags N c fuel asked) _ w1 w' tags h1 in
            let same : t ∷ ts ≡ tags = (ok_injective h2).0 in
            rw (sym same) (elim (Bool-cases (name =ˢ s)) [
              | inl it_is ↦ (
                t,
                Memᴰ.head refl,
                ensure_tag-name (trim_space name) t w w1 e
                    ∙ ap trim_space ((eq_iff name s).0 it_is)
                    ∙ trimmed,
              )
              | inr it_is_not ↦
                  let (x, m, n) =
                    ensure_tags-name s asked ts w1 w2 trimmed full (ground arith) es in
                  (x, Memᴰ.tail m, n)
            ])
      ]
    where
      elsewhere : is_empty (trim_space name) ≡ true → seen s asked ≡ true
      elsewhere blank = elim (Bool-cases (name =ˢ s)) [
        | inl it_is ↦ absurd (cc (blank, full, ap trim_space ((eq_iff name s).0 it_is) ∙ trimmed))
        | inr it_is_not ↦ ground arith
      ]

  names-last : (values : List String) → trim_space tag ≡ tag → names tag (values ++ tag ∷ []) ≡ true
  unfolding names
  names-last [] trimmed = ground (arith, eq_iff (trim_space tag) tag)
  names-last (v ∷ values) trimmed = ground (arith, names-last values trimmed)

  -- The tags of an allocation have the ownership tag among them.
  pub ensure_tags-own :
      (values : List String) (tags : List NetBoxTag) (w w' : W)
      → ensure_tags N c fuel (append_unique values (tag ∷ [])) w ≡ (ok tags, w')
      → (t : NetBoxTag) × Memᴰ t tags × (t.name ≡ tag)
  ensure_tags-own values tags w w' h =
      ensure_tags-name tag (append_unique values (tag ∷ [])) tags w w' S.tag_trimmed S.tag_full
        (ground (
          arith,
          (append_unique_exact values (tag ∷ []) tag).1,
          names-last values S.tag_trimmed,
          S.tag_full,
        ))
        h
