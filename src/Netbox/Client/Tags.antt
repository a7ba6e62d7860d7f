-- ===== src/Netbox/Client/Tags.antt =====
-- `ensureTag`, `ensureTags` and `appendUnique` of internal/netbox/client.go.
pub mod Unique
use cluster_api_ipam_provide.Base.{
  ℕ, String, Bool, true, false, ◌||◌, List, [], ◌∷◌, ◌++◌, Option, none, some, ◌<>◌, ◌=ˢ◌,
  if◌then◌else◌, Effect, pure, fail, wrapping, ◌>>=◌,
}
use cluster_api_ipam_provide.Base.Text.{is_empty, trim_space}
use cluster_api_ipam_provide.Base.Errors.{Error, wrap, message}
use cluster_api_ipam_provide.Netbox.Slug.{slugify_tag}
use cluster_api_ipam_provide.Netbox.Wire.{Network, NetBoxTag, a_tag}
use cluster_api_ipam_provide.Netbox.Client.{ApiClient, list_all, post_request}

unfoldable pub seen : String → List String → Bool
seen s [] = false
seen s (t ∷ ts) = t =ˢ s || seen s ts

-- the loop of `appendUnique`; `seen` reads what was written
unfoldable pub append_unique_from : List String → List String → List String
append_unique_from out [] = out
append_unique_from out (value ∷ values) =
    let trimmed = trim_space value in
    append_unique_from (if is_empty trimmed || seen trimmed out then out else out ++ trimmed ∷ [])
      values

unfoldable pub append_unique : List String → List String → List String
unfolding append_unique_from seen
append_unique values extras = append_unique_from [] (values ++ extras)

unfoldable pub tag_named : String → List NetBoxTag → Option NetBoxTag
tag_named name [] = none
tag_named name (t ∷ ts) = if t.name =ˢ name then some t else tag_named name ts

module _ {W : Type 0} (N : Network W) (c : ApiClient) (fuel : ℕ) where
  unfoldable pub create_tag : String → Effect W Error NetBoxTag
  create_tag name = do
    created ← wrapping (wrap ("create tag " <> name)) (
        post_request N c N.decode_tag (record { name = ""; slug = "" }) "/api/extras/tags/"
          (a_tag (record { name = name; slug = slugify_tag N.unicode name })) (201 ∷ []))
    if is_empty created.name
        then fail (message ("create tag " <> name <> ": empty response"))
        else pure created

  unfoldable pub ensure_tag : String → Effect W Error NetBoxTag
  unfolding tag_named
  ensure_tag name = do
    results ←
        wrapping (wrap ("list tag " <> name))
          (list_all N c N.decode_tags fuel "/api/extras/tags/" (("name", name) ∷ []))
    elim (tag_named name results) [ some tag ↦ pure tag | none ↦ create_tag name ]

  unfoldable pub ensure_tags : List String → Effect W Error (List NetBoxTag)
  ensure_tags [] = pure []
  ensure_tags (name ∷ names) =
      let trimmed = trim_space name in
      let rest = ensure_tags names in
      if is_empty trimmed then rest else do tag ← ensure_tag trimmed; tags ← rest; pure (tag ∷ tags)
