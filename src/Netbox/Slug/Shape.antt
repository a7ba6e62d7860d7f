-- ===== src/Netbox/Slug/Shape.antt =====
-- The shape of a slug.
use Prim.Native.String.{[], ◌∷◌}
use cluster_api_ipam_provide.Base.{
  code, String, Bool, true, false, Bool-cases, ◌≡◌, ◌≢◌, refl, arith, inl, inr,
}
use cluster_api_ipam_provide.Base.Text.{is_empty, trim, trim_space}
use cluster_api_ipam_provide.Base.Text.Trim.{Chars, StartsKept, EndsKept, Chars-trim, trim-Kept}
use cluster_api_ipam_provide.Netbox.Slug.{
  Unicode, is_slug_char, is_hyphen, replace_runs, slug_runes, to_lower, or_tag, slugify_tag,
}

Chars-replace_runs :
    (in_run : Bool) (s : String) → Chars (λ c. is_slug_char c ≡ true) (replace_runs in_run s)
unfolding replace_runs
Chars-replace_runs in_run [] = tt
Chars-replace_runs in_run (c ∷ s) = elim (Bool-cases (is_slug_char (code c))) [
  | inl kept ↦ rw kept (kept, Chars-replace_runs false s)
  | inr cut ↦ rw cut (ground (arith, Chars-replace_runs true s))
]

-- A slug that NetBox accepts: not empty, of the characters a-z, 0-9, `_` and `-`, and with neither
-- `_` nor `-` at its ends.
pub record IsSlug (s : String) : Type 0 where
  pub not_empty : s ≢ ""
  pub chars : Chars (λ c. is_slug_char c ≡ true) s
  pub starts : StartsKept is_hyphen s
  pub ends : EndsKept is_hyphen s

IsSlug-tag : IsSlug "tag"
IsSlug-tag = record {
  not_empty = λ e. cc;
  chars = (refl, (refl, (refl, tt)));
  starts = refl;
  ends = refl;
}

IsSlug-or_tag :
    (s : String)
    → Chars (λ c. is_slug_char c ≡ true) s
    → StartsKept is_hyphen s × EndsKept is_hyphen s
    → IsSlug (or_tag s)
IsSlug-or_tag [] chars kept = IsSlug-tag
IsSlug-or_tag (c ∷ s) chars kept = record {
  not_empty = λ e. cc;
  chars = chars;
  starts = kept.0;
  ends = kept.1;
}

-- Whatever the tag's name, and whatever the Unicode tables say, its slug is one that NetBox accepts:
-- not empty, of the characters a-z, 0-9, `_` and `-` alone, and with neither `_` nor `-` at an end.
pub slugify_tag-IsSlug : (U : Unicode) (value : String) → IsSlug (slugify_tag U value)
unfolding slugify_tag
slugify_tag-IsSlug U value =
    let lowered = trim_space (to_lower U value) in
    let written = trim is_hyphen (slug_runes U false false lowered) in
    let slug = replace_runs false written in
    elim (Bool-cases (is_empty lowered)) [
      | inl blank ↦ rw blank IsSlug-tag
      | inr full ↦ rw full (
          IsSlug-or_tag (trim is_hyphen slug)
            (Chars-trim is_hyphen (λ c. is_slug_char c ≡ true) slug
              (Chars-replace_runs false written))
            (trim-Kept is_hyphen slug))
    ]
