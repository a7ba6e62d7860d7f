-- ===== src/Netbox/Slug.antt =====
-- `slugifyTag` of internal/netbox/client.go. What the tables of package unicode say of characters
-- outside ASCII is a parameter.
pub mod Shape
use Prim.Native.String.{[], ◌∷◌}
use cluster_api_ipam_provide.Base.{
  ℕ, ◌+◌, Char, code, String, Bool, true, false, not, ◌&&◌, ◌||◌, leb, ltb, ◌==◌, if◌then◌else◌,
  ◌≡◌, refl,
}
use cluster_api_ipam_provide.Base.Text.{is_empty, trim, trim_space}

-- `unicode.ToLower`, `IsLetter` and `IsDigit` of the characters from 128 on.
pub record Unicode : Type 0 where
  pub lower : Char → Char
  pub is_letter : Char → Bool
  pub is_digit : Char → Bool

abbrev pub is_lower_ascii : ℕ → Bool
is_lower_ascii c = leb b'a' c && leb c b'z'

abbrev pub is_upper_ascii : ℕ → Bool
is_upper_ascii c = leb b'A' c && leb c b'Z'

abbrev pub is_digit_ascii : ℕ → Bool
is_digit_ascii c = leb b'0' c && leb c b'9'

-- `[a-z0-9_-]`
abbrev pub is_slug_char : ℕ → Bool
is_slug_char c = is_lower_ascii c || is_digit_ascii c || c == b'_' || c == b'-'

-- the cut set "-_"
abbrev pub is_hyphen : ℕ → Bool
is_hyphen c = c == b'-' || c == b'_'

-- `nonSlugCharacters.ReplaceAllString(s, "-")`: each longest run of other characters becomes one
-- hyphen. The flag says whether the run goes on from the character before.
unfoldable pub replace_runs : Bool → String → String
replace_runs in_run [] = []
replace_runs in_run (c ∷ s) =
    let kept = replace_runs false s in
    let dropped = replace_runs true s in
    if is_slug_char (code c) then c ∷ kept else if in_run then dropped else "-" ∷ dropped

-- the character of `to` at the place where `from` has `c`, or `c`
unfoldable pub translate : String → String → Char → Char
translate (u ∷ from) (l ∷ to) c =
    let next = translate from to c in if code u == code c then l else next
translate _ _ c = c

abbrev or_tag : String → String
or_tag slug = if is_empty slug then "tag" else slug

module _ (U : Unicode) where
  unfoldable pub lower_char : Char → Char
  unfolding translate
  lower_char c =
      if ltb (code c) 128
      then translate "ABCDEFGHIJKLMNOPQRSTUVWXYZ" "abcdefghijklmnopqrstuvwxyz" c
      else U.lower c

  -- `strings.ToLower`
  unfoldable pub to_lower : String → String
  unfolding lower_char
  to_lower [] = []
  to_lower (c ∷ s) = lower_char c ∷ to_lower s

  abbrev pub is_word : Char → Bool
  is_word c =
      if ltb (code c) 128
      then is_lower_ascii (code c) || is_upper_ascii (code c) || is_digit_ascii (code c)
      else U.is_letter c || U.is_digit c

  -- The loop over the runes. `started` is `b.Len() > 0`: what the loop writes is the result.
  unfoldable pub slug_runes : (last_hyphen started : Bool) → String → String
  slug_runes last_hyphen started [] = []
  slug_runes last_hyphen started (c ∷ s) =
      let word = slug_runes false true s in
      let hyphen = slug_runes true started s in
      let skipped = slug_runes last_hyphen started s in
      if is_word c
      then c ∷ word
      else if not last_hyphen && started
      then (if code c == b'_' || code c == b'-' then c else "-") ∷ hyphen
      else skipped

  unfoldable pub slugify_tag : String → String
  slugify_tag value =
      let lowered = trim_space (to_lower value) in
      let written = trim is_hyphen (slug_runes false false lowered) in
      let slug = trim is_hyphen (replace_runs false written) in
      if is_empty lowered then "tag" else or_tag slug

abbrev ascii : Unicode
ascii = record { lower = λ c. c; is_letter = λ c. false; is_digit = λ c. false }

tests :
    (slugify_tag ascii " Owner: K8s__prod " ≡ "owner-k8s_prod")
    × (slugify_tag ascii "--" ≡ "tag")
    × (slugify_tag ascii "a/ b" ≡ "a-b")
unfolding slugify_tag to_lower slug_runes replace_runs trim_space
tests = (refl, refl, refl)
