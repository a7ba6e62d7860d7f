-- ===== src/Netbox/Metadata/Tags.antt =====
-- The tags that `splitCSV` reads from an annotation.
use Prim.Native.String.{String, [], ◌∷◌}
use cluster_api_ipam_provide.Base.{
  false, List, [], ◌∷◌, ◌≡◌, refl, ◌∙◌, ap, ◌<>◌, ◌==◌, code, Char, inl, inr, Bool-cases, All,
}
use text.Mathlib.TextLemmas.{nil-append, cons-append}
use cluster_api_ipam_provide.Base.Text.{is_empty, is_space, trim_space, split, join, push_front}
use cluster_api_ipam_provide.Base.Text.Trim.{Chars, Chars-trim, trim_idem}
use cluster_api_ipam_provide.Netbox.Metadata.{keep_non_empty, split_csv}

-- No character is a comma.
abbrev pub NoComma : String → Type 0
NoComma = Chars (λ c. (c == b',') ≡ false)

-- What an entry of a tag list is: not empty, with no space around it, and with no comma.
pub record IsTag (t : String) : Type 0 where
  pub nonempty : is_empty t ≡ false
  pub trimmed : trim_space t ≡ t
  pub no_comma : NoComma t

split-NoComma : (s : String) → All NoComma (split b',' s)
unfolding split
split-NoComma [] = (tt, tt)
split-NoComma (c ∷ s) =
    let ih = split-NoComma s in
    elim (Bool-cases (code c == b',')) [
      | inl comma ↦ rw comma (tt, ih)
      | inr other ↦ rw other (push c other (split b',' s) ih)
    ]
  where
    push :
        (c : Char)
        → (code c == b',') ≡ false
        → (parts : List String) → All NoComma parts
        → All NoComma (push_front c parts)
    push c e [] h = ((e, tt), tt)
    push c e (p ∷ ps) (h, hs) = ((e, h), hs)

keep_non_empty-IsTag : (parts : List String) → All NoComma parts → All IsTag (keep_non_empty parts)
unfolding keep_non_empty trim_space
keep_non_empty-IsTag [] h = tt
keep_non_empty-IsTag (part ∷ parts) (h, hs) =
    let ih = keep_non_empty-IsTag parts hs in
    elim (Bool-cases (is_empty (trim_space part))) [
      | inl empty ↦ rw empty ih
      | inr some_text ↦ rw some_text (
        record {
          nonempty = some_text;
          trimmed = trim_idem is_space part;
          no_comma = Chars-trim is_space (λ c. (c == b',') ≡ false) part h;
        },
        ih,
      )
    ]

split_single : (t : String) → NoComma t → split b',' t ≡ t ∷ []
unfolding split
split_single [] h = refl
split_single (c ∷ t) (e, h) = rw e (rw (split_single t h) refl)

-- the comma as a character
abbrev comma : Char
comma = ","

comma_front : (s : String) → "," <> s ≡ comma ∷ s
comma_front s = cons-append comma [] s ∙ ap (λ r. comma ∷ r) (nil-append s)

split_front : (s : String) → split b',' (comma ∷ s) ≡ [] ∷ split b',' s
unfolding split
split_front s = refl

split_comma : (t s : String) → NoComma t → split b',' (t <> ("," <> s)) ≡ t ∷ split b',' s
unfolding split
split_comma [] s h = ap (split b',') (nil-append ("," <> s) ∙ comma_front s) ∙ split_front s
split_comma (c ∷ t) s (e, h) =
    ap (split b',') (cons-append c t ("," <> s)) ∙ rw e (rw (split_comma t s h) refl)

split-join :
    (t : String) (ts : List String) → All NoComma (t ∷ ts) → split b',' (join "," (t ∷ ts)) ≡ t ∷ ts
unfolding join
split-join t [] (h, hs) = split_single t h
split-join t (u ∷ us) (h, hs) =
    split_comma t (join "," (u ∷ us)) h ∙ ap (λ r. t ∷ r) (split-join u us hs)

keep_non_empty_id : (ts : List String) → All IsTag ts → keep_non_empty ts ≡ ts
unfolding keep_non_empty
keep_non_empty_id [] h = refl
keep_non_empty_id (t ∷ ts) (h, hs) =
    rw h.trimmed (rw h.nonempty (rw (keep_non_empty_id ts hs) refl))

All-NoComma : (ts : List String) → All IsTag ts → All NoComma ts
All-NoComma [] h = tt
All-NoComma (t ∷ ts) (h, hs) = (h.no_comma, All-NoComma ts hs)

-- Whatever an annotation holds, the entries that are read from it are tags: not empty, without a
-- comma, and with no space around them.
pub split_csv-IsTag : (raw : String) → All IsTag (split_csv raw)
unfolding split_csv
split_csv-IsTag raw = keep_non_empty-IsTag (split b',' raw) (split-NoComma raw)

-- Tags that are not empty, have no space around them and have no comma in them, written one after the
-- other with commas between them, are read back as they were.
pub split_csv-join : (ts : List String) → All IsTag ts → split_csv (join "," ts) ≡ ts
unfolding split_csv join split keep_non_empty trim_space
split_csv-join [] h = refl
split_csv-join (t ∷ ts) h =
    ap keep_non_empty (split-join t ts (All-NoComma (t ∷ ts) h)) ∙ keep_non_empty_id (t ∷ ts) h
