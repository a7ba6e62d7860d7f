-- ===== src/Netbox/Client/Tags/Unique.antt =====
-- What `appendUnique` keeps of its tags.
use cluster_api_ipam_provide.Base.{
  String, Bool, false, not, ◌||◌, ◌&&◌, List, [], ◌∷◌, ◌++◌, ◌≡◌, refl, ◌=ˢ◌, arith, inl, inr,
  Bool-cases, eq_iff, if◌then◌else◌,
}
use cluster_api_ipam_provide.Base.Text.{is_empty, trim_space}
use cluster_api_ipam_provide.Netbox.Client.Tags.{seen, append_unique_from, append_unique}

-- Whether `s` is one of the values once they are trimmed.
unfoldable pub names : String → List String → Bool
names s [] = false
names s (v ∷ vs) = trim_space v =ˢ s || names s vs

-- No value occurs twice.
abbrev pub Distinct : List String → Type 0
Distinct [] = Unit
Distinct (s ∷ ss) = (seen s ss ≡ false) × Distinct ss

seen-append : (s : String) (ss ts : List String) → seen s (ss ++ ts) ≡ (seen s ss || seen s ts)
unfolding seen
seen-append s [] ts = refl
seen-append s (x ∷ ss) ts = ground (arith, seen-append s ss ts)

Distinct-append :
    (ss : List String) (t : String) → Distinct ss → seen t ss ≡ false → Distinct (ss ++ t ∷ [])
unfolding seen
Distinct-append [] t d e = (refl, tt)
Distinct-append (s ∷ ss) t (a, d) e = (
  ground (arith, seen-append s ss (t ∷ []), eq_iff s t, eq_iff t s),
  Distinct-append ss t d (ground arith),
)

-- What one value adds.
abbrev added : List String → String → List String
added out t = if is_empty t || seen t out then out else out ++ t ∷ []

added-Distinct : (out : List String) (t : String) → Distinct out → Distinct (added out t)
added-Distinct out t d = elim (Bool-cases (is_empty t || seen t out)) [
  | inl skip ↦ rw skip d
  | inr keep ↦ rw keep (Distinct-append out t d (ground arith))
]

append_unique_from-Distinct :
    (vs out : List String) → Distinct out → Distinct (append_unique_from out vs)
unfolding append_unique_from
append_unique_from-Distinct [] out d = d
append_unique_from-Distinct (v ∷ vs) out d =
    append_unique_from-Distinct vs (added out (trim_space v)) (added-Distinct out (trim_space v) d)

seen-append_unique_from :
    (s : String) (vs out : List String)
    → seen s (append_unique_from out vs) ≡ (seen s out || (not (is_empty s) && names s vs))
unfolding append_unique_from seen names
seen-append_unique_from s [] out = ground arith
seen-append_unique_from s (v ∷ vs) out = ground (
  arith,
  seen-append_unique_from s vs out,
  seen-append_unique_from s vs (out ++ trim_space v ∷ []),
  seen-append s out (trim_space v ∷ []),
  eq_iff (trim_space v) s,
)

-- The tags of `appendUnique` are the values of both lists, trimmed, each once, and with those left
-- out that are empty when trimmed.
pub append_unique_exact :
    (values extras : List String) (s : String)
    → Distinct (append_unique values extras)
      × (seen s (append_unique values extras) ≡ (not (is_empty s) && names s (values ++ extras)))
unfolding append_unique seen
append_unique_exact values extras s = (
  append_unique_from-Distinct (values ++ extras) [] tt,
  seen-append_unique_from s (values ++ extras) [],
)
