-- ===== src/Controller/ResolvedPrefixes/Parts.antt =====
-- What an entry of a pool's prefixes is made of: the detail that was fetched for a prefix, the gateway of the
-- reference at its position, and the text of a custom field.
use cluster_api_ipam_provide.Base.{
  ℕ, zero, suc, ◌≤◌, String, true, false, List, [], ◌∷◌, ◌++◌, none, some, ◌≡◌, ◌≢◌, ◌⊎◌, inl, inr,
  refl, sym, ap, ◌∙◌, arith, length, All, Bool-cases, Option-cases,
}
use cluster_api_ipam_provide.Base.Text.{is_empty, trim_space}
use cluster_api_ipam_provide.Base.Dict.{Dict, lookup}
use cluster_api_ipam_provide.Base.Int.{ℤ, ◌==ℤ◌, ==ℤ_iff}
use cluster_api_ipam_provide.Api.{NetBoxPrefixReference}
use cluster_api_ipam_provide.Netbox.Gateway.{FieldValue, null, text, other, custom_field_string}
use cluster_api_ipam_provide.Netbox.Wire.{PrefixDetail}
use cluster_api_ipam_provide.Controller.ResolvedPrefixes.{
  detail_by_id, detail_or_zero, static_gateway,
}

-- The detail has another ID.
abbrev IsOther : ℤ → PrefixDetail → Type 0
IsOther id d = d.id ≢ id

-- What was fetched for an ID: the last detail with that ID, or with none an empty CIDR and no custom
-- fields.
pub data IsFetched (fetched : List PrefixDetail) (id : ℤ) (d : PrefixDetail) : Type 0 where
  last :
      (before after : List PrefixDetail)
      → fetched ≡ before ++ d ∷ after
      → d.id ≡ id
      → All (IsOther id) after
      → IsFetched fetched id d
  missing :
      All (IsOther id) fetched
      → d ≡ record { id = ℤ.pos 0; cidr = ""; custom_fields = [] }
      → IsFetched fetched id d

-- The gateway of the reference at the position `i`, or past the last one "".
pub data IsGatewayAt (refs : List NetBoxPrefixReference) (i : ℕ) (gateway : String) : Type 0 where
  at_reference :
      (before after : List NetBoxPrefixReference) (ref : NetBoxPrefixReference)
      → refs ≡ before ++ ref ∷ after
      → length before ≡ i
      → gateway ≡ ref.gateway
      → IsGatewayAt refs i gateway
  past : length refs ≤ i → gateway ≡ "" → IsGatewayAt refs i gateway

detail_by_id_missing :
    (id : ℤ) (fetched : List PrefixDetail)
    → All (IsOther id) fetched
    → detail_by_id id fetched ≡ none
unfolding detail_by_id
detail_by_id_missing id [] h = refl
detail_by_id_missing id (d ∷ ds) (h, hs) =
    rw (detail_by_id_missing id ds hs) (elim (Bool-cases (d.id ==ℤ id)) [
      | inl same ↦ absurd (h ((==ℤ_iff d.id id).0 same))
      | inr differs ↦ rw differs refl
    ])

detail_by_id_last :
    (id : ℤ) (before after : List PrefixDetail) (d : PrefixDetail)
    → d.id ≡ id
    → All (IsOther id) after
    → detail_by_id id (before ++ d ∷ after) ≡ some d
unfolding detail_by_id
detail_by_id_last id [] after d e h =
    rw (detail_by_id_missing id after h) (rw ((==ℤ_iff d.id id).1 e) refl)
detail_by_id_last id (b ∷ before) after d e h = rw (detail_by_id_last id before after d e h) refl

pub IsFetched-detail :
    {fetched : List PrefixDetail} {id : ℤ} {d : PrefixDetail}
    → IsFetched fetched id d
    → detail_or_zero (detail_by_id id fetched) ≡ d
IsFetched-detail {fetched} {id} {d} (last before after split e h) =
    ap (λ ds. detail_or_zero (detail_by_id id ds)) split
    ∙ ap detail_or_zero (detail_by_id_last id before after d e h)
IsFetched-detail {fetched} {id} (missing h e) =
    ap detail_or_zero (detail_by_id_missing id fetched h) ∙ sym e

-- What a detail more, before the others, makes of what was fetched.
IsFetched-cons :
    (id : ℤ) (x : PrefixDetail) (ds : List PrefixDetail) (d : PrefixDetail)
    → detail_by_id id ds ≡ some d
    → IsFetched ds id d
    → IsFetched (x ∷ ds) id d
IsFetched-cons id x ds d found (last before after split e h) =
    last (x ∷ before) after (ap (λ l. x ∷ l) split) e h
IsFetched-cons id x ds d found (missing h e) = absurd (cc (found, detail_by_id_missing id ds h))

absent-IsOther :
    (id : ℤ) (fetched : List PrefixDetail)
    → detail_by_id id fetched ≡ none
    → All (IsOther id) fetched
unfolding detail_by_id
absent-IsOther id [] h = tt
absent-IsOther id (d ∷ ds) h = elim (Option-cases (detail_by_id id ds)) [
  | inr (x, found) ↦ absurd (cc (rw found at h))
  | inl absent ↦ (
    (λ e. absurd (cc (rw ((==ℤ_iff d.id id).1 e) at (rw absent at h)))),
    absent-IsOther id ds absent,
  )
]

some_last :
    (id : ℤ) (fetched : List PrefixDetail) (d : PrefixDetail)
    → detail_by_id id fetched ≡ some d
    → IsFetched fetched id d
unfolding detail_by_id
some_last id [] d h = absurd (cc)
some_last id (x ∷ ds) d h = elim (Option-cases (detail_by_id id ds)) [
  | inr (y, found) ↦
      let same : y ≡ d = cc (rw found at h) in
      IsFetched-cons id x ds d (found ∙ ap some same) (rw same at (some_last id ds y found))
  | inl absent ↦ elim (Bool-cases (x.id ==ℤ id)) [
    | inl here ↦
        let same : x ≡ d = cc (rw here at (rw absent at h)) in
        rw (sym same) (last [] ds refl ((==ℤ_iff x.id id).0 here) (absent-IsOther id ds absent))
    | inr differs ↦ absurd (cc (rw differs at (rw absent at h)))
  ]
]

pub detail-IsFetched :
    (id : ℤ) (fetched : List PrefixDetail)
    → IsFetched fetched id (detail_or_zero (detail_by_id id fetched))
detail-IsFetched id fetched = elim (Option-cases (detail_by_id id fetched)) [
  | inl absent ↦ rw absent (missing (absent-IsOther id fetched absent) refl)
  | inr (d, found) ↦ rw found (some_last id fetched d found)
]

pub IsGatewayAt-static :
    {refs : List NetBoxPrefixReference} {i : ℕ} {gateway : String}
    → IsGatewayAt refs i gateway
    → static_gateway refs i ≡ gateway
IsGatewayAt-static {refs} {i} (at_reference before after ref split at e) =
    ap (λ l. static_gateway l i) split
    ∙ ap (static_gateway (before ++ ref ∷ after)) (sym at)
    ∙ reached before after ref
    ∙ sym e
  where
    reached :
        (before after : List NetBoxPrefixReference) (ref : NetBoxPrefixReference)
        → static_gateway (before ++ ref ∷ after) (length before) ≡ ref.gateway
    reached [] after ref = refl
    reached (b ∷ before) after ref = reached before after ref
IsGatewayAt-static {refs} {i} (past beyond e) = none_there refs i beyond ∙ sym e
  where
    none_there :
        (refs : List NetBoxPrefixReference) (i : ℕ) → length refs ≤ i → static_gateway refs i ≡ ""
    none_there [] i h = refl
    none_there (ref ∷ refs) zero h = absurd (omega arith)
    none_there (ref ∷ refs) (suc i) h = none_there refs i (omega arith)

pub static-IsGatewayAt :
    (refs : List NetBoxPrefixReference) (i : ℕ) → IsGatewayAt refs i (static_gateway refs i)
static-IsGatewayAt [] i = past (omega arith) refl
static-IsGatewayAt (ref ∷ refs) zero = at_reference [] refs ref refl refl refl
static-IsGatewayAt (ref ∷ refs) (suc i) = one_more (static-IsGatewayAt refs i)
  where
    one_more : {s : String} → IsGatewayAt refs i s → IsGatewayAt (ref ∷ refs) (suc i) s
    one_more (at_reference before after r split at e) =
        at_reference (ref ∷ before) after r (ap (λ l. ref ∷ l) split) (ap suc at) e
    one_more (past beyond e) = past (omega arith) e

-- The text of a custom field: none where no field is named, or the value is missing or null, and else
-- the value, as a text or printed, without the space around it.
pub data IsCustomField (fields : Dict FieldValue) (name s : String) : Type 0 where
  unnamed : is_empty name ≡ true → s ≡ "" → IsCustomField fields name s
  unset :
      is_empty name ≡ false
      → (lookup name fields ≡ none) ⊎ (lookup name fields ≡ some null)
      → s ≡ ""
      → IsCustomField fields name s
  given :
      (value : String)
      → is_empty name ≡ false
      → (lookup name fields ≡ some (text value)) ⊎ (lookup name fields ≡ some (other value))
      → s ≡ trim_space value
      → IsCustomField fields name s

pub custom-IsCustomField :
    (fields : Dict FieldValue) (name : String)
    → IsCustomField fields name (custom_field_string fields name)
unfolding custom_field_string
custom-IsCustomField fields name = elim (Bool-cases (is_empty name)) [
  | inl empty ↦ rw empty (unnamed empty refl)
  | inr full ↦ elim (Option-cases (lookup name fields)) [
    | inl absent ↦ rw full (rw absent (unset full (inl absent) refl))
    | inr (null, found) ↦ rw full (rw found (unset full (inr found) refl))
    | inr (text value, found) ↦ rw full (rw found (given value full (inl found) refl))
    | inr (other value, found) ↦ rw full (rw found (given value full (inr found) refl))
  ]
]

pub IsCustomField-custom :
    {fields : Dict FieldValue} {name s : String}
    → IsCustomField fields name s
    → custom_field_string fields name ≡ s
unfolding custom_field_string
IsCustomField-custom (unnamed empty e) = rw empty (sym e)
IsCustomField-custom (unset full (inl absent) e) = rw full (rw absent (sym e))
IsCustomField-custom (unset full (inr found) e) = rw full (rw found (sym e))
IsCustomField-custom (given value full (inl found) e) = rw full (rw found (sym e))
IsCustomField-custom (given value full (inr found) e) = rw full (rw found (sym e))
