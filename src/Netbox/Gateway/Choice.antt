-- ===== src/Netbox/Gateway/Choice.antt =====
-- What `ResolveGateway` answers, against a description of the choice that names no test.
use cluster_api_ipam_provide.Base.{
  String, Bool, true, false, List, [], ◌∷◌, ok, ◌≡◌, ◌≢◌, ◌↔◌, refl, ◌⊎◌, inl, inr, arith, All,
  Bool-cases, Result-cases,
}
use cluster_api_ipam_provide.Base.Text.{is_empty, trim_space}
use cluster_api_ipam_provide.Netbox.Gateway.{
  Netip, same, first_non_empty, validate_gateway, resolve_gateway,
}

-- `s` is the first of the texts that is not blank, trimmed.
pub data FirstSet (s : String) : List String → Type 0 where
  here : (v : String) (values : List String) → trim_space v ≡ s → s ≢ "" → FirstSet s (v ∷ values)
  later :
      (v : String) (values : List String)
      → trim_space v ≡ ""
      → FirstSet s values
      → FirstSet s (v ∷ values)

abbrev pub AllBlank : List String → Type 0
AllBlank values = All (λ v. trim_space v ≡ "") values

is_empty_iff : (s : String) → (is_empty s ≡ true) ↔ (s ≡ "")
is_empty_iff String.[] = (λ h. refl, λ h. refl)
is_empty_iff (String.◌∷◌ c s) = (λ h. cc, λ h. cc)

first_non_empty_cases :
    (values : List String)
    → (AllBlank values × (first_non_empty values ≡ ""))
      ⊎ (FirstSet (first_non_empty values) values × (first_non_empty values ≢ ""))
unfolding first_non_empty
first_non_empty_cases [] = inl (tt, refl)
first_non_empty_cases (v ∷ values) = elim (Bool-cases (is_empty (trim_space v))) [
  | inl blank ↦ rw blank (elim (first_non_empty_cases values) [
    | inl (all, e) ↦ inl (((is_empty_iff _).0 blank, all), e)
    | inr (first, ne) ↦ inr (later v values ((is_empty_iff _).0 blank) first, ne)
  ])
  | inr full ↦
      let ne : trim_space v ≢ "" = (λ e. cc ((is_empty_iff _).1 e)) in
      rw full (inr (here v values refl ne, ne))
]

FirstSet-eq : {s : String} {values : List String} → FirstSet s values → first_non_empty values ≡ s
unfolding first_non_empty
FirstSet-eq (here v values e ne) = ground (arith, is_empty_iff (trim_space v))
FirstSet-eq (later v values e f) = ground (arith, is_empty_iff (trim_space v), FirstSet-eq f)

AllBlank-eq : (values : List String) → AllBlank values → first_non_empty values ≡ ""
unfolding first_non_empty
AllBlank-eq [] h = refl
AllBlank-eq (v ∷ values) h = ground (arith, AllBlank-eq values h.1)

FirstSet-ne : {s : String} {values : List String} → FirstSet s values → s ≢ ""
FirstSet-ne (here v values e ne) = ne
FirstSet-ne (later v values e f) = FirstSet-ne f

same_iff : (a b : Bool) → (same a b ≡ true) ↔ (a ≡ b)
same_iff a b = ground arith

module _ (N : Netip) where
  open N use {Addr, Prefix, parse_addr, is4, addr_string, parse_prefix, prefix_addr, contains}

  -- The gateway `g` of the prefix `cidr`, and whether it lies in the prefix.
  pub data GatewayOf (cidr : String) (values : List String) (g : String) (in_range : Bool)
      : Type 0 where
    unset : AllBlank values → g ≡ "" → in_range ≡ false → GatewayOf cidr values g in_range
    chosen :
        (s : String) (addr : Addr) (prefix : Prefix)
        → FirstSet s values
        → parse_addr s ≡ ok addr
        → parse_prefix (trim_space cidr) ≡ ok prefix
        → is4 addr ≡ is4 (prefix_addr prefix)
        → g ≡ addr_string addr
        → in_range ≡ contains prefix addr
        → GatewayOf cidr values g in_range

  validate_gateway_sound :
      (s cidr g : String) (r : Bool)
      → validate_gateway N s cidr ≡ ok (g, r)
      → (addr : Addr) × (prefix : Prefix) × (parse_addr s ≡ ok addr)
        × (parse_prefix (trim_space cidr) ≡ ok prefix)
        × (is4 addr ≡ is4 (prefix_addr prefix))
        × (g ≡ addr_string addr)
        × (r ≡ contains prefix addr)
  unfolding validate_gateway
  validate_gateway_sound s cidr g r h = elim (Result-cases (parse_addr s)) [
    | inr (e, ea) ↦ absurd (cc (rw ea at h))
    | inl (a, ea) ↦ elim (Result-cases (parse_prefix (trim_space cidr))) [
      | inr (e, ep) ↦ absurd (cc (rw ep at (rw ea at h)))
      | inl (p, ep) ↦ (
        a,
        p,
        ea,
        ep,
        ground (arith, same_iff (is4 a) (is4 (prefix_addr p))),
        ground arith,
        ground arith,
      )
    ]
  ]

  validate_gateway_complete :
      (s cidr : String) (addr : Addr) (prefix : Prefix)
      → parse_addr s ≡ ok addr
      → parse_prefix (trim_space cidr) ≡ ok prefix
      → is4 addr ≡ is4 (prefix_addr prefix)
      → validate_gateway N s cidr ≡ ok (addr_string addr, contains prefix addr)
  unfolding validate_gateway
  validate_gateway_complete s cidr addr prefix ea ep e4 =
      rw (ea) (rw ep (rw ((same_iff (is4 addr) (is4 (prefix_addr prefix))).1 e4) refl))

  module _ (cidr a b c g : String) (r : Bool) where
    abbrev sources : List String
    sources = a ∷ b ∷ c ∷ []

    resolve_gateway_sound : resolve_gateway N cidr a b c ≡ ok (g, r) → GatewayOf cidr sources g r
    unfolding resolve_gateway
    resolve_gateway_sound h = elim (first_non_empty_cases sources) [
      | inl (blank, e) ↦ unset blank (cc (rw e at h)) (cc (rw e at h))
      | inr (first, ne) ↦
          let full : is_empty (first_non_empty sources) ≡ false =
            ground (arith, is_empty_iff (first_non_empty sources)) in
          let (addr, prefix, ea, ep, e4, eg, er) =
            validate_gateway_sound (first_non_empty sources) cidr g r (rw full at h) in
          chosen (first_non_empty sources) addr prefix first ea ep e4 eg er
    ]

    resolve_gateway_complete : GatewayOf cidr sources g r → resolve_gateway N cidr a b c ≡ ok (g, r)
    unfolding resolve_gateway
    resolve_gateway_complete (unset blank eg er) = rw (AllBlank-eq sources blank, eg, er)
    resolve_gateway_complete (chosen s addr prefix first ea ep e4 eg er) =
        let full : is_empty s ≡ false = ground (arith, is_empty_iff s, FirstSet-ne first) in
        rw (FirstSet-eq first, full, eg, er) (validate_gateway_complete s cidr addr prefix ea ep e4)

    -- `ResolveGateway` succeeds with a gateway exactly as described: with none when the three sources
    -- are blank, and otherwise with the normal form of the first that is not, which then parses, has
    -- the family of the prefix, and is flagged exactly if the prefix contains it.
    pub resolve_gateway_iff :
        (resolve_gateway N cidr a b c ≡ ok (g, r)) ↔ GatewayOf cidr sources g r
    resolve_gateway_iff = (resolve_gateway_sound, resolve_gateway_complete)
