-- ===== src/Netbox/Gateway.antt =====
-- internal/netbox/gateway.go: which gateway a prefix gets. The addresses and prefixes of net/netip
-- stand behind an interface.
pub mod Choice
use cluster_api_ipam_provide.Base.{
  String, Bool, true, false, not, List, [], ◌∷◌, Option, none, some, Result, ok, err,
  ◌>>=ʳ◌ as ◌>>=◌, ◌<>◌, map_err, if◌then◌else◌,
}
use cluster_api_ipam_provide.Base.Text.{is_empty, trim_space}
use cluster_api_ipam_provide.Base.Dict.{Dict, lookup}
use cluster_api_ipam_provide.Base.Errors.{Error, wrap, message, external}

-- net/netip as the program uses it: `ParseAddr`, `Is4`, `String`, `ParsePrefix`, `Addr`, `Contains`.
pub record Netip : Type 1 where
  pub Addr : Type 0
  pub Prefix : Type 0
  pub parse_addr : String → Result Error Addr
  pub is4 : Addr → Bool
  pub addr_string : Addr → String
  pub parse_prefix : String → Result Error Prefix
  pub prefix_addr : Prefix → Addr
  pub contains : Prefix → Addr → Bool

-- The value of a NetBox custom field, decoded from JSON. A value that is neither null nor a string
-- is kept as the text that `fmt.Sprint` prints for it.
pub data FieldValue : Type 0 where
  null : FieldValue
  text : String → FieldValue
  other : (printed : String) → FieldValue

abbrev field_text : Option FieldValue → String
field_text none = ""
field_text (some null) = ""
field_text (some (text s)) = trim_space s
field_text (some (other printed)) = trim_space printed

-- A nil map is the empty one.
unfoldable pub custom_field_string : Dict FieldValue → String → String
custom_field_string custom_fields name =
    if is_empty name then "" else field_text (lookup name custom_fields)

unfoldable pub first_non_empty : List String → String
first_non_empty [] = ""
first_non_empty (v ∷ values) =
    let rest = first_non_empty values in let s = trim_space v in if is_empty s then rest else s

-- Go's `==` on two `bool`s
abbrev pub same : Bool → Bool → Bool
same true b = b
same false b = not b

module _ (N : Netip) where
  open N use {parse_addr, is4, addr_string, parse_prefix, prefix_addr, contains}

  unfoldable pub validate_gateway : String → String → Result Error (String × Bool)
  validate_gateway gateway prefix_cidr = do
    addr ←
        map_err (wrap ("gateway " <> gateway <> " is not a valid IP address")) (parse_addr gateway)
    prefix ←
        map_err (wrap ("prefix " <> prefix_cidr <> " is not valid CIDR"))
          (parse_prefix (trim_space prefix_cidr))
    if same (is4 addr) (is4 (prefix_addr prefix))
        then ok (addr_string addr, contains prefix addr)
        else err (
            message
              ("gateway " <> gateway <> " address family does not match prefix " <> prefix_cidr))

  -- `ResolveGateway`, with the gateway and `inRange`
  unfoldable pub resolve_gateway : String → String → String → String → Result Error (String × Bool)
  resolve_gateway prefix_cidr custom_field_value per_prefix_static pool_static =
      let gateway = first_non_empty (custom_field_value ∷ per_prefix_static ∷ pool_static ∷ []) in
      if is_empty gateway then ok ("", false) else validate_gateway gateway prefix_cidr
