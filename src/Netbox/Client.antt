-- ===== src/Netbox/Client.antt =====
-- The requests of `APIClient` (internal/netbox/client.go): `do`, `get`, `post` and `listAll`. The
-- operations of the interface are in the modules below.
pub mod Pages
pub mod Termination
pub mod Tags
pub mod Prefixes
pub mod Addresses
pub mod Interface
pub mod Server
use cluster_api_ipam_provide.Base.{
  ℕ, zero, suc, String, Bool, true, false, ◌&&◌, ◌||◌, List, [], ◌∷◌, ◌++◌, Option, none, some,
  Result, ok, err, ◌<>◌, ◌==◌, if◌then◌else◌, Effect, pure, fail, lift, wrapping, ◌>>=◌, ◌>>◌,
  map_err, is_some,
}
use text.Mathlib.Text.{starts_with}
use cluster_api_ipam_provide.Base.Text.{is_empty, trim_right, contains}
use cluster_api_ipam_provide.Base.Errors.{Error, wrap, message, api, as_api, diverges}
use cluster_api_ipam_provide.Netbox.Wire.{
  Network, Build, Request, Response, Method, get, post, delete, Payload, ListResponse,
}

pub record ApiClient : Type 0 where
  pub base_url : String
  pub token : String

abbrev pub v2_token_prefix : String
v2_token_prefix = "nbt_"

unfoldable pub authorization_header_value : String → String
authorization_header_value token =
    if starts_with token v2_token_prefix && contains token "."
    then "Bearer " <> token
    else "Token " <> token

unfoldable pub compose_v2_token : String → String → String
compose_v2_token key secret = v2_token_prefix <> key <> "." <> secret

-- `SanitizedError`
unfoldable pub sanitized_error : Error → Error
sanitized_error e = elim (as_api e) [
  | none ↦ e
  | some a ↦ message ("NetBox request failed: " <> a.status)
]

-- `UserAgent` of internal/version
unfoldable pub user_agent : Build → String
user_agent b =
    "cluster-api-ipam-provider-netbox/" <> b.git_version <> " (" <> b.os <> "/" <> b.arch <> ") "
    <> b.go_version

abbrev pub method_name : Method → String
method_name get = "GET"
method_name post = "POST"
method_name delete = "DELETE"

unfoldable pub contains_status : List ℕ → ℕ → Bool
contains_status [] status = false
contains_status (s ∷ statuses) status = s == status || contains_status statuses status

module _ {W : Type 0} (N : Network W) (c : ApiClient) where
  abbrev pub content_type : Option Payload → List (String × String)
  content_type none = []
  content_type (some p) = ("Content-Type", "application/json") ∷ []

  unfoldable pub http_request : Method → String → List (String × String) → Option Payload → Request
  unfolding user_agent authorization_header_value
  http_request method path query body = record {
    method = method;
    url = c.base_url <> path;
    query = query;
    headers =
        ("Authorization", authorization_header_value c.token)
        ∷ ("Accept", "application/json")
        ∷ ("User-Agent", user_agent N.build)
        ∷ content_type body;
    body = body;
  }

  module _ {A : Type 0} (decode : String → Result Error A) (unset : A) where
    -- from the response on; `unset` is the response variable that is left as it was
    unfoldable pub read_response :
        (described : String) (expected : List ℕ) → Response → Result Error A
    unfolding contains_status
    read_response described expected resp = elim resp.body [
      | err e ↦ err (wrap ("read " <> described <> " response") e)
      | ok body ↦
          if contains_status expected resp.status_code
          then (if is_empty body
              then ok unset
              else map_err (wrap ("decode " <> described <> " response")) (decode body))
          else err (api resp.status_code resp.status body)
    ]

    -- `do`
    unfoldable pub do_request :
        Method → String → List (String × String) → Option Payload → List ℕ → Effect W Error A
    unfolding read_response http_request
    do_request method path query body expected = do
      let described = method_name method <> " " <> path
      wrapping (wrap ("build " <> described <> " request"))
          (lift (N.check_url (c.base_url <> path)))
      resp ← N.send (http_request method path query body)
      lift (read_response described expected resp)

    -- `post`
    unfoldable pub post_request : String → Payload → List ℕ → Effect W Error A
    unfolding do_request
    post_request path body expected = do_request post path [] (some body) expected

  module _ {A : Type 0} (decode : String → Result Error (ListResponse A)) where
    -- `get` of one page
    unfoldable pub get_page : String → List (String × String) → Effect W Error (ListResponse A)
    unfolding do_request
    get_page path query =
        do_request decode (record { next = ""; results = [] }) get path query none (200 ∷ [])

    -- The loop of `listAll`, at most `fuel` pages long.
    unfoldable pub list_from :
        (fuel : ℕ) → List A → String → List (String × String) → Effect W Error (List A)
    list_from zero all path query = fail diverges
    list_from (suc fuel) all path query = do
      page ← get_page path query
      if is_empty page.next then pure (all ++ page.results) else do
        next ← wrapping (wrap ("parse next page url " <> page.next)) (lift (N.parse_url page.next))
        list_from fuel (all ++ page.results) next.path next.query

    unfoldable pub list_all : ℕ → String → List (String × String) → Effect W Error (List A)
    unfolding list_from
    list_all fuel path query = list_from fuel [] path query
