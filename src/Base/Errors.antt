-- ===== src/Base/Errors.antt =====
-- Go's `error` values as the program makes and inspects them.
use Prim.Native.Nat.{ℕ}
use Prim.Native.String.{String, ◌++◌}
use cluster_api_ipam_provide.Base.Tests.{if◌then◌else◌}
use cluster_api_ipam_provide.Base.Text.{is_empty, trim_space}
use mathlib.Core.Bool.{Bool, true, false}
use mathlib.Core.Option.{Option, none, some}

pub data Error : Type 0 where
  -- `errors.New(text)`, and `fmt.Errorf` without `%w`
  message : (text : String) → Error
  -- `fmt.Errorf("text: %w", cause)` and `errors.Wrap(cause, text)`
  wrap : (text : String) (cause : Error) → Error
  -- `apiError` of internal/netbox/client.go
  api : (status_code : ℕ) (status body : String) → Error
  -- `ErrNoAvailableIP`
  no_available_ip : Error
  -- an error of the Kubernetes API for which `apierrors.IsNotFound` holds, and any other
  not_found : (text : String) → Error
  kube : (text : String) → Error
  -- `controllerutil.AlreadyOwnedError`
  already_owned : (text : String) → Error
  -- an error of a library, such as one of net/http or of a parser
  external : (text : String) → Error
  -- `kerrors.NewAggregate` of two errors
  aggregate : Error → Error → Error
  -- not an error of the program: a loop of the model is out of fuel
  diverges : Error
  -- a run-time panic on a nil pointer
  nil_dereference : Error

-- The fields of an `apiError`.
pub record ApiError : Type 0 where
  pub status_code : ℕ
  pub status : String
  pub body : String

-- `errors.As(err, &apiErr)`
abbrev pub as_api : Error → Option ApiError
as_api (api code status body) = some (record { status_code = code; status = status; body = body })
as_api (wrap text cause) = as_api cause
as_api _ = none

-- `errors.Is(err, ErrNoAvailableIP)`
abbrev pub is_no_available_ip : Error → Bool
is_no_available_ip no_available_ip = true
is_no_available_ip (wrap text cause) = is_no_available_ip cause
is_no_available_ip (aggregate e f) = elim (is_no_available_ip e) [
  | true ↦ true
  | false ↦ is_no_available_ip f
]
is_no_available_ip _ = false

-- `apierrors.IsNotFound(err)`
abbrev pub is_not_found : Error → Bool
is_not_found (not_found text) = true
is_not_found (wrap text cause) = is_not_found cause
is_not_found _ = false

-- `errors.As(err, &alreadyOwnedErr)`
abbrev pub is_already_owned : Error → Bool
is_already_owned (already_owned text) = true
is_already_owned (wrap text cause) = is_already_owned cause
is_already_owned _ = false

abbrev api_text : String → String → String
api_text status body = if is_empty body then status else status ++ ": " ++ body

-- `err.Error()`; the texts leave out the quotation marks of `%q`
unfoldable pub error_text : Error → String
error_text (message text) = text
error_text (wrap text cause) = text ++ ": " ++ error_text cause
error_text (api code status body) = api_text status (trim_space body)
error_text no_available_ip = "no available IP"
error_text (not_found text) = text
error_text (kube text) = text
error_text (already_owned text) = text
error_text (external text) = text
error_text (aggregate e f) = "[" ++ error_text e ++ ", " ++ error_text f ++ "]"
error_text diverges = ""
error_text nil_dereference = "runtime error: invalid memory address or nil pointer dereference"
