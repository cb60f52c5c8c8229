-- ===== src/Auth/Expiry.antt =====
-- frontend/src/auth/sessionExpiry.ts: which errors end the session, and where the browser goes then.
-- The browser's location is a record; the error code is the query parameter `error`.
use query_craft.Common.{
  String, Bool, true, false, ◌&&◌, ◌||◌, not, Option, none, some, str_eq, if◌then◌else◌,
}
use query_craft.Common.Value.{Value, get, is_str, is_int}

unfoldable pub is_session_expiry : Value → Bool
is_session_expiry e =
    is_int 401 (get "status" e)
    || is_int 401 (get "status" (get "response" e))
    || (is_str "unauthorized" (get "error" e) && is_str "error.unauthorized" (get "message_key" e))

unfoldable pub is_permission_denied : Value → Bool
is_permission_denied e = is_int 403 (get "status" e) || is_int 403 (get "status" (get "response" e))

pub record Location : Type 0 where
  pub pathname : String
  pub error_code : Option String

abbrev pub expired_location : Location
expired_location = record { pathname = "/sign-in"; error_code = some "session_expired" }

-- `sourcePath` is the path at which the request began. The flag says that `popstate` is dispatched.
unfoldable pub handle_session_expiry : Value → String → Location → Location × Bool
unfolding is_session_expiry
handle_session_expiry e source_path here =
    if not (is_session_expiry e) || str_eq source_path "/sign-in"
    then (here, false)
    else (expired_location, true)

abbrev is_expired_code : Option String → Bool
is_expired_code none = false
is_expired_code (some code) = str_eq code "session_expired"

unfoldable pub session_aware_sign_in : Location → Location
session_aware_sign_in here =
    if str_eq here.pathname "/sign-in" && is_expired_code here.error_code
    then expired_location
    else record { pathname = "/sign-in"; error_code = none }
