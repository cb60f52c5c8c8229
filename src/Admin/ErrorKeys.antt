-- ===== src/Admin/ErrorKeys.antt =====
-- frontend/src/components/admin/connectionErrorMessages.ts: the message key that is shown for an
-- error of a connection, whatever the error is.
pub mod Laws
mod Tests
use query_craft.Common.{
  ℕ, String, Bool, true, false, ◌||◌, List, [], ◌∷◌, Option, none, some, map, contains, any, codes,
  codes_eq, trim, lower, if◌then◌else◌,
}
use query_craft.Common.Value.{Value, str, arr, obj, get, is_truthy, is_object}

unfoldable pub known_safe_keys : List String
known_safe_keys =
    "error.connection_auth_failed" ∷ "error.connection_network_unreachable"
    ∷ "error.connection_timeout" ∷ "error.credential_config" ∷ "error.introspection_failed"
    ∷ "error.introspection_timeout" ∷ "error.connection_referenced_delete_blocked"
    ∷ "error.connection_already_active" ∷ "error.connection_already_disabled"
    ∷ "error.connection_not_found" ∷ "error.connection_disabled" ∷ "error.unknown.message" ∷ []

abbrev pub unknown_key : String
unknown_key = "error.unknown.message"

-- `clean === s`.
abbrev pub is_named : List ℕ → String → Bool
is_named clean s = codes_eq clean (codes s)

-- The key of a category in lower case and without white space around it.
unfoldable pub key_of : List ℕ → String
key_of clean =
    if is_named clean "auth_failed" || is_named clean "connection_auth_failed"
    then "error.connection_auth_failed"
    else if is_named clean "network_unreachable" || is_named clean "connection_network_unreachable"
    then "error.connection_network_unreachable"
    else if is_named clean "timeout" || is_named clean "connection_timeout"
    then "error.connection_timeout"
    else if is_named clean "credential_config"
    then "error.credential_config"
    else if is_named clean "introspection_failed"
    then "error.introspection_failed"
    else if is_named clean "introspection_timeout"
    then "error.introspection_timeout"
    else if is_named clean "connection_referenced_delete_blocked"
        || is_named clean "referenced_delete_blocked"
    then "error.connection_referenced_delete_blocked"
    else if is_named clean "connection_already_active"
    then "error.connection_already_active"
    else if is_named clean "connection_already_disabled"
    then "error.connection_already_disabled"
    else if is_named clean "connection_not_found"
    then "error.connection_not_found"
    else if is_named clean "connection_disabled"
    then "error.connection_disabled"
    else unknown_key

-- An empty category is not known either.
unfoldable pub map_category_to_key : String → String
map_category_to_key category = key_of (trim (map lower (codes category)))

unfoldable pub get_safe_message_key : String → String
get_safe_message_key key = if contains known_safe_keys key then key else unknown_key

-- A chain of early returns: what an object gives by its own texts, if it gives any.
abbrev pub by_category : Value → Option String
by_category (str s) = some (map_category_to_key s)
by_category v = none

abbrev pub by_key : Value → Option String
by_key (str s) = some (get_safe_message_key s)
by_key v = none

infixr 20 ◌orelse◌
abbrev pub ◌orelse◌ {ℓ} : {A : Type ℓ} → Option A → Option A → Option A
none orelse o = o
some a orelse o = some a

-- `message_key`, then `error`, of an object.
unfoldable pub own_keys : Value → Option String
own_keys v = by_key (get "message_key" v) orelse by_category (get "error" v)

-- `detail`, as a text or as an object.
unfoldable pub detail_keys : Value → Option String
unfolding own_keys
detail_keys v =
    by_category (get "detail" v)
    orelse (if is_object (get "detail" v) then own_keys (get "detail" v) else none)

unfoldable pub body_keys : Value → Option String
unfolding own_keys detail_keys
body_keys v =
    if is_object (get "body" v)
    then own_keys (get "body" v) orelse detail_keys (get "body" v)
    else none

abbrev pub or_unknown : Option String → String
or_unknown none = unknown_key
or_unknown (some key) = key

unfoldable pub object_key : Value → String
unfolding own_keys body_keys detail_keys
object_key v = or_unknown (own_keys v orelse body_keys v orelse detail_keys v)

unfoldable pub get_safe_connection_error_key : Value → String
unfolding object_key
get_safe_connection_error_key (str s) =
    if is_truthy (str s) then map_category_to_key s else unknown_key
get_safe_connection_error_key v = if is_truthy v then object_key v else unknown_key
