-- ===== src/Admin/ErrorKeys/Tests.antt =====
-- Keys of some errors.
use query_craft.Common.{◌≡◌, refl, lower, trim, codes_eq}
use query_craft.Common.Value.{Value, obj, plain, field, str, end}
use query_craft.Admin.ErrorKeys.{get_safe_connection_error_key, map_category_to_key, key_of}
use query_craft.Admin.ErrorKeys.Laws.{IsSafe, get_safe_connection_error_key-IsSafe}

abbrev refused : Value
refused = obj plain (field "detail" (obj plain (field "error" (str " Auth_Failed ") end)) end)

abbrev injected : Value
injected = obj plain (field "message_key" (str "DROP TABLE users") end)

reads_detail : get_safe_connection_error_key refused ≡ "error.connection_auth_failed"
unfolding get_safe_connection_error_key map_category_to_key key_of lower trim codes_eq
reads_detail = refl

get_safe_connection_error_key_example : IsSafe (get_safe_connection_error_key injected)
get_safe_connection_error_key_example = get_safe_connection_error_key-IsSafe injected
