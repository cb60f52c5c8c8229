-- ===== src/Admin/ErrorKeys/Laws.antt =====
-- Only known keys are shown.
use query_craft.Common.{
  ℕ, List, map, trim, lower, codes, ◌||◌, ◌≡◌, refl, String, Bool, true, false, Option, none, some,
  contains, if◌then◌else◌,
}
use query_craft.Common.Value.{Value, str, get, is_object, is_truthy}
use query_craft.Admin.ErrorKeys.{
  is_named, by_category, by_key, ◌orelse◌, or_unknown, known_safe_keys, unknown_key, key_of,
  map_category_to_key, get_safe_message_key, own_keys, detail_keys, body_keys, object_key,
  get_safe_connection_error_key,
}

abbrev pub IsSafe : String → Type 0
IsSafe key = contains known_safe_keys key ≡ true

unknown-IsSafe : IsSafe unknown_key
unfolding known_safe_keys
unknown-IsSafe = refl

if-IsSafe : (b : Bool) (s t : String) → IsSafe s → IsSafe t → IsSafe (if b then s else t)
if-IsSafe true s t h k = h
if-IsSafe false s t h k = k

key_of-IsSafe : (clean : List ℕ) → IsSafe (key_of clean)
unfolding key_of known_safe_keys
key_of-IsSafe clean =
    if-IsSafe (is_named clean "auth_failed" || is_named clean "connection_auth_failed") _ _ refl (
      if-IsSafe
        (is_named clean "network_unreachable" || is_named clean "connection_network_unreachable") _
        _ refl
        (if-IsSafe (is_named clean "timeout" || is_named clean "connection_timeout") _ _ refl (
          if-IsSafe (is_named clean "credential_config") _ _ refl (
            if-IsSafe (is_named clean "introspection_failed") _ _ refl (
              if-IsSafe (is_named clean "introspection_timeout") _ _ refl (
                if-IsSafe
                  (is_named clean "connection_referenced_delete_blocked"
                    || is_named clean "referenced_delete_blocked")
                  _ _ refl
                  (if-IsSafe (is_named clean "connection_already_active") _ _ refl (
                    if-IsSafe (is_named clean "connection_already_disabled") _ _ refl (
                      if-IsSafe (is_named clean "connection_not_found") _ _ refl
                        (if-IsSafe (is_named clean "connection_disabled") _ _ refl refl))))))))))

map_category-IsSafe : (category : String) → IsSafe (map_category_to_key category)
unfolding map_category_to_key
map_category-IsSafe category = key_of-IsSafe (trim (map lower (codes category)))

message_key-IsSafe : (key : String) → IsSafe (get_safe_message_key key)
unfolding get_safe_message_key
message_key-IsSafe key = by_known (contains known_safe_keys key) refl
  where
    by_known :
        (b : Bool) → contains known_safe_keys key ≡ b → IsSafe (if b then key else unknown_key)
    by_known true h = h
    by_known false h = unknown-IsSafe

abbrev GivesSafe : Option String → Type 0
GivesSafe none = Unit {0}
GivesSafe (some key) = IsSafe key

by_category-GivesSafe : (v : Value) → GivesSafe (by_category v)
by_category-GivesSafe (str s) = map_category-IsSafe s
by_category-GivesSafe _ = tt

by_key-GivesSafe : (v : Value) → GivesSafe (by_key v)
by_key-GivesSafe (str s) = message_key-IsSafe s
by_key-GivesSafe _ = tt

orelse-GivesSafe : (o p : Option String) → GivesSafe o → GivesSafe p → GivesSafe (o orelse p)
orelse-GivesSafe none p h k = k
orelse-GivesSafe (some key) p h k = h

if-GivesSafe : (b : Bool) (o : Option String) → GivesSafe o → GivesSafe (if b then o else none)
if-GivesSafe true o h = h
if-GivesSafe false o h = tt

own_keys-GivesSafe : (v : Value) → GivesSafe (own_keys v)
unfolding own_keys
own_keys-GivesSafe v =
    orelse-GivesSafe (by_key (get "message_key" v)) (by_category (get "error" v))
      (by_key-GivesSafe (get "message_key" v)) (by_category-GivesSafe (get "error" v))

detail_keys-GivesSafe : (v : Value) → GivesSafe (detail_keys v)
unfolding detail_keys
detail_keys-GivesSafe v =
    orelse-GivesSafe (by_category (get "detail" v)) _ (by_category-GivesSafe (get "detail" v)) (
      if-GivesSafe (is_object (get "detail" v)) (own_keys (get "detail" v))
        (own_keys-GivesSafe (get "detail" v)))

body_keys-GivesSafe : (v : Value) → GivesSafe (body_keys v)
unfolding body_keys
body_keys-GivesSafe v = if-GivesSafe (is_object (get "body" v)) _ (
    orelse-GivesSafe (own_keys (get "body" v)) (detail_keys (get "body" v))
      (own_keys-GivesSafe (get "body" v)) (detail_keys-GivesSafe (get "body" v)))

or_unknown-IsSafe : (o : Option String) → GivesSafe o → IsSafe (or_unknown o)
or_unknown-IsSafe none h = unknown-IsSafe
or_unknown-IsSafe (some key) h = h

object_key-IsSafe : (v : Value) → IsSafe (object_key v)
unfolding object_key
object_key-IsSafe v = or_unknown-IsSafe _ (
    orelse-GivesSafe (own_keys v) (body_keys v orelse detail_keys v) (own_keys-GivesSafe v) (
      orelse-GivesSafe (body_keys v) (detail_keys v) (body_keys-GivesSafe v)
        (detail_keys-GivesSafe v)))

-- Whatever the error is, the key that is shown for it is one of the known keys: no text of a server
-- reaches the page as a key.
pub get_safe_connection_error_key-IsSafe : (v : Value) → IsSafe (get_safe_connection_error_key v)
unfolding get_safe_connection_error_key
get_safe_connection_error_key-IsSafe (str s) =
    if-IsSafe (is_truthy (str s)) _ _ (map_category-IsSafe s) unknown-IsSafe
get_safe_connection_error_key-IsSafe v =
    if-IsSafe (is_truthy v) _ _ (object_key-IsSafe v) unknown-IsSafe
