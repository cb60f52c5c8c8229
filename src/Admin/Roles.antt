-- ===== src/Admin/Roles.antt =====
-- The saving of roles in frontend/src/hooks/useAdminRoles.ts. A role is the JSON object that the
-- server sends. What belongs to the platform is a parameter: `JSON.stringify`, `localeCompare`, and
-- `instanceof` for the platform's classes of errors.

pub mod Saving
pub mod Asked
pub mod Laws
mod Tests
use query_craft.Common.{
  ℕ, suc, String, Bool, true, false, not, ◌&&◌, ◌||◌, List, [], ◌∷◌, map, Option, none, some, any,
  all, keep, length, contains, str_eq, ◌==◌, if◌then◌else◌,
}
use query_craft.Common.Int.{ℤ, pos, negsuc}
use query_craft.Common.Value.{
  Value, Items, Fields, Proto, undefined, null, nan, bool, int, real, str, arr, obj, nil, cons, end,
  field, get, has, put, if_nullish, is_same, as_str,
}
use query_craft.Api.Semantics.{items_of}

-- `is_before s t` says that `s.localeCompare(t)` is not positive.
pub record Platform : Type 0 where
  pub stringify : Value → String
  pub is_before : String → String → Bool
  pub is_instance : String → Value → Bool

abbrev pub from_list : List Value → Items
from_list [] = nil
from_list (v ∷ vs) = cons v (from_list vs)

abbrev pub is_undefined : Value → Bool
is_undefined undefined = true
is_undefined v = false

abbrev empty : Value
empty = arr nil

-- `role.key ?? fallback`, as a field of the role.
abbrev pub default : String → Value → Value → Value
default k fallback (obj p fs) = obj p (put k (if_nullish (get k (obj p fs)) fallback) fs)
default k fallback v = v

abbrev pub with_field : String → Value → Value → Value
with_field k v (obj p fs) = obj p (put k v fs)
with_field k v w = w

unfoldable pub normalize_policy : Value → Value
normalize_policy policy =
    default "row_filters" empty
      (default "column_masks" empty (default "allowed_tables" empty policy))

-- The policies of a role, where it has any.
unfoldable pub connection_policies : Value → Value
unfolding normalize_policy
connection_policies role = each (get "connection_policies" role)
  where
    each : Value → Value
    each (arr vs) = arr (from_list (map normalize_policy (items_of (arr vs))))
    each v = undefined

unfoldable pub policy_count : Value → Value
unfolding connection_policies
policy_count role =
    if has "connection_policy_count" role
    then if_nullish (get "connection_policy_count" role) (int (pos 0))
    else int (pos (length (items_of (connection_policies role))))

unfoldable pub normalize_role : Value → Value
unfolding policy_count connection_policies
normalize_role role = with_field "connection_policies" (connection_policies role) (
    with_field "connection_policy_count" (policy_count role) (
      default "group_mappings" empty
        (default "is_builtin" (bool false) (default "permissions" empty role))))

module _ (g : Platform) where
  unfoldable pub is_ambiguous_network_failure : Value → Bool
  is_ambiguous_network_failure error =
      g.is_instance "TypeError" error || g.is_instance "DOMException" error

  unfoldable pub insert_value : Value → List Value → List Value
  insert_value v [] = v ∷ []
  insert_value v (w ∷ ws) =
      let rest = insert_value v ws in
      if g.is_before (g.stringify v) (g.stringify w) then v ∷ w ∷ ws else w ∷ rest

  unfoldable pub sort_values : List Value → List Value
  unfolding insert_value
  sort_values [] = []
  sort_values (v ∷ vs) = insert_value v (sort_values vs)

  insert_field : String → Value → Fields → Fields
  insert_field k v end = field k v end
  insert_field k v (field j w fs) =
      let rest = insert_field k v fs in
      if g.is_before k j then field k v (field j w fs) else field j w rest

  unfoldable pub sort_fields : Fields → Fields
  unfolding insert_field
  sort_fields end = end
  sort_fields (field k v fs) = insert_field k v (sort_fields fs)

  -- The entries are sorted by their names alone, so that it is the same to sort them before.
  unfoldable mutual
    unfolding sort_values sort_fields

    pub canonicalize : Value → Value
    canonicalize (arr vs) = arr (from_list (sort_values (canonical_items vs)))
    canonicalize (obj p fs) = obj p (sort_fields (canonical_fields fs))
    canonicalize v = v

    pub canonical_items : Items → List Value
    canonical_items nil = []
    canonical_items (cons v vs) = canonicalize v ∷ canonical_items vs

    pub canonical_fields : Fields → Fields
    canonical_fields end = end
    canonical_fields (field k v fs) = field k (canonicalize v) (canonical_fields fs)

  unfoldable pub same_value : Value → Value → Bool
  unfolding canonicalize
  same_value left right =
      str_eq (g.stringify (canonicalize left)) (g.stringify (canonicalize right))

  -- `data.key !== undefined && !sameValue(value, data.key)` does not hold.
  abbrev pub agrees : String → Value → Value → Bool
  agrees k value update = is_undefined (get k update) || same_value value (get k update)

  abbrev pub agrees_scalar : Value → Value → String → Bool
  agrees_scalar role update k = is_undefined (get k update) || is_same (get k role) (get k update)

  abbrev pub group_values : Value → Value
  group_values role =
      arr (from_list (map (λ m. get "sso_group_value" m) (items_of (get "group_mappings" role))))

  -- The fields of a policy that are compared.
  abbrev pub compared_policy : Value → Value
  compared_policy p = obj Proto.plain (
      field "connection_id" (get "connection_id" p) (
        field "allowed_tables" (get "allowed_tables" p) (
          field "column_masks" (get "column_masks" p)
            (field "row_filters" (get "row_filters" p) end))))

  abbrev pub compared_policies : Value → Value
  compared_policies v = arr (from_list (map compared_policy (items_of v)))

  unfoldable pub role_matches_update : Value → Value → Bool
  role_matches_update role update =
      all (agrees_scalar role update) ("name" ∷ "description" ∷ "priority" ∷ [])
      && agrees "permissions" (get "permissions" role) update
      && agrees "group_mappings" (group_values role) update
      && (is_undefined (get "connection_policies" update)
          || same_value (compared_policies (get "connection_policies" role))
              (compared_policies (get "connection_policies" update)))

  unfoldable pub role_could_be_created_candidate : Value → Value → Bool
  role_could_be_created_candidate role request =
      is_same (get "name" role) (get "name" request)
      && is_same (get "description" role) (if_nullish (get "description" request) null)
      && is_same (get "priority" role) (get "priority" request)
      && same_value (get "permissions" role) (get "permissions" request)
      && same_value (group_values role) (get "group_mappings" request)

  -- The request with no policies where it has none.
  abbrev pub as_update : Value → Value
  as_update request = default "connection_policies" empty request

  unfoldable pub role_matches_create : Value → Value → Bool
  unfolding role_matches_update
  role_matches_create role request = role_matches_update role (as_update request)
