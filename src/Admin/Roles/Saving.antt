-- ===== src/Admin/Roles/Saving.antt =====
-- The mutations of frontend/src/hooks/useAdminRoles.ts that save a role. The answers of the server are
-- arguments: the roles before, the answer to the request, and, when it failed, the roles after and the
-- details of one role.
use query_craft.Common.{
  String, Bool, true, false, not, ◌&&◌, List, [], ◌∷◌, ◌++◌, map, all, Option, none, some, keep,
  contains, str_eq, if◌then◌else◌,
}
use query_craft.Common.Value.{Value, Settled, resolved, rejected, arr, get, as_str, is_object}
use query_craft.Api.Semantics.{to_list}
use query_craft.Admin.Roles.{
  Platform, normalize_role, is_ambiguous_network_failure, role_matches_update,
  role_could_be_created_candidate, role_matches_create,
}

pub data Recovery : Type 0 where
  rejected_save uncertain : Recovery

-- `RoleSaveError`.
pub record SaveError : Type 0 where
  pub recovery : Recovery
  pub server_error : Value
  pub authoritative_role : Option Value
  pub is_refreshed : Bool

-- What is written into the cache of queries: the list of roles, one role, or by
-- `publishAuthoritativeRole` one role and its place in the list.
pub data CacheWrite : Type 0 where
  all_roles : List Value → CacheWrite
  one_role published : Value → CacheWrite

-- How a mutation ends. Without the permission it throws before any request.
pub data Saved : Type 0 where
  refused : Saved
  saved : Value → Saved
  failed_with : SaveError → Saved

-- Of a body that is no object the role cannot be read, and of one without an array of objects the roles
-- cannot: the error is caught.
abbrev pub roles_in : Value → Option (List Value)
roles_in (arr vs) =
    if all is_object (to_list vs) then some (map normalize_role (to_list vs)) else none
roles_in v = none

unfoldable pub fetch_authoritative_role : Settled Value → Option Value
fetch_authoritative_role (resolved body) =
    if is_object body then some (normalize_role body) else none
fetch_authoritative_role (rejected e) = none

unfoldable pub fetch_authoritative_roles : Settled Value → Option (List Value)
fetch_authoritative_roles (resolved body) = roles_in (get "roles" body)
fetch_authoritative_roles (rejected e) = none

abbrev pub id_of : Value → String
id_of role = elim (as_str (get "id" role)) [ none ↦ "" | some id ↦ id ]

abbrev pub ids_of : List Value → List String
ids_of roles = map id_of roles

abbrev pub some_of : Option Value → List Value
some_of none = []
some_of (some v) = v ∷ []

abbrev pub found : List (Option Value) → List Value
found [] = []
found (o ∷ os) = some_of o ++ found os

abbrev pub is_known {ℓ} : {A : Type ℓ} → Option A → Bool
is_known none = false
is_known (some a) = true

abbrev pub written : Option (List Value) → List CacheWrite
written none = []
written (some roles) = all_roles roles ∷ []

-- The update of a cached list by one role.
unfoldable pub publish_role : Value → List Value → List Value
publish_role role roles =
    map (λ listed. if str_eq (id_of listed) (id_of role) then role else listed) roles

module _ (g : Platform) where
  abbrev pub recovery_of : Value → Recovery
  recovery_of e = if is_ambiguous_network_failure g e then uncertain else rejected_save

  -- The new roles, by their details, that are what was asked for.
  unfoldable pub committed_roles :
      List Value → List Value → (String → Settled Value) → Value → List Value
  committed_roles before after detail request =
      keep (λ role. role_matches_create g role request)
        (found (
          map (λ role. fetch_authoritative_role (detail (id_of role)))
            (keep
              (λ role.
                not (contains (ids_of before) (id_of role))
                && role_could_be_created_candidate g role request)
              after)))

  abbrev pub the_only : List Value → Option Value
  the_only (role ∷ []) = some role
  the_only roles = none

  unfoldable pub recovered_create :
      Value
      → Option (List Value)
      → Option (List Value)
      → (String → Settled Value)
      → Value
      → Option Value
  unfolding committed_roles
  recovered_create e before after detail request = elim (is_ambiguous_network_failure g e) [
    | false ↦ none
    | true ↦ elim after [
      | none ↦ none
      | some roles ↦ elim before [
        | none ↦ none
        | some prior ↦ the_only (committed_roles prior roles detail request)
      ]
    ]
  ]

  unfoldable pub create_role :
      Bool
      → Settled Value
      → Settled Value
      → Settled Value
      → (String → Settled Value)
      → Value
      → Saved × List CacheWrite
  unfolding recovered_create
  create_role can_manage before created after detail request = elim can_manage [
    | false ↦ (refused, [])
    | true ↦ elim created [
      | resolved body ↦ (
        saved (normalize_role body),
        written (fetch_authoritative_roles before) ++ one_role (normalize_role body) ∷ [],
      )
      | rejected e ↦
          elim (recovered_create e (fetch_authoritative_roles before)
            (fetch_authoritative_roles after) detail request) [
              | some role ↦ (
                saved role,
                written (fetch_authoritative_roles before)
                    ++ written (fetch_authoritative_roles after)
                    ++ one_role role ∷ [],
              )
              | none ↦ (
                failed_with (record {
                  recovery = recovery_of e;
                  server_error = e;
                  authoritative_role = none;
                  is_refreshed = is_known (fetch_authoritative_roles after);
                }),
                written (fetch_authoritative_roles before)
                    ++ written (fetch_authoritative_roles after),
              )
            ]
    ]
  ]

  unfoldable pub update_role :
      Bool → Settled Value → Settled Value → Value → Saved × List CacheWrite
  update_role can_manage updated after request = elim can_manage [
    | false ↦ (refused, [])
    | true ↦ elim updated [
      | resolved body ↦ (saved (normalize_role body), one_role (normalize_role body) ∷ [])
      | rejected e ↦ elim (fetch_authoritative_role after) [
        | none ↦ (
          failed_with (record {
            recovery = recovery_of e;
            server_error = e;
            authoritative_role = none;
            is_refreshed = false;
          }),
          [],
        )
        | some role ↦
            elim (is_ambiguous_network_failure g e && role_matches_update g role request) [
              | true ↦ (saved role, published role ∷ one_role role ∷ [])
              | false ↦ (
                failed_with (record {
                  recovery = recovery_of e;
                  server_error = e;
                  authoritative_role = some role;
                  is_refreshed = true;
                }),
                published role ∷ [],
              )
            ]
      ]
    ]
  ]
