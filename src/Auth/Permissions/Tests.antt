-- ===== src/Auth/Permissions/Tests.antt =====
-- Which route users land on.
use query_craft.Common.{◌≡◌, refl, List, [], ◌∷◌, none, some, String}
use query_craft.Common.Sorting.{sort_by}
use query_craft.Auth.Permissions.{
  User, protected_routes, landing_routes, first_permitted_route, has_permission,
}

abbrev pub user_with : List String → User
user_with ps = record {
  id = "u";
  role_id = none;
  role_name = some "analyst";
  permissions = some ps;
}

abbrev auditor : User
auditor = user_with ("admin.roles.manage" ∷ "query.history.view" ∷ [])

lands_nowhere : first_permitted_route (some (user_with [])) ≡ none
unfolding first_permitted_route landing_routes protected_routes has_permission sort_by
lands_nowhere = refl
