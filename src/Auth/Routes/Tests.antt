-- ===== src/Auth/Routes/Tests.antt =====
-- Where addresses lead.
use query_craft.Common.{◌≡◌, refl, [], ◌∷◌, none, some}
use query_craft.Common.Sorting.{sort_by}
use query_craft.Auth.Expiry.{Location}
use query_craft.Auth.Permissions.{
  User, first_permitted_route, landing_routes, protected_routes, has_permission, history, settings,
}
use query_craft.Auth.Permissions.Tests.{user_with}
use query_craft.Auth.Routes.{elsewhere, page, shows, denied_page, route_permission, follow, visit}
use query_craft.Auth.Routes.Laws.{MaySee, IsShown, follow-shows, follow-IsShown}

abbrev here : Location
here = record { pathname = "/settings"; error_code = none }

abbrev reader : User
reader = user_with ("query.history.view" ∷ [])

-- No admin permission: the settings lead to the denial.
settings_denied : follow 2 (some reader) here (page settings) ≡ denied_page
unfolding follow visit route_permission protected_routes has_permission
settings_denied = refl

lands : follow 1 (some reader) here elsewhere ≡ shows history
unfolding follow visit route_permission first_permitted_route landing_routes protected_routes
    has_permission sort_by
lands = refl

follow-shows_example : MaySee (some reader) history
follow-shows_example = follow-shows 1 (some reader) here elsewhere history lands

follow-IsShown_example : IsShown (follow 2 (some reader) here (page settings))
follow-IsShown_example = follow-IsShown (some reader) here (page settings)
