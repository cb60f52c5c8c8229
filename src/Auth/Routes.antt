-- ===== src/Auth/Routes.antt =====
-- frontend/src/App.tsx, frontend/src/components/auth/PermissionGuard.tsx and the redirect of
-- frontend/src/pages/SignInPage.tsx: what is shown at each place of the application. The router
-- matches an address to a place; it is not part of this code.
pub mod Laws
mod Tests
use query_craft.Common.{
  ℕ, zero, suc, String, Bool, true, false, List, [], ◌∷◌, Option, none, some, if◌then◌else◌, str_eq,
  find,
}
use query_craft.Auth.Permissions.{
  Permission, RoutePath, path_text, ProtectedRoute, protected_routes, User, has_permission,
  first_permitted_route,
}
use query_craft.Auth.Expiry.{Location, session_aware_sign_in}

-- `elsewhere` is every address that no other route matches.
pub data Place : Type 0 where
  sign_in access_denied elsewhere : Place
  page : RoutePath → Place

-- A redirect to the sign-in page carries the address that `sessionAwareSignInPath` gives.
pub data View : Type 0 where
  loading sign_in_form denied_page : View
  shows : RoutePath → View
  to_sign_in : Location → View
  redirects : Place → View

abbrev found_permission : Option ProtectedRoute → Option Permission
found_permission none = none
found_permission (some r) = some r.permission

-- The permission that the route of a page is rendered with.
unfoldable pub route_permission : RoutePath → Option Permission
route_permission p =
    found_permission (find (λ r. str_eq (path_text r.path) (path_text p)) protected_routes)

abbrev landing_place : Option RoutePath → Place
landing_place none = access_denied
landing_place (some p) = page p

-- `<Navigate to={firstPermittedRoute(user) ?? '/access-denied'} />`.
abbrev to_landing : Option User → View
to_landing user = redirects (landing_place (first_permitted_route user))

permission_guard : Option User → Location → Permission → RoutePath → View
permission_guard none here p path = to_sign_in (session_aware_sign_in here)
permission_guard (some u) here p path =
    if has_permission (some u) p then shows path else redirects access_denied

auth_guard : Option User → Location → View
auth_guard none here = to_sign_in (session_aware_sign_in here)
auth_guard (some u) here = denied_page

root_redirect : Option User → Location → View
root_redirect none here = to_sign_in (session_aware_sign_in here)
root_redirect (some u) here = to_landing (some u)

sign_in_page : Option User → View
sign_in_page none = sign_in_form
sign_in_page (some u) = to_landing (some u)

guarded : Option Permission → Option User → Location → RoutePath → View
guarded none user here path = root_redirect user here
guarded (some p) user here path = permission_guard user here p path

-- While the current user is loading every route shows the spinner.
unfoldable pub visit : Bool → Option User → Location → Place → View
unfolding permission_guard auth_guard root_redirect sign_in_page guarded
visit true user here place = loading
visit false user here sign_in = sign_in_page user
visit false user here access_denied = auth_guard user here
visit false user here elsewhere = root_redirect user here
visit false user here (page p) = guarded (route_permission p) user here p

-- A redirect goes on to its place; anything else is what is shown.
proceed : (Location → Place → View) → Location → View → View
proceed next here (redirects place) = next here place
proceed next here (to_sign_in there) = next there sign_in
proceed next here view = view

-- What is shown when redirects are followed, at most `n` of them.
unfoldable pub follow : ℕ → Option User → Location → Place → View
unfolding proceed
follow zero user here place = visit false user here place
follow (suc n) user here place = proceed (follow n user) here (visit false user here place)
