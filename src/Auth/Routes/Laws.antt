-- ===== src/Auth/Routes/Laws.antt =====
-- Redirects settle, and a page is shown only to a user with its permission.
use query_craft.Common.{
  ℕ, ◌≡◌, refl, true, false, Option, none, some, arith, All, All-at, Option-cases, Bool-cases, zero,
  suc, inl, inr, Mem, subst,
}
use query_craft.Auth.Permissions.{
  Permission, RoutePath, ProtectedRoute, protected_routes, User, has_permission,
  first_permitted_route, root,
}
use query_craft.Auth.Permissions.Laws.{first_permitted_route_least}
use query_craft.Auth.Expiry.{Location}
use query_craft.Auth.Routes.{
  Place, sign_in, access_denied, elsewhere, page, View, sign_in_form, denied_page, shows,
  to_sign_in, redirects, route_permission, visit, follow, proceed, guarded, permission_guard,
  landing_place,
}

-- Every route of the catalogue is rendered with the permission of its own entry: no path is listed
-- twice with different permissions.
pub route_permission-protected_routes :
    All (λ r. route_permission r.path ≡ some r.permission) protected_routes
unfolding route_permission protected_routes
route_permission-protected_routes =
    (refl, (refl, (refl, (refl, (refl, (refl, (refl, (refl, (refl, tt)))))))))

-- Every path of the type has a route.
pub route_permission_total : (p : RoutePath) → (q : Permission) × (route_permission p ≡ some q)
unfolding route_permission protected_routes
route_permission_total root = (_, refl)
route_permission_total _ = (_, refl)

Permission-set : IsSet (Option Permission)
Permission-set = hlevel

-- The permission of a listed route, looked up by its path.
listed_permission :
    (r : ProtectedRoute) → Mem r protected_routes → route_permission r.path ≡ some r.permission
listed_permission r m =
    All-at (λ s. route_permission s.path ≡ some s.permission) (λ s. Permission-set _ _)
      protected_routes r route_permission-protected_routes m

-- The user has the permission that the page's route is rendered with.
abbrev pub MaySee : Option User → RoutePath → Type 0
MaySee user p = (q : Permission) × (route_permission p ≡ some q) × (has_permission user q ≡ true)

landing-MaySee :
    (user : Option User) (p : RoutePath) → first_permitted_route user ≡ some p → MaySee user p
landing-MaySee user p e =
    let (r, same, listed, (_, granted), _) = first_permitted_route_least user p e in
    (
      r.permission,
      subst (λ x. route_permission x ≡ some r.permission) same (listed_permission r listed),
      granted,
    )

-- A page is rendered at once for a user that may see it, and for no other.
visit-page :
    (u : User) (here : Location) (p : RoutePath) (q : Permission)
    → route_permission p ≡ some q
    → has_permission (some u) q ≡ true
    → visit false (some u) here (page p) ≡ shows p
unfolding visit
visit-page u here p q e h = ground arith

visit-shows :
    (user : Option User) (here : Location) (place : Place) (p : RoutePath)
    → visit false user here place ≡ shows p
    → MaySee user p
unfolding visit
visit-shows none here sign_in p e = cc
visit-shows none here access_denied p e = cc
visit-shows none here elsewhere p e = cc
visit-shows none here (page x) p e = elim (Option-cases (route_permission x)) [
  | inl h ↦ ground arith
  | inr (q, h) ↦ ground arith
]
visit-shows (some u) here sign_in p e = cc
visit-shows (some u) here access_denied p e = cc
visit-shows (some u) here elsewhere p e = cc
visit-shows (some u) here (page x) p e = elim (Option-cases (route_permission x)) [
  | inl h ↦ ground arith
  | inr (q, h) ↦
      let same : x ≡ p = ground arith in
      (q, subst (λ y. route_permission y ≡ some q) same h, ground arith)
]

proceed-shows :
    (next : Location → Place → View) (user : Option User) (here : Location) (view : View)
    (p : RoutePath)
    → ((there : Location) (place : Place) → next there place ≡ shows p → MaySee user p)
    → (view ≡ shows p → MaySee user p)
    → proceed next here view ≡ shows p
    → MaySee user p
unfolding proceed
proceed-shows next user here (redirects place) p f g e = f here place e
proceed-shows next user here (to_sign_in there) p f g e = f there sign_in e
proceed-shows next user here view p f g e = g e

-- A page is shown only to a user with the permission of its route, after any number of redirects.
pub follow-shows :
    (n : ℕ) (user : Option User) (here : Location) (place : Place) (p : RoutePath)
    → follow n user here place ≡ shows p
    → MaySee user p
unfolding follow
follow-shows zero user here place p e = visit-shows user here place p e
follow-shows (suc n) user here place p e =
    proceed-shows (follow n user) user here (visit false user here place) p
      (λ there next k. follow-shows n user there next p k) (visit-shows user here place p) e

abbrev pub IsShown : View → Type 0
IsShown sign_in_form = Unit {0}
IsShown denied_page = Unit {0}
IsShown (shows p) = Unit {0}
IsShown _ = ⊥

-- The landing place of a signed-in user needs no further redirect.
landing-IsShown :
    (u : User) (here : Location)
    → IsShown (follow 1 (some u) here (landing_place (first_permitted_route (some u))))
unfolding follow visit
landing-IsShown u here = elim (Option-cases (first_permitted_route (some u))) [
  | inl h ↦ rw h tt
  | inr (p, h) ↦
      let (q, asks, granted) = landing-MaySee (some u) p h in
      rw h (rw (asks, guarded) (rw (granted, permission_guard) tt))
]

-- Redirects settle: from every place, for every user, two redirects lead to a page, to the denial
-- or to the sign-in form.
pub follow-IsShown :
    (user : Option User) (here : Location) (place : Place) → IsShown (follow 2 user here place)
unfolding follow visit
follow-IsShown none here sign_in = tt
follow-IsShown none here access_denied = tt
follow-IsShown none here elsewhere = tt
follow-IsShown none here (page p) =
    let (q, asks) = route_permission_total p in rw (asks, guarded) tt
follow-IsShown (some u) here sign_in = landing-IsShown u here
follow-IsShown (some u) here access_denied = tt
follow-IsShown (some u) here elsewhere = landing-IsShown u here
follow-IsShown (some u) here (page p) =
    let (q, asks) = route_permission_total p in
    elim (Bool-cases (has_permission (some u) q)) [
      | inl h ↦ rw (asks, guarded) (rw (h, permission_guard) tt)
      | inr h ↦ rw (asks, guarded) (rw (h, permission_guard) tt)
    ]
