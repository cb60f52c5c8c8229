-- ===== src/Auth/Permissions/Laws.antt =====
-- Which route a user lands on, and that the catalogue opens every route by one permission.
use query_craft.Common.{
  ◌≤◌, ◌≡◌, ◌↔◌, Bool, true, ◌&&◌, [], Option, none, some, arith, All, subst, sym, keep, keep-All,
  All-imp, All-zip, All-keep, All-Mem, All-of_keep, Option-cases, inl, inr, Mem,
}
use query_craft.Common.Sorting.{
  sort_by, first, first-sort_by, first-sort_by_least, first-sort_by-none,
}
use query_craft.Auth.Permissions.{
  User, RoutePath, ProtectedRoute, protected_routes, has_value, has_permission, landing_routes,
  first_permitted_route, order, path_of,
}

-- `r` is a landing route that the user may see.
abbrev pub MayLand : Option User → ProtectedRoute → Type 0
MayLand user r = (has_value r.landing_order ≡ true) × (has_permission user r.permission ≡ true)

abbrev lands : Option User → ProtectedRoute → Bool
lands user r = has_value r.landing_order && has_permission user r.permission

abbrev Listed : Option User → ProtectedRoute → Type 0
Listed user r = Mem r protected_routes × MayLand user r

landing_routes-Listed : (user : Option User) → All (Listed user) (landing_routes user)
unfolding landing_routes
landing_routes-Listed user =
    All-zip (λ r. Mem r protected_routes) (MayLand user) (keep (lands user) protected_routes)
      (All-keep (λ r. Mem r protected_routes) (lands user) protected_routes
        (All-Mem protected_routes))
      (All-imp (λ r. lands user r ≡ true) (MayLand user) (λ r h. ground arith)
        (keep (lands user) protected_routes) (keep-All (lands user) protected_routes))

first-Listed :
    (user : Option User) (r : ProtectedRoute)
    → first (sort_by order (landing_routes user)) ≡ some r
    → Listed user r
first-Listed user r e =
    first-sort_by order (Listed user) (landing_routes user) r e (landing_routes-Listed user)

pub first_permitted_route_least :
    (user : Option User) (p : RoutePath)
    → first_permitted_route user ≡ some p
    → (r : ProtectedRoute) × (r.path ≡ p)
      × Mem r protected_routes
      × MayLand user r
      × All (λ s. order r ≤ order s) (landing_routes user)
unfolding first_permitted_route
first_permitted_route_least user p e =
    elim (Option-cases (first (sort_by order (landing_routes user)))) [
      | inl h ↦ cc
      | inr (r, h) ↦
          let (m, l) = first-Listed user r h in
          (r, ground arith, m, l, first-sort_by_least order (landing_routes user) r h)
    ]

none-first :
    (user : Option User)
    → All (λ r. ¬ MayLand user r) protected_routes
    → first (sort_by order (landing_routes user)) ≡ none
unfolding landing_routes
none-first user h = elim (Option-cases (first (sort_by order (landing_routes user)))) [
  | inl e ↦ e
  | inr (r, e) ↦
      let f =
        first-sort_by order (λ s. ¬ MayLand user s) (landing_routes user) r e
          (All-keep (λ s. ¬ MayLand user s) (lands user) protected_routes h) in
      absurd (f (first-Listed user r e).1)
]

first-none :
    (user : Option User) → landing_routes user ≡ [] → All (λ r. ¬ MayLand user r) protected_routes
unfolding landing_routes
first-none user e =
    All-of_keep (λ r. ⊥) (λ r. ¬ MayLand user r) (lands user) protected_routes (λ r _ h. absurd h)
      (λ r h k. ground arith) (subst (All (λ r. ⊥)) (sym e) tt)

-- A user lands nowhere exactly if they have the permission of no landing route.
pub first_permitted_route-none_iff :
    (user : Option User)
    → (first_permitted_route user ≡ none) ↔ All (λ r. ¬ MayLand user r) protected_routes
unfolding first_permitted_route
first_permitted_route-none_iff user = (
  λ e. first-none user (first-sort_by-none order (landing_routes user) (path_of_none _ e)),
  λ h. rw (none-first user h),
)
  where
    path_of_none : (o : Option ProtectedRoute) → path_of o ≡ none → o ≡ none
    path_of_none o h = ground arith
