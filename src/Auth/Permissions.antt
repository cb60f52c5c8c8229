-- ===== src/Auth/Permissions.antt =====
-- frontend/src/auth/permissions.ts and frontend/src/hooks/usePermission.ts: the catalogue of
-- permissions and of the routes that they open.
pub mod Laws
pub mod Tests
use query_craft.Common.{
  ℕ, String, Bool, true, false, not, ◌&&◌, List, [], ◌∷◌, ◌++◌, map, Option, none, some, contains,
  keep, any, if◌then◌else◌,
}
use query_craft.Common.Sorting.{sort_by, first}
use query_craft.Common.Value.{Value, obj, field, end, str, permission_required_error}

pub data Permission : Type 0 where
  query_submit query_history_view admin_connections_manage admin_roles_manage : Permission
  admin_sso_manage admin_audit_verify admin_quotas_manage admin_security_manage : Permission

abbrev pub permission_text : Permission → String
permission_text query_submit = "query.submit"
permission_text query_history_view = "query.history.view"
permission_text admin_connections_manage = "admin.connections.manage"
permission_text admin_roles_manage = "admin.roles.manage"
permission_text admin_sso_manage = "admin.sso.manage"
permission_text admin_audit_verify = "admin.audit.verify"
permission_text admin_quotas_manage = "admin.quotas.manage"
permission_text admin_security_manage = "admin.security.manage"

pub data RoutePath : Type 0 where
  root history settings admin_connections admin_roles admin_sso admin_audit admin_quotas : RoutePath
  admin_detection : RoutePath

abbrev pub path_text : RoutePath → String
path_text root = "/"
path_text history = "/history"
path_text settings = "/settings"
path_text admin_connections = "/admin/connections"
path_text admin_roles = "/admin/roles"
path_text admin_sso = "/admin/sso"
path_text admin_audit = "/admin/audit"
path_text admin_quotas = "/admin/quotas"
path_text admin_detection = "/admin/detection"

pub record Navigation : Type 0 where
  pub id : String
  pub label_key : String

pub record RouteDefinition : Type 0 where
  pub path : RoutePath
  pub landing_order : Option ℕ
  pub navigation : Option Navigation

pub record CatalogEntry : Type 0 where
  pub permission : Permission
  pub label_key : String
  pub description_key : String
  pub routes : List RouteDefinition

-- A route, and the permission that its entry asks for.
pub record ProtectedRoute : Type 0 where
  pub route : RouteDefinition
  pub open route use *
  pub permission : Permission

abbrev landing : RoutePath → ℕ → String → String → RouteDefinition
landing path order id label = record {
  path = path;
  landing_order = some order;
  navigation = some (record { id = id; label_key = label });
}

abbrev settings_route : RouteDefinition
settings_route = record {
  path = settings;
  landing_order = none;
  navigation = some (record { id = "settings"; label_key = "nav.settings" });
}

abbrev entry : Permission → String → String → List RouteDefinition → CatalogEntry
entry p label desc routes = record {
  permission = p;
  label_key = label;
  description_key = desc;
  routes = routes;
}

unfoldable pub permission_catalog : List CatalogEntry
permission_catalog =
    entry query_submit "admin.roles.permissions.query.submit"
      "admin.roles.permissions.query.submit.desc" (landing root 0 "new-chat" "sidebar.newChat" ∷ [])
    ∷ entry query_history_view "admin.roles.permissions.query.history.view"
        "admin.roles.permissions.query.history.view.desc"
        (landing history 1 "history" "nav.history" ∷ [])
    ∷ entry admin_connections_manage "admin.roles.permissions.admin.connections.manage"
        "admin.roles.permissions.admin.connections.manage.desc"
        (settings_route ∷ landing admin_connections 2 "connections" "nav.adminConnections" ∷ [])
    ∷ entry admin_roles_manage "admin.roles.permissions.admin.roles.manage"
        "admin.roles.permissions.admin.roles.manage.desc"
        (landing admin_roles 3 "roles" "nav.adminRoles" ∷ [])
    ∷ entry admin_sso_manage "admin.roles.permissions.admin.sso.manage"
        "admin.roles.permissions.admin.sso.manage.desc"
        (landing admin_sso 4 "sso" "nav.adminSso" ∷ [])
    ∷ entry admin_audit_verify "admin.roles.permissions.admin.audit.verify"
        "admin.roles.permissions.admin.audit.verify.desc"
        (landing admin_audit 5 "audit" "nav.adminAudit" ∷ [])
    ∷ entry admin_quotas_manage "admin.roles.permissions.admin.quotas.manage"
        "admin.roles.permissions.admin.quotas.manage.desc"
        (landing admin_quotas 6 "quotas" "nav.adminQuotas" ∷ [])
    ∷ entry admin_security_manage "admin.roles.permissions.admin.security.manage"
        "admin.roles.permissions.admin.security.manage.desc"
        (landing admin_detection 7 "detection" "detection.page_title" ∷ [])
    ∷ []

flatten_catalog : List CatalogEntry → List ProtectedRoute
flatten_catalog [] = []
flatten_catalog (e ∷ es) =
    map (λ r. record { route = r; permission = e.permission }) e.routes ++ flatten_catalog es

unfoldable pub protected_routes : List ProtectedRoute
unfolding flatten_catalog permission_catalog
protected_routes = flatten_catalog permission_catalog

abbrev pub has_value {ℓ} : {A : Type ℓ} → Option A → Bool
has_value none = false
has_value (some a) = true

pub navigation_catalog : List ProtectedRoute
navigation_catalog = keep (λ r. has_value r.navigation) protected_routes

pub record User : Type 0 where
  pub id : String
  pub role_id : Option String
  pub role_name : Option String
  pub permissions : Option (List String)

abbrev includes : Option (List String) → String → Bool
includes none s = false
includes (some xs) s = contains xs s

unfoldable pub has_permission : Option User → Permission → Bool
has_permission none p = false
has_permission (some u) p = includes u.permissions (permission_text p)

unfoldable pub is_known_permission : String → Bool
is_known_permission s = contains (map (λ e. permission_text e.permission) permission_catalog) s

abbrev pub order : ProtectedRoute → ℕ
order r = or_zero r.landing_order
  where
    or_zero : Option ℕ → ℕ
    or_zero none = 0
    or_zero (some n) = n

unfoldable pub landing_routes : Option User → List ProtectedRoute
landing_routes user =
    keep (λ r. has_value r.landing_order && has_permission user r.permission) protected_routes

abbrev path_of : Option ProtectedRoute → Option RoutePath
path_of none = none
path_of (some r) = some r.path

unfoldable pub first_permitted_route : Option User → Option RoutePath
first_permitted_route user = path_of (first (sort_by order (landing_routes user)))

unfoldable pub has_any_permission : Option User → List Permission → Bool
has_any_permission user ps = any (has_permission user) ps

-- `new PermissionRequiredError(permission)`.
pub permission_required : Permission → Value
permission_required p = obj permission_required_error (
    field "name" (str "PermissionRequiredError")
      (field "code" (str "permission_required") (field "permission" (str (permission_text p)) end)))

-- The error that `requirePermission` throws, if it throws.
unfoldable pub require_permission : Bool → Permission → Option Value
require_permission granted p = if granted then none else some (permission_required p)
