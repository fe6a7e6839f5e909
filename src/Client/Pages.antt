-- ===== src/Client/Pages.antt =====
-- client/src/App.jsx and client/src/components/ProtectedRoute.jsx: who is shown which page; beside
-- it, the roles that the routes of the server admit (api/routes).
pub mod Admission
use campusops.Common.{Bool, true, false, not, Option, none, some, List, [], ◌∷◌, any, if◌then◌else◌}
use campusops.User.{UserRole, student, faculty, maintenance, security, admin}
use campusops.Incident.{is_role}
use campusops.Realtime.{SocketUser}
use campusops.Client.Session.{Session, is_authenticated}

-- What a protected route renders.
pub data View : Type 0 where
  spinner to_login to_unauthorized page : View

-- `roles.includes(user?.role)`
includes : List UserRole → Option SocketUser → Bool
includes roles none = false
includes roles (some u) = any (is_role u.role) roles

admitted : Option (List UserRole) → Option SocketUser → View
unfolding includes
admitted none user = page
admitted (some roles) user = if not (includes roles user) then to_unauthorized else page

-- `ProtectedRoute`
unfoldable pub protected_route : Option (List UserRole) → Session SocketUser → View
unfolding admitted
protected_route roles s =
    if s.is_loading
    then spinner
    else if not (is_authenticated s)
    then to_login
    else admitted roles s.user

pub data Page : Type 0 where
  dashboard_page incident_list_page incident_detail_page chat_page heatmap_page profile_page : Page
  create_incident_page staff_dashboard_page analytics_page alert_page staff_page : Page
  create_department_page : Page

-- The `roles` of the route in `App` that a page stands in.
unfoldable pub page_roles : Page → Option (List UserRole)
page_roles create_incident_page = some (student ∷ faculty ∷ admin ∷ [])
page_roles staff_dashboard_page = some (maintenance ∷ security ∷ [])
page_roles analytics_page = some (admin ∷ [])
page_roles alert_page = some (admin ∷ [])
page_roles staff_page = some (admin ∷ [])
page_roles create_department_page = some (admin ∷ [])
page_roles _ = none

-- The routes of the server behind `authenticate`.
pub data ApiRoute : Type 0 where
  post_incident post_assign post_resolve post_feedback list_incidents : ApiRoute
  post_alert list_alerts retract_alert get_dashboard get_heatmap get_performance : ApiRoute
  post_panic acknowledge_panic list_panics : ApiRoute
  list_users set_staff_state post_department set_strategy list_departments : ApiRoute
  classify_incident : ApiRoute

-- The arguments of `authorize`; `none` where it is not called.
unfoldable pub route_roles : ApiRoute → Option (List UserRole)
route_roles post_incident = some (student ∷ faculty ∷ admin ∷ [])
route_roles post_assign = some (admin ∷ [])
route_roles post_resolve = some (maintenance ∷ security ∷ [])
route_roles post_feedback = some (student ∷ faculty ∷ [])
route_roles post_alert = some (admin ∷ [])
route_roles retract_alert = some (admin ∷ [])
route_roles get_dashboard = some (admin ∷ [])
route_roles get_performance = some (admin ∷ [])
route_roles post_panic = some (student ∷ faculty ∷ [])
route_roles acknowledge_panic = some (security ∷ [])
route_roles list_panics = some (admin ∷ security ∷ [])
route_roles list_users = some (admin ∷ [])
route_roles set_staff_state = some (admin ∷ [])
route_roles post_department = some (admin ∷ [])
route_roles set_strategy = some (admin ∷ [])
route_roles classify_incident = some (student ∷ faculty ∷ admin ∷ [])
route_roles _ = none

-- The requests that the code of a page makes behind `authenticate` (client/src/pages), for the pages
-- that ask for a role. The registration, which the page of the staff calls too, is open to everyone.
unfoldable pub page_requests : Page → List ApiRoute
page_requests create_incident_page = list_departments ∷ classify_incident ∷ post_incident ∷ []
page_requests staff_dashboard_page = list_incidents ∷ []
page_requests analytics_page = get_dashboard ∷ list_users ∷ get_performance ∷ []
page_requests alert_page = list_alerts ∷ post_alert ∷ retract_alert ∷ []
page_requests staff_page = list_users ∷ list_departments ∷ set_staff_state ∷ set_strategy ∷ []
page_requests create_department_page = post_department ∷ []
page_requests _ = []
