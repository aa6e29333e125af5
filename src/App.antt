-- ===== src/App.antt =====
-- frontend/src/App.jsx and components/ProtectedRoute.jsx: the route table and the guard of the
-- creator's pages. How react-router matches a path is the parameter `find`.
pub mod Guard
pub mod Tests
use pulsepoll_hcl_guvi.Prelude.{
  String, Bool, true, false, not, Option, none, some, List, [], ◌∷◌, if◌then◌else◌,
}
use pulsepoll_hcl_guvi.Auth.{Session, is_authenticated}

pub data PageName : Type 0 where
  home login register public_poll dashboard create_poll manage_poll : PageName

-- The element of a route: a page, a page behind `ProtectedRoute`, or the redirection home.
pub data Element : Type 0 where
  open_page guarded : PageName → Element
  go_home : Element

pub record Route : Type 0 where
  pub path : String
  pub element : Element

unfoldable pub routes : List Route
routes =
    record { path = "/"; element = open_page home }
    ∷ record { path = "/login"; element = open_page login }
    ∷ record { path = "/register"; element = open_page register }
    ∷ record { path = "/polls/:id"; element = open_page public_poll }
    ∷ record { path = "/dashboard"; element = guarded dashboard }
    ∷ record { path = "/polls/create"; element = guarded create_poll }
    ∷ record { path = "/polls/:id/manage"; element = guarded manage_poll }
    ∷ record { path = "*"; element = go_home }
    ∷ []

-- What is shown for a location: a page, the spinner of `ProtectedRoute`, or a redirection with
-- the location that it leaves in its state.
pub data Shown : Type 0 where
  page : PageName → Shown
  verifying : Shown
  redirect : String → (from : Option String) → Shown

-- `ProtectedRoute`
unfoldable pub protect : Session → String → PageName → Shown
protect s location name =
    if s.loading
    then verifying
    else if not (is_authenticated s)
    then redirect "/login" (some location)
    else page name

unfoldable pub show : Session → String → Element → Shown
unfolding protect
show s location (open_page name) = page name
show s location (guarded name) = protect s location name
show s location go_home = redirect "/" none

abbrev show_found : Session → String → Option Route → Option Shown
show_found s location none = none
show_found s location (some r) = some (show s location r.element)

-- `App` at a location
unfoldable pub app : (List Route → String → Option Route) → Session → String → Option Shown
unfolding routes show
app find s location = show_found s location (find routes location)
