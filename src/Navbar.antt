-- ===== src/Navbar.antt =====
-- frontend/src/components/Navbar.jsx, with the links of Footer.jsx and the colours of LogoMark.jsx
-- beside it. The session is that of `useAuth`, and `pathname` that of `useLocation`.
mod Links
mod Tests
use Prim.Native.String.{[], ◌∷◌}
use pulsepoll_hcl_guvi.Prelude.{
  ℕ, String, Bool, true, false, not, Option, none, some, List, ◌++◌, code, ltb, if◌then◌else◌, ◌==◌,
}
use pulsepoll_hcl_guvi.Text.{truthy, or_else}
use pulsepoll_hcl_guvi.Auth.{User, Session, is_authenticated, logout}

pub record Link : Type 0 where
  pub to : String
  pub label : String
  pub active : Bool

-- A link of the router, or the anchor "How It Works" of the home page.
pub data Item : Type 0 where
  route : Link → Item
  anchor : String → Item

-- The user's chip with its "Sign Out" button, or the links to sign in. The chip's `initial` is
-- `none` where `charAt` takes half of a character outside the Basic Multilingual Plane.
pub data Account : Type 0 where
  chip : (title : String) (initial : Option String) (name : String) → Account
  visitor : List Link → Account

-- The dropdown of small screens: its links, and the name in the row of the user.
pub record Menu : Type 0 where
  pub links : List Link
  pub user_row : Option String
  pub account : List Link

pub record Shown : Type 0 where
  pub brand : Link
  pub links : List Item
  pub account : Account
  pub toggle_label : String
  pub expanded : Bool
  pub menu : Option Menu

abbrev link_to : (pathname to label : String) → Link
link_to pathname to label = record { to = to; label = label; active = pathname == to }

-- a link without a mark for the active page
abbrev pub plain : (to label : String) → Link
plain to label = record { to = to; label = label; active = false }

-- `user.name.charAt(0).toUpperCase()`; `upper` is `toUpperCase`
abbrev initial_of : (String → String) → String → Option String
initial_of upper [] = some ""
initial_of upper (c ∷ s) = if ltb (code c) 65536 then some (upper (c ∷ [])) else none

abbrev name_of : Option User → String
name_of none = ""
name_of (some u) = u.name

abbrev email_of : Option User → String
email_of none = ""
email_of (some u) = u.email

unfoldable pub nav_links : Session → String → List Item
nav_links s pathname =
    if is_authenticated s
    then List.◌∷◌ (route (link_to pathname "/" "Home")) (
        List.◌∷◌ (route (link_to pathname "/dashboard" "Dashboard"))
          (List.◌∷◌ (route (link_to pathname "/polls/create" "Create Poll")) List.[]))
    else List.◌∷◌ (route (link_to pathname "/" "Home")) (List.◌∷◌ (anchor "#how-it-works") List.[])

abbrev pub sign_in_links : List Link
sign_in_links =
    List.◌∷◌ (plain "/login" "Sign In") (List.◌∷◌ (plain "/register" "Create a Poll") List.[])

unfoldable pub account : (String → String) → Session → Account
account upper s =
    if is_authenticated s
    then chip (or_else (email_of s.user) "Logged in user")
        (if truthy (name_of s.user) then initial_of upper (name_of s.user) else some "U")
        (or_else (name_of s.user) "Creator")
    else visitor sign_in_links

unfoldable pub menu : Session → String → Menu
menu s pathname =
    if is_authenticated s
    then record {
      links = List.◌∷◌ (link_to pathname "/" "Home") (
          List.◌∷◌ (link_to pathname "/dashboard" "Dashboard")
            (List.◌∷◌ (link_to pathname "/polls/create" "+ Create Poll") List.[]));
      user_row = some (or_else (name_of s.user) (email_of s.user));
      account = List.[];
    }
    else record {
      links = List.◌∷◌ (link_to pathname "/" "Home") List.[];
      user_row = none;
      account = sign_in_links;
    }

-- `Navbar`, by the state of the dropdown
unfoldable pub render : (String → String) → Session → String → (menu_open : Bool) → Shown
unfolding nav_links account menu
render upper s pathname menu_open = record {
  brand = plain "/" "PulsePoll";
  links = nav_links s pathname;
  account = account upper s;
  toggle_label = if menu_open then "Close mobile menu" else "Open mobile menu";
  expanded = menu_open;
  menu = if menu_open then some (menu s pathname) else none;
}

-- The state that the navigation bar changes: the session, the place, and its dropdown.
pub record Site : Type 0 where
  pub session : Session
  pub pathname : String
  pub menu_open : Bool

-- `handleLogout`
unfoldable pub handle_logout : Site → Site
unfolding logout
handle_logout w = record { session = logout w.session; pathname = "/"; menu_open = false }

-- A visitor follows the brand or a link of the dropdown, follows another link, opens or closes the
-- dropdown, or signs out.
pub data Event : Type 0 where
  from_menu follow : String → Event
  toggle sign_out : Event

unfoldable pub step : Site → Event → Site
unfolding handle_logout
step w (from_menu to) = record w { pathname = to; menu_open = false }
step w (follow to) = record w { pathname = to }
step w toggle = record w { menu_open = not w.menu_open }
step w sign_out = handle_logout w

-- the links of `Footer`
unfoldable pub footer_links : List Link
footer_links = List.◌∷◌ (plain "/" "PulsePoll") (
    List.◌∷◌ (plain "/polls/create" "Create a Poll") (
      List.◌∷◌ (plain "/login" "Creator Sign In")
        (List.◌∷◌ (plain "/register" "Get Started Free") List.[])))

-- the colours of `LogoMark`
pub record Palette : Type 0 where
  pub background : String
  pub bars : String
  pub pulse : String

unfoldable pub palette : (variant : String) → Palette
palette variant = record {
  background = if variant == "navy" then "#102A43" else "#FF6B5A";
  bars = if variant == "navy" then "#B8E8D4" else "#FFFFFF";
  pulse = if variant == "navy" then "#FF6B5A" else "#102A43";
}
