-- ===== src/Navbar/Links.antt =====
-- Where the links of the navigation bar and of the footer lead.
use pulsepoll_hcl_guvi.Prelude.{
  ◌≡◌, refl, ◌∙◌, inl, inr, String, Bool, true, false, Option, none, some, List, [], ◌∷◌, ◌++◌, map,
  All, Memᴰ, Bool-cases, if◌then◌else◌,
}
use pulsepoll_hcl_guvi.Auth.{Session, is_authenticated}
use pulsepoll_hcl_guvi.App.{
  PageName, home, login, register, dashboard, create_poll, open_page, guarded, Route, routes, page,
  redirect, protect, show, app,
}
use pulsepoll_hcl_guvi.Navbar
use pulsepoll_hcl_guvi.Navbar.{
  Link, Item, route, anchor, Account, chip, visitor, Menu, nav_links, account, menu, render,
  footer_links, Site, handle_logout,
}

abbrev of_links : List Link → List String
of_links = map (λ l. l.to)

abbrev of_items : List Item → List String
of_items [] = []
of_items (route l ∷ is) = l.to ∷ of_items is
of_items (anchor a ∷ is) = of_items is

-- the links of the bar that the router does not follow
abbrev pub anchors_of : List Item → List String
anchors_of [] = []
anchors_of (route l ∷ is) = anchors_of is
anchors_of (anchor a ∷ is) = a ∷ anchors_of is

abbrev pub of_account : Account → List String
of_account (chip t i n) = []
of_account (visitor ls) = of_links ls

abbrev of_menu : Option Menu → List String
of_menu none = []
of_menu (some m) = of_links m.links ++ of_links m.account

-- where the links of the router in the bar lead
abbrev pub links_of : Navbar.Shown → List String
links_of b = b.brand.to ∷ of_items b.links ++ (of_account b.account ++ of_menu b.menu)

-- The address leads to a page that is shown at once.
abbrev pub Opens : (List Route → String → Option Route) → Session → String → Type 0
Opens find s to = (name : PageName) × (app find s to ≡ some (page name))

dashboard_in : Memᴰ (record { path = "/dashboard"; element = guarded dashboard }) routes
unfolding routes
dashboard_in = Memᴰ.tail (Memᴰ.tail (Memᴰ.tail (Memᴰ.tail (Memᴰ.head refl))))

create_in : Memᴰ (record { path = "/polls/create"; element = guarded create_poll }) routes
unfolding routes
create_in = Memᴰ.tail (Memᴰ.tail (Memᴰ.tail (Memᴰ.tail (Memᴰ.tail (Memᴰ.head refl)))))

module _ (find : List Route → String → Option Route) (s : Session)
    (finds : (r : Route) → Memᴰ r routes → find routes r.path ≡ some r) where
  -- a path of the table shows what its route says
  at : (r : Route) → Memᴰ r routes → app find s r.path ≡ some (show s r.path r.element)
  unfolding app
  at r m = rw (finds r m) refl

  open-Opens :
      (path : String) (name : PageName)
      → Memᴰ (record { path = path; element = open_page name }) routes
      → Opens find s path
  unfolding show
  open-Opens path name m = (name, at (record { path = path; element = open_page name }) m)

  guarded-Opens :
      (path : String) (name : PageName)
      → s.loading ≡ false
      → is_authenticated s ≡ true
      → Memᴰ (record { path = path; element = guarded name }) routes
      → Opens find s path
  unfolding show protect is_authenticated
  guarded-Opens path name ready known m =
      (name, at (record { path = path; element = guarded name }) m ∙ rw (ready, known) refl)

  home-Opens : Opens find s "/"
  unfolding routes
  home-Opens = open-Opens "/" home (Memᴰ.head refl)

  login-Opens : Opens find s "/login"
  unfolding routes
  login-Opens = open-Opens "/login" login (Memᴰ.tail (Memᴰ.head refl))

  register-Opens : Opens find s "/register"
  unfolding routes
  register-Opens = open-Opens "/register" register (Memᴰ.tail (Memᴰ.tail (Memᴰ.head refl)))

  dashboard-Opens : s.loading ≡ false → is_authenticated s ≡ true → Opens find s "/dashboard"
  dashboard-Opens ready known = guarded-Opens "/dashboard" dashboard ready known dashboard_in

  create-Opens : s.loading ≡ false → is_authenticated s ≡ true → Opens find s "/polls/create"
  create-Opens ready known = guarded-Opens "/polls/create" create_poll ready known create_in

  known_open :
      (upper : String → String) (pathname : String) (menu_open : Bool)
      → s.loading ≡ false
      → is_authenticated s ≡ true
      → All (Opens find s) (links_of (render upper s pathname menu_open))
  unfolding render nav_links account menu
  known_open upper pathname true ready known = rw known (
    home-Opens,
    (
      home-Opens,
      (
        dashboard-Opens ready known,
        (
          create-Opens ready known,
          (home-Opens, (dashboard-Opens ready known, (create-Opens ready known, tt))),
        ),
      ),
    ),
  )
  known_open upper pathname false ready known =
      rw known
        (home-Opens, (home-Opens, (dashboard-Opens ready known, (create-Opens ready known, tt))))

  unknown_open :
      (upper : String → String) (pathname : String) (menu_open : Bool)
      → is_authenticated s ≡ false
      → All (Opens find s) (links_of (render upper s pathname menu_open))
  unfolding render nav_links account menu
  unknown_open upper pathname true unknown = rw unknown (
    home-Opens,
    (
      home-Opens,
      (login-Opens, (register-Opens, (home-Opens, (login-Opens, (register-Opens, tt))))),
    ),
  )
  unknown_open upper pathname false unknown =
      rw unknown (home-Opens, (home-Opens, (login-Opens, (register-Opens, tt))))

  -- If the router matches the path of each route of the table by that route, and the session is
  -- verified: every link of the router that the navigation bar shows, with its dropdown open or not,
  -- leads to a page that is shown at once, with no redirection. The only other link is the anchor
  -- `#how-it-works`, which the bar shows on every page to a visitor who is not signed in.
  pub links_open :
      (upper : String → String) (pathname : String) (menu_open : Bool)
      → s.loading ≡ false
      → All (Opens find s) (links_of (render upper s pathname menu_open))
        × (anchors_of (render upper s pathname menu_open).links
            ≡ (if is_authenticated s then [] else "#how-it-works" ∷ []))
  unfolding render nav_links
  links_open upper pathname menu_open ready = elim (Bool-cases (is_authenticated s)) [
    | inl known ↦ (known_open upper pathname menu_open ready known, rw known refl)
    | inr unknown ↦ (unknown_open upper pathname menu_open unknown, rw unknown refl)
  ]

-- Whoever signs out stands at the home page, with the dropdown closed and nothing stored, sees the links
-- to sign in and no chip, and is sent from the dashboard's address, and from that of a new poll, to the
-- login page once the session is verified.
pub sign_out_shown :
    (find : List Route → String → Option Route) (upper : String → String) (w : Site)
    → ((r : Route) → Memᴰ r routes → find routes r.path ≡ some r)
    → w.session.loading ≡ false
    → let left = handle_logout w in
      let s = left.session in
      (left.menu_open ≡ false)
      × (s.stored ≡ none)
      × (app find s left.pathname ≡ some (page home))
      × ((render upper s left.pathname left.menu_open).account ≡ account upper s)
      × (of_account (account upper s) ≡ "/login" ∷ "/register" ∷ [])
      × (app find s "/dashboard" ≡ some (redirect "/login" (some "/dashboard")))
      × (app find s "/polls/create" ≡ some (redirect "/login" (some "/polls/create")))
unfolding handle_logout render account is_authenticated show protect home-Opens open-Opens
sign_out_shown find upper w finds ready =
    let s = (handle_logout w).session in
    (
      refl,
      refl,
      (home-Opens find s finds).1,
      refl,
      refl,
      at find s finds (record { path = "/dashboard"; element = guarded dashboard }) dashboard_in
          ∙ rw ready refl,
      at find s finds (record { path = "/polls/create"; element = guarded create_poll }) create_in
          ∙ rw ready refl,
    )
