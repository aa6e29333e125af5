-- ===== src/Navbar/Tests.antt =====
-- The theorems on the links at a router that compares whole paths.
use pulsepoll_hcl_guvi.Prelude.{[], ◌≡◌, refl, String, true, false, some, All, Memᴰ}
use pulsepoll_hcl_guvi.Auth.{is_authenticated, logout}
use pulsepoll_hcl_guvi.App.{Route, routes}
use pulsepoll_hcl_guvi.App.Guard.{All-Memᴰ}
use pulsepoll_hcl_guvi.App.Tests.{find_exact, ann_session}
use pulsepoll_hcl_guvi.Navbar.{
  account, chip, nav_links, menu, render, Site, handle_logout, follow, from_menu, toggle, step,
}
use pulsepoll_hcl_guvi.Navbar.Links.{links_of, anchors_of, Opens, links_open}

abbrev same_text : String → String
same_text s = s

finds_exact : (r : Route) → Memᴰ r routes → find_exact routes r.path ≡ some r
unfolding routes
finds_exact r m =
    All-Memᴰ (λ q. find_exact routes q.path ≡ some q) r routes m
      (refl, (refl, (refl, (refl, (refl, (refl, (refl, (refl, tt))))))))

abbrev site : Site
site = record { session = ann_session; pathname = "/dashboard"; menu_open = true }

navbar_functions : Unit {0}
unfolding render account menu nav_links is_authenticated handle_logout logout step
navbar_functions = tt

navbar_test :
    ((render same_text ann_session "/dashboard" true).account
      ≡ chip "ann@example.org" (some "A") "Ann")
    × ((step site (follow "/")).menu_open ≡ true)
    × ((step site (from_menu "/")).menu_open ≡ false)
    × ((step site toggle).menu_open ≡ false)
unfolding navbar_functions
navbar_test = (refl, refl, refl, refl)

links_open_example :
    All (Opens find_exact ann_session) (links_of (render same_text ann_session "/dashboard" true))
    × (anchors_of (render same_text ann_session "/dashboard" true).links ≡ [])
unfolding is_authenticated
links_open_example = links_open find_exact ann_session finds_exact same_text "/dashboard" true refl
