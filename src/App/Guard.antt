-- ===== src/App/Guard.antt =====
-- The creator's pages are shown to authenticated visitors only.
use pulsepoll_hcl_guvi.Prelude.{
  ◌≡◌, refl, String, true, false, Option, none, some, List, [], ◌∷◌, arith, Memᴰ, All, subst,
}
use pulsepoll_hcl_guvi.Auth.{Session, is_authenticated}
use pulsepoll_hcl_guvi.App.{
  PageName, home, login, register, public_poll, dashboard, create_poll, manage_poll, Element,
  open_page, guarded, go_home, show_found, Route, routes, page, show, app,
}

abbrev pub IsCreatorPage : PageName → Type 0
IsCreatorPage dashboard = Unit
IsCreatorPage create_poll = Unit
IsCreatorPage manage_poll = Unit
IsCreatorPage _ = ⊥

abbrev KeepsGuard : Route → Type 0
KeepsGuard r = (name : PageName) → r.element ≡ open_page name → ¬ IsCreatorPage name

open_guard :
    (known : PageName)
    → ¬ IsCreatorPage known
    → (path : String) → KeepsGuard (record { path = path; element = open_page known })
open_guard known free path name same c =
    let back : name ≡ known = cc in free (subst IsCreatorPage back c)

routes_guarded : All KeepsGuard routes
unfolding routes
routes_guarded =
    let creator : All KeepsGuard (
        (record { path = "/dashboard"; element = guarded dashboard })
        ∷ (record { path = "/polls/create"; element = guarded create_poll })
        ∷ (record { path = "/polls/:id/manage"; element = guarded manage_poll })
        ∷ (record { path = "*"; element = go_home })
        ∷ []) =
      (λ name e. cc, (λ name e. cc, (λ name e. cc, (λ name e. cc, tt)))) in
    (
      open_guard home (λ c. c) "/",
      (
        open_guard login (λ c. c) "/login",
        (
          open_guard register (λ c. c) "/register",
          (open_guard public_poll (λ c. c) "/polls/:id", creator),
        ),
      ),
    )

pub All-Memᴰ {ℓ κ} :
    {A : Type ℓ} (P : A → Type κ) (x : A) (xs : List A) → Memᴰ x xs → All P xs → P x
All-Memᴰ P x [] m h = elim m [ ]
All-Memᴰ P x (y ∷ ys) (Memᴰ.head same) h = rw same h.0
All-Memᴰ P x (y ∷ ys) (Memᴰ.tail m) h = All-Memᴰ P x ys m h.1

shown_guarded :
    (s : Session) (location : String) (name : PageName) (e : Element)
    → ((known : PageName) → e ≡ open_page known → ¬ IsCreatorPage known)
    → IsCreatorPage name
    → show s location e ≡ page name
    → (is_authenticated s ≡ true) × (s.loading ≡ false)
unfolding show
shown_guarded s location name (open_page known) free c h =
    let back : name ≡ known = cc in absurd (free known refl (subst IsCreatorPage back c))
shown_guarded s location name (guarded known) free c h = ground arith
shown_guarded s location name go_home free c h = cc

-- If the router picks a route of the table, a creator's page is shown only once the session is
-- verified and authenticated.
pub creator_pages_guarded :
    (find : List Route → String → Option Route) (s : Session) (location : String) (name : PageName)
    → ((rs : List Route) (l : String) (r : Route) → find rs l ≡ some r → Memᴰ r rs)
    → IsCreatorPage name
    → app find s location ≡ some (page name)
    → (is_authenticated s ≡ true) × (s.loading ≡ false)
unfolding app
creator_pages_guarded find s location name sound c h = go (find routes location) refl h
  where
    go :
        (o : Option Route)
        → find routes location ≡ o
        → show_found s location o ≡ some (page name)
        → (is_authenticated s ≡ true) × (s.loading ≡ false)
    go none e k = cc
    go (some r) e k =
        shown_guarded s location name r.element
          (All-Memᴰ KeepsGuard r routes (sound routes location r e) routes_guarded) c (cc)
