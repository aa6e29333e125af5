-- ===== src/LoginPage/Sending.antt =====
-- Which sign-in forms are sent, and where a sign-in leads.
use pulsepoll_hcl_guvi.Prelude.{◌≡◌, ◌⊎◌, ◌&&◌, String, true, false, Option, none, some, arith}
use Prim.Native.String.{[], ◌∷◌}
use pulsepoll_hcl_guvi.Text.{truthy, trim}
use pulsepoll_hcl_guvi.Text.Laws.{cons_not_empty}
use pulsepoll_hcl_guvi.Api
use pulsepoll_hcl_guvi.Auth.{Session, LoginData, User, ok, logged_in, is_authenticated}
use pulsepoll_hcl_guvi.SignIn.{Form, is_email}
use pulsepoll_hcl_guvi.App.{PageName, page, redirect, protect}
use pulsepoll_hcl_guvi.LoginPage.{handle_submit, answered}

-- An empty text is no email address.
truthy_of_email : (s : String) → is_email s ≡ true → truthy s ≡ true
unfolding is_email
truthy_of_email [] h = h
truthy_of_email (c ∷ s) h = ground (arith, cons_not_empty c s)

-- Either the trimmed address has the form of an email address, the password is not empty, and the
-- form is sent, with the trimmed address and the password as it is; or not, and then nothing is
-- sent and only the error message changes.
pub login_sent :
    (f : Form)
    → let (g, call) = handle_submit f in
      ((is_email (trim f.email) ≡ true)
        × (truthy f.password ≡ true)
        × (call ≡ some (Api.login (trim f.email) f.password))
        × (g.is_submitting ≡ true))
      ⊎ ((is_email (trim f.email) && truthy f.password ≡ false)
          × (call ≡ none)
          × (g ≡ record f { form_error = g.form_error }))
unfolding handle_submit
login_sent f = ground (arith, truthy_of_email (trim f.email))

-- A visitor who is sent to the login page from a guarded page comes back to that page when the
-- login succeeds, and sees it.
pub login_returns :
    (s : Session) (location : String) (name : PageName) (from : Option String) (f : Form)
    (d : LoginData) (u : User)
    → truthy location ≡ true
    → protect s location name ≡ redirect "/login" from
    → (logged_in (ok d) s).1 ≡ ok u
    → ((answered from (ok u) f).went_to ≡ some location)
      × (protect (logged_in (ok d) s).0 location name ≡ page name)
unfolding answered protect logged_in is_authenticated
login_returns s location name from f d u t h l = ground arith
