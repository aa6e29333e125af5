-- ===== src/LoginPage.antt =====
-- frontend/src/pages/LoginPage.jsx: its handler, split at the `await`. What the session does with
-- the answer to the call is `Auth.logged_in`.
mod Sending
mod Tests
use pulsepoll_hcl_guvi.Prelude.{String, false, not, Option, none, some, if◌then◌else◌}
use pulsepoll_hcl_guvi.Text.{truthy, or_else, trim}
use pulsepoll_hcl_guvi.Api
use pulsepoll_hcl_guvi.Api.{Call}
use pulsepoll_hcl_guvi.Auth.{Reply, ok, error, User}
use pulsepoll_hcl_guvi.SignIn.{Form, is_email, fail, send, Shown, render}

-- `location.state?.from?.pathname || '/dashboard'`
unfoldable pub target : Option String → String
target none = "/dashboard"
target (some path) = or_else path "/dashboard"

-- `handleSubmit` of LoginPage.jsx up to its `await`
unfoldable pub handle_submit : Form → Form × Option Call
handle_submit f =
    if not (truthy (trim f.email))
    then fail "Please enter your email address." f
    else if not (is_email (trim f.email))
    then fail "Please enter a valid email address." f
    else if not (truthy f.password)
    then fail "Please enter your password." f
    else send (Api.login (trim f.email) f.password) f

unfoldable pub answered : Option String → Reply User → Form → Form
unfolding target
answered from (ok u) f = record f { is_submitting = false; went_to = some (target from) }
answered from (error e) f = record f {
  form_error = or_else e.message "Invalid email or password. Please try again.";
  is_submitting = false;
}

unfoldable pub render_login : Form → Shown
unfolding render
render_login f = render "Sign In" "Signing in..." f
