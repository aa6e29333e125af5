-- ===== src/RegisterPage.antt =====
-- frontend/src/pages/RegisterPage.jsx: its handler, split at the `await`. What the session does
-- with the answers is `Auth.registered` and `Auth.logged_in`.
mod Sending
mod Tests
use pulsepoll_hcl_guvi.Prelude.{String, false, not, ◌||◌, Option, none, some, ltb, if◌then◌else◌}
use pulsepoll_hcl_guvi.Text
use pulsepoll_hcl_guvi.Text.{truthy, or_else, trim}
use pulsepoll_hcl_guvi.Api
use pulsepoll_hcl_guvi.Api.{Call}
use pulsepoll_hcl_guvi.Auth.{Reply, ok, error, User}
use pulsepoll_hcl_guvi.SignIn.{Form, is_email, fail, send, Shown, render}

-- `handleSubmit` of RegisterPage.jsx up to its `await`
unfoldable pub handle_submit : Form → Form × Option Call
handle_submit f =
    if not (truthy (trim f.name)) || ltb (Text.length (trim f.name)) 2
    then fail "Name must be at least 2 characters." f
    else if not (truthy (trim f.email))
    then fail "Please enter your email address." f
    else if not (is_email (trim f.email))
    then fail "Please enter a valid email address." f
    else if not (truthy f.password) || ltb (Text.length f.password) 8
    then fail "Password must be at least 8 characters long." f
    else send (Api.register (trim f.name) (trim f.email) f.password) f

unfoldable pub answered : Reply User → Form → Form
answered (ok u) f = record f { is_submitting = false; went_to = some "/dashboard" }
answered (error e) f = record f {
  form_error = or_else e.message "Registration failed. Please try again.";
  is_submitting = false;
}

unfoldable pub render_register : Form → Shown
unfolding render
render_register f = render "Create Account" "Creating account..." f
