-- ===== src/SignIn.antt =====
-- What frontend/src/pages/LoginPage.jsx and RegisterPage.jsx share: the test of an email address,
-- the state of the form, and what is rendered of it. `went_to` is where the page has navigated to.
mod Email
mod Tests
use Prim.Native.String.{[], ◌∷◌}
use pulsepoll_hcl_guvi.Prelude.{
  code, String, Bool, true, false, not, ◌&&◌, ◌||◌, Option, none, some, nat_eq, if◌then◌else◌,
}
use pulsepoll_hcl_guvi.Text.{is_space, truthy}
use pulsepoll_hcl_guvi.Api.{Call}

-- `\S` at the head of a text
abbrev pub starts_solid : String → Bool
starts_solid [] = false
starts_solid (c ∷ s) = not (is_space (code c))

-- `\S*\.\S` at the head
unfoldable pub dot_ahead : String → Bool
dot_ahead [] = false
dot_ahead (c ∷ s) =
    (nat_eq (code c) b'.' && starts_solid s) || (not (is_space (code c)) && dot_ahead s)

-- `\S+\.\S` at the head
abbrev pub domain_ahead : String → Bool
domain_ahead [] = false
domain_ahead (c ∷ s) = not (is_space (code c)) && dot_ahead s

-- `@\S+\.\S` at the head
abbrev pub at_ahead : String → Bool
at_ahead [] = false
at_ahead (c ∷ s) = nat_eq (code c) b'@' && domain_ahead s

-- `/\S+@\S+\.\S+/.test(s)`
unfoldable pub is_email : String → Bool
unfolding dot_ahead
is_email [] = false
is_email (c ∷ s) = (not (is_space (code c)) && at_ahead s) || is_email s

pub record Form : Type 0 where
  pub name : String
  pub email : String
  pub password : String
  pub show_password : Bool
  pub form_error : String
  pub is_submitting : Bool
  pub went_to : Option String

-- the first render of either page; `LoginPage` has no name
unfoldable pub blank : Form
blank = record {
  name = "";
  email = "";
  password = "";
  show_password = false;
  form_error = "";
  is_submitting = false;
  went_to = none;
}

abbrev pub fail : String → Form → Form × Option Call
fail message f = (record f { form_error = message }, none)

abbrev pub send : Call → Form → Form × Option Call
send call f = (record f { form_error = ""; is_submitting = true }, some call)

-- What either page renders of its state. Class names, icons and fixed texts are left out.
pub record Shown : Type 0 where
  pub alert : Option String
  pub password_type : String
  pub toggle_label : String
  pub button_label : String
  pub disabled : Bool

unfoldable pub render : (idle busy : String) → Form → Shown
render idle busy f = record {
  alert = if truthy f.form_error then some f.form_error else none;
  password_type = if f.show_password then "text" else "password";
  toggle_label = if f.show_password then "Hide visibility" else "Show visibility";
  button_label = if f.is_submitting then busy else idle;
  disabled = f.is_submitting;
}
