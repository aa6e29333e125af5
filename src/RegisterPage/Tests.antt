-- ===== src/RegisterPage/Tests.antt =====
-- The theorem on the registration page at one form.
use pulsepoll_hcl_guvi.Prelude.{◌≡◌, refl, some}
use pulsepoll_hcl_guvi.Text
use pulsepoll_hcl_guvi.Text.{truthy, trim, trim_start, trim_end, is_space, is_blank}
use pulsepoll_hcl_guvi.Api
use pulsepoll_hcl_guvi.SignIn.{Form, blank, is_email, dot_ahead}
use pulsepoll_hcl_guvi.RegisterPage.{handle_submit}

abbrev filled : Form
filled = record blank { name = " Ann"; email = "ann@example.org"; password = "12345678" }

register_test :
    ((handle_submit filled).1 ≡ some (Api.register "Ann" "ann@example.org" "12345678"))
    × ((handle_submit (record filled { password = "1234567" })).0.form_error
        ≡ "Password must be at least 8 characters long.")
unfolding handle_submit is_email dot_ahead blank trim trim_start trim_end is_space is_blank
    Text.length
register_test = (refl, refl)
