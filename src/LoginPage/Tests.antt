-- ===== src/LoginPage/Tests.antt =====
-- The theorems on the login page at one visitor.
use pulsepoll_hcl_guvi.Prelude.{◌≡◌, refl, true, false, none, some}
use pulsepoll_hcl_guvi.Text.{trim, trim_start, trim_end, is_space, is_blank}
use pulsepoll_hcl_guvi.Api
use pulsepoll_hcl_guvi.Auth.{User, Session, LoginData, ok, logged_in, is_authenticated}
use pulsepoll_hcl_guvi.SignIn.{Form, blank, is_email, dot_ahead}
use pulsepoll_hcl_guvi.App.{dashboard, page, protect}
use pulsepoll_hcl_guvi.LoginPage.{handle_submit, answered}
use pulsepoll_hcl_guvi.LoginPage.Sending.{login_returns}

abbrev ann : User
ann = record { id = "1"; name = "Ann"; email = "ann@example.org" }

abbrev ann_login : LoginData
ann_login = record { token = some "t2"; user = some ann }

abbrev nobody : Session
nobody = record {
  user = none;
  token = none;
  loading = false;
  stored = none;
  mounted = true;
  checking = none;
}

abbrev filled : Form
filled = record blank { email = " ann@example.org "; password = "secret" }

login_test :
    ((handle_submit filled).1 ≡ some (Api.login "ann@example.org" "secret"))
    × ((handle_submit (record filled { email = "ann@example" })).0.form_error
        ≡ "Please enter a valid email address.")
    × (is_email "@b.c" ≡ false)
    × (is_email "x a@b.cd y" ≡ true)
unfolding handle_submit is_email dot_ahead blank trim trim_start trim_end is_space is_blank
login_test = (refl, refl, refl, refl)

login_returns_example :
    ((answered (some "/dashboard") (ok ann) filled).went_to ≡ some "/dashboard")
    × (protect (logged_in (ok ann_login) nobody).0 "/dashboard" dashboard ≡ page dashboard)
unfolding protect logged_in is_authenticated
login_returns_example =
    login_returns nobody "/dashboard" dashboard (some "/dashboard") filled ann_login ann refl refl
      refl
