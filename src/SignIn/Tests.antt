-- ===== src/SignIn/Tests.antt =====
-- The theorem on email addresses at one text.
use pulsepoll_hcl_guvi.Prelude.{◌≡◌, ◌↔◌, refl, true, false}
use pulsepoll_hcl_guvi.Text.{is_space}
use pulsepoll_hcl_guvi.SignIn.{dot_ahead, is_email}
use pulsepoll_hcl_guvi.SignIn.Email.{Match, is_email_iff}

email_test :
    (is_email "ann@example.org" ≡ true)
    × (is_email "ann@example" ≡ false)
    × (is_email "ann @example.org" ≡ false)
    × (is_email "to: a@b.c!" ≡ true)
    × (is_email "a@.c" ≡ false)
unfolding is_email dot_ahead is_space
email_test = (refl, refl, refl, refl, refl)

is_email_iff_example : (is_email "ann@example.org" ≡ true) ↔ Match "ann@example.org"
is_email_iff_example = is_email_iff "ann@example.org"
