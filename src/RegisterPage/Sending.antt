-- ===== src/RegisterPage/Sending.antt =====
-- Which registration forms are sent.
use pulsepoll_hcl_guvi.Prelude.{
  ◌≡◌, ◌≤◌, refl, ◌⊎◌, ◌<◌, ap, String, true, false, none, some, arith, ◌==◌, eq_iff, Bool-cases,
  inl, inr,
}
use pulsepoll_hcl_guvi.Text
use pulsepoll_hcl_guvi.Text.{truthy, trim}
use pulsepoll_hcl_guvi.Api
use pulsepoll_hcl_guvi.SignIn.{Form, is_email}
use pulsepoll_hcl_guvi.RegisterPage.{handle_submit}

-- A text of one code unit or more is not empty.
truthy_of_length : (s : String) → 1 ≤ Text.length s → truthy s ≡ true
unfolding Text.length
truthy_of_length s h = elim (Bool-cases (s == "")) [
  | inl e ↦ let empty : s ≡ "" = (eq_iff s "").0 e in absurd (omega (arith, ap Text.length empty))
  | inr e ↦ rw e refl
]

-- Either the trimmed name has at least 2 code units, the trimmed address is not empty and has the
-- form of an email address, the password has at least 8 code units, and the form is sent, with the
-- trimmed name and address and the password as it is; or not all of this holds, and then nothing
-- is sent and only the error message changes.
pub register_sent :
    (f : Form)
    → let (g, call) = handle_submit f in
      ((2 ≤ Text.length (trim f.name))
        × (truthy (trim f.email) ≡ true)
        × (is_email (trim f.email) ≡ true)
        × (8 ≤ Text.length f.password)
        × (call ≡ some (Api.register (trim f.name) (trim f.email) f.password))
        × (g.is_submitting ≡ true))
      ⊎ (((Text.length (trim f.name) < 2)
            ⊎ (truthy (trim f.email) ≡ false)
            ⊎ (is_email (trim f.email) ≡ false)
            ⊎ (Text.length f.password < 8))
          × (call ≡ none)
          × (g ≡ record f { form_error = g.form_error }))
unfolding handle_submit
register_sent f = ground (arith, truthy_of_length (trim f.name), truthy_of_length f.password)
