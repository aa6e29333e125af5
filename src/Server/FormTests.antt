-- ===== src/Server/FormTests.antt =====
-- A creation form and the server's checks, at one poll, with a server that trims as the form does.

use pulsepoll_hcl_guvi.Prelude.{
  ℕ, ◌≡◌, refl, String, true, false, Option, none, some, [], ◌∷◌, map, if◌then◌else◌, ◌==◌,
}
use pulsepoll_hcl_guvi.Text
use pulsepoll_hcl_guvi.Text.{trim, trim_start, trim_end, is_space, is_blank}
use pulsepoll_hcl_guvi.Api
use pulsepoll_hcl_guvi.CreatePollPage.{
  Form, check_options, check_deadline, question_ok, handle_submit,
}
use pulsepoll_hcl_guvi.Server.Create.{
  accepted, bad_question, validate_create_poll, check_texts, request_of, sent_accepted,
}

abbrev same_text : String → String
same_text s = s

abbrev parse : String → Option ℕ
parse s = if s == "soon" then some 50 else none

abbrev iso : ℕ → String
iso t = "2030-01-01T00:00:00.000Z"

abbrev lunch : Form
lunch = record {
  question = " Where to eat?";
  options = "Thai" ∷ " Pizza" ∷ [];
  expires_at = "soon";
  form_error = "";
  is_submitting = false;
  created = none;
  copied = false;
}

form_functions : Unit {0}
unfolding check_options check_deadline question_ok handle_submit trim trim_start trim_end is_space
    is_blank Text.length validate_create_poll check_texts request_of
form_functions = tt

-- The form takes a question of 128 letters that have two bytes each, and the server does not.
bytes_test :
    (question_ok
        "éééééééééééééééééééééééééééééééééééééééééééééééééééééééééééééééééééééééééééééééééééééééééééééééééééééééééééééééééééééééééééééééé"
      ≡ true)
    × (validate_create_poll trim same_text 10 (
          request_of
            (record lunch {
              question =
                  "éééééééééééééééééééééééééééééééééééééééééééééééééééééééééééééééééééééééééééééééééééééééééééééééééééééééééééééééééééééééééééééééé";
            })
            none)
        ≡ bad_question)
unfolding form_functions
bytes_test = (refl, refl)

sent_accepted_example :
    validate_create_poll trim same_text 20 (request_of lunch (some 50))
    ≡ accepted (trim lunch.question) (map trim lunch.options)
unfolding form_functions
sent_accepted_example =
    sent_accepted same_text trim same_text (λ s h. refl) (λ s h. refl) parse iso 10 20 lunch
      (Api.create_poll "Where to eat?" ("Thai" ∷ "Pizza" ∷ []) (some "2030-01-01T00:00:00.000Z"))
      (some 50) refl refl (refl, (refl, tt)) refl
