-- ===== src/CreatePollPage/Tests.antt =====
-- The theorems on the form at one poll. `lower` is the identity here, and a deadline is "soon".
use pulsepoll_hcl_guvi.Prelude.{
  ℕ, ◌≡◌, refl, inr, ◌==◌, eq_iff, String, true, Option, none, some, List, [], ◌∷◌, map, arith,
  if◌then◌else◌,
}
use pulsepoll_hcl_guvi.Text
use pulsepoll_hcl_guvi.Text.{truthy, trim, trim_start, trim_end, is_space, is_blank}
use pulsepoll_hcl_guvi.Api
use pulsepoll_hcl_guvi.Api.{Call}
use pulsepoll_hcl_guvi.CreatePollPage.{
  Form, blank, add_option, remove_option, change_option, check_options, check_deadline, question_ok,
  handle_submit, Event, type_question, add, remove, change, submit,
}
use pulsepoll_hcl_guvi.CreatePollPage.Validation.{IsValid}
use pulsepoll_hcl_guvi.CreatePollPage.Sending.{Sends, handle_submit_sound, handle_submit_complete}

form_functions : Unit {0}
unfolding blank add_option remove_option change_option check_options check_deadline question_ok
    handle_submit trim trim_start trim_end is_space is_blank Text.length
form_functions = tt

abbrev same_text : String → String
same_text s = s

abbrev parse : String → Option ℕ
parse s = if s == "soon" then some 50 else none

abbrev iso : ℕ → String
iso t = "2030-01-01T00:00:00.000Z"

abbrev lunch : Form
lunch = record blank {
  question = " Where to eat?";
  options = "Thai" ∷ " Pizza" ∷ [];
  expires_at = "soon";
}

abbrev lunch_call : Call
lunch_call =
    Api.create_poll "Where to eat?" ("Thai" ∷ "Pizza" ∷ []) (some "2030-01-01T00:00:00.000Z")

form_test :
    ((handle_submit same_text parse iso 10 lunch).1 ≡ some lunch_call)
    × ((handle_submit same_text parse iso 50 lunch).0.form_error
        ≡ "Expiration deadline must be a valid future date and time.")
    × ((handle_submit same_text parse iso 10
          (record lunch { options = "Thai" ∷ "Thai " ∷ [] })).0.form_error
        ≡ "Duplicate option detected: \"Thai\". Each option must be distinct.")
    × ((remove_option 0 lunch).options ≡ lunch.options)
unfolding form_functions
form_test = (refl, refl, refl, refl)

abbrev editing : List Event
editing =
    type_question "Where?" ∷ add ∷ change 2 "Thai" ∷ remove 0 ∷ remove 0 ∷ remove 0 ∷ submit 3 ∷ []

handle_submit_sound_example :
    IsValid same_text parse 10 lunch
    × ((e : Option String) × Sends parse iso 10 lunch.expires_at e
        × (lunch_call ≡ Api.create_poll (trim lunch.question) (map trim lunch.options) e))
unfolding form_functions
handle_submit_sound_example = handle_submit_sound same_text parse iso 10 lunch lunch_call refl

lunch-IsValid : IsValid same_text parse 10 lunch
unfolding form_functions
lunch-IsValid = record {
  question = (omega arith, omega arith);
  number = (omega arith, omega arith);
  named = ((refl, omega arith), ((refl, omega arith), tt));
  distinct = ((λ e. ground (arith, eq_iff "Thai" "Pizza"), tt), (tt, tt));
  deadline = inr (50, refl, omega arith);
}

handle_submit_complete_example :
    (e : Option String) × Sends parse iso 10 lunch.expires_at e
    × ((handle_submit same_text parse iso 10 lunch).1
        ≡ some (Api.create_poll (trim lunch.question) (map trim lunch.options) e))
    × ((handle_submit same_text parse iso 10 lunch).0.is_submitting ≡ true)
handle_submit_complete_example = handle_submit_complete same_text parse iso 10 lunch lunch-IsValid
