-- ===== src/CreatePollPage.antt =====
-- frontend/src/pages/CreatePollPage.jsx: the form of a new poll and its handlers. `lower` is
-- `toLowerCase`; `parse` is `new Date(text)`, with no instant where the date is invalid; `iso` is
-- `toISOString`; `now` is the instant of the submission.
mod Options
pub mod Validation
pub mod Sending
mod View
mod Tests
use pulsepoll_hcl_guvi.Prelude.{
  ℕ, zero, suc, ◌+◌, String, Bool, true, false, not, ◌&&◌, ◌||◌, Option, none, some, List, [], ◌∷◌,
  ◌++◌, ltb, leb, length, if◌then◌else◌, ◌==◌,
}
use pulsepoll_hcl_guvi.Text
use pulsepoll_hcl_guvi.Text.{◌⧺◌, truthy, or_else, trim}
use pulsepoll_hcl_guvi.Json.{decimal}
use pulsepoll_hcl_guvi.Api
use pulsepoll_hcl_guvi.Api.{Call}
use pulsepoll_hcl_guvi.Auth.{Reply, ok, error}
use pulsepoll_hcl_guvi.Results.{Poll}

pub record Form : Type 0 where
  pub question : String
  pub options : List String
  pub expires_at : String
  pub form_error : String
  pub is_submitting : Bool
  pub created : Option Poll
  pub copied : Bool

unfoldable pub blank : Form
blank = record {
  question = "";
  options = "" ∷ "" ∷ [];
  expires_at = "";
  form_error = "";
  is_submitting = false;
  created = none;
  copied = false;
}

-- `handleAddOption`
unfoldable pub add_option : Form → Form
add_option f = if leb 10 (length f.options) then f else record f { options = f.options ++ "" ∷ [] }

-- `filter((_, i) => i !== index)`
abbrev pub remove_at {ℓ} : {A : Type ℓ} → ℕ → List A → List A
remove_at i [] = []
remove_at zero (x ∷ xs) = xs
remove_at (suc i) (x ∷ xs) = x ∷ remove_at i xs

-- `handleRemoveOption`
unfoldable pub remove_option : ℕ → Form → Form
remove_option i f =
    if leb (length f.options) 2 then f else record f { options = remove_at i f.options }

-- a write at the index of a row that is shown
abbrev pub set {ℓ} : {A : Type ℓ} → List A → ℕ → A → List A
set [] i v = []
set (x ∷ xs) zero v = v ∷ xs
set (x ∷ xs) (suc i) v = x ∷ set xs i v

-- `handleOptionChange`
unfoldable pub change_option : ℕ → String → Form → Form
change_option i v f = record f { options = set f.options i v }

abbrev pub has : String → List String → Bool
has s [] = false
has s (t ∷ ts) = t == s || has s ts

-- What the loop over the options ends with: an error text, or `cleanedOptions`.
pub data Checked : Type 0 where
  invalid : String → Checked
  valid : List String → Checked

-- the loop of `handleSubmit`, from option `i` on
unfoldable pub check_options :
    (String → String) → ℕ → (seen cleaned : List String) → List String → Checked
check_options lower i seen cleaned [] = valid cleaned
check_options lower i seen cleaned (o ∷ os) =
    let opt = trim o in
    let rest = check_options lower (i + 1) (lower opt ∷ seen) (cleaned ++ opt ∷ []) os in
    if not (truthy opt)
    then invalid ("Option " ⧺ decimal (i + 1) ⧺ " cannot be empty.")
    else if ltb 150 (Text.length opt)
    then invalid ("Option " ⧺ decimal (i + 1) ⧺ " cannot exceed 150 characters.")
    else if has (lower opt) seen
    then invalid ("Duplicate option detected: \"" ⧺ opt ⧺ "\". Each option must be distinct.")
    else rest

-- The deadline: none given, an error, or the text that is sent.
pub data Deadline : Type 0 where
  open_ended wrong : Deadline
  at : String → Deadline

abbrev future_date : Option ℕ → (ℕ → String) → ℕ → Deadline
future_date none iso now = wrong
future_date (some t) iso now = if leb t now then wrong else at (iso t)

unfoldable pub check_deadline : (String → Option ℕ) → (ℕ → String) → ℕ → String → Deadline
check_deadline parse iso now text =
    if truthy text then future_date (parse text) iso now else open_ended

abbrev fail : String → Form → Form × Option Call
fail message f = (record f { form_error = message }, none)

abbrev publish : List String → Option String → Form → Form × Option Call
publish cleaned expires f = (
  record f { form_error = ""; is_submitting = true },
  some (Api.create_poll (trim f.question) cleaned expires),
)

abbrev with_deadline : Deadline → List String → Form → Form × Option Call
with_deadline open_ended cleaned f = publish cleaned none f
with_deadline wrong cleaned f = fail "Expiration deadline must be a valid future date and time." f
with_deadline (at t) cleaned f = publish cleaned (some t) f

abbrev with_options : Checked → Deadline → Form → Form × Option Call
with_options (invalid message) deadline f = fail message f
with_options (valid cleaned) deadline f = with_deadline deadline cleaned f

-- `trimmedQuestion` has 3 to 255 code units
unfoldable pub question_ok : String → Bool
question_ok q = leb 3 (Text.length (trim q)) && leb (Text.length (trim q)) 255

-- `handleSubmit` up to its `await`
unfoldable pub handle_submit :
    (String → String) → (String → Option ℕ) → (ℕ → String) → ℕ → Form → Form × Option Call
handle_submit lower parse iso now f =
    if not (question_ok f.question)
    then fail "Question must be between 3 and 255 characters." f
    else if ltb (length f.options) 2 || ltb 10 (length f.options)
    then fail "A poll must have between 2 and 10 options." f
    else with_options (check_options lower 0 [] [] f.options)
        (check_deadline parse iso now f.expires_at) f

-- the answer to `createPoll`
unfoldable pub poll_created : Reply Poll → Form → Form
poll_created (ok poll) f = record f { created = some poll; is_submitting = false }
poll_created (error e) f = record f {
  form_error = or_else e.message "Failed to create poll. Please check details and try again.";
  is_submitting = false;
}

abbrev share_url : String → Option Poll → String
share_url origin none = ""
share_url origin (some poll) = origin ⧺ "/polls/" ⧺ poll.id

-- `handleCopyLink`, by whether the clipboard took the text; its timeout is `copied f false`
unfoldable pub copy_link : String → Bool → Form → Form
copy_link origin done f =
    if truthy (share_url origin f.created) then record f { copied = done } else f

-- `handleReset`
unfoldable pub reset : Form → Form
reset f = record f {
  created = none;
  question = "";
  options = "" ∷ "" ∷ [];
  expires_at = "";
  form_error = "";
  copied = false;
}

-- What the creator does with the form, and the answers of the server.
pub data Event : Type 0 where
  type_question type_deadline : String → Event
  add start_over dismiss : Event
  remove : ℕ → Event
  change : ℕ → String → Event
  submit : ℕ → Event
  answered : Reply Poll → Event
  copy : String → Bool → Event

module _ (lower : String → String) (parse : String → Option ℕ) (iso : ℕ → String) where
  pub step : Form → Event → Form
  step f (type_question q) = record f { question = q }
  step f (type_deadline t) = record f { expires_at = t }
  step f add = add_option f
  step f start_over = reset f
  step f dismiss = record f { form_error = "" }
  step f (remove i) = remove_option i f
  step f (change i v) = change_option i v f
  step f (submit now) = (handle_submit lower parse iso now f).0
  step f (answered reply) = poll_created reply f
  step f (copy origin done) = copy_link origin done f

  pub run : Form → List Event → Form
  run f [] = f
  run f (e ∷ es) = run (step f e) es
