-- ===== src/Server/Create.antt =====
-- backend/internal/polls/validation.go: what the server accepts as a new poll, against what the creation
-- form sends. `trim_space` and `to_lower` are `TrimSpace` and `ToLower` of Go; `len` counts bytes.
use Prim.Native.String
use mathlib.Core.List.{append_assoc, append-nil}
use pulsepoll_hcl_guvi.Prelude.{
  ℕ, ◌≡◌, refl, ◌∙◌, String, Bool, true, false, not, ◌||◌, Option, none, some, List, [], ◌∷◌, ◌++◌,
  map, length, length-map, All, ltb, if◌then◌else◌, arith,
}
use pulsepoll_hcl_guvi.Api.{Call}
use pulsepoll_hcl_guvi.Text.{trim}
use pulsepoll_hcl_guvi.Text.Ascii.{is_ascii, len-ascii}
use pulsepoll_hcl_guvi.Text.Trim.{trim_idem, trim-ascii, length_pos}
use pulsepoll_hcl_guvi.CreatePollPage.{Form, has, handle_submit}
use pulsepoll_hcl_guvi.CreatePollPage.Validation.{IsGood, IsGood-iff, unseen_nil}
use pulsepoll_hcl_guvi.CreatePollPage.Sending.{handle_submit_sound}

-- `CreatePollRequest`; the deadline is an instant
pub record Request : Type 0 where
  pub question : String
  pub options : List String
  pub expires_at : Option ℕ

-- The errors of `validateCreatePoll`, or the sanitized question and options.
pub data Validated : Type 0 where
  bad_question bad_count empty_option long_option duplicate_option past_deadline : Validated
  accepted : String → List String → Validated

-- the loop over the options, by the texts that are seen and the ones that are sanitized
pub data Loop : Type 0 where
  stopped : Validated → Loop
  sanitized : List String → Loop

abbrev is_past : ℕ → Option ℕ → Bool
is_past now none = false
is_past now (some t) = not (ltb now t)

abbrev finish : ℕ → Request → String → Loop → Validated
finish now r question (stopped e) = e
finish now r question (sanitized os) =
    if is_past now r.expires_at then past_deadline else accepted question os

module _ (trim_space to_lower : String → String) where
  unfoldable pub check_texts : (seen done : List String) → List String → Loop
  check_texts seen done [] = sanitized done
  check_texts seen done (o ∷ os) =
      let trimmed = trim_space o in
      let rest = check_texts (to_lower trimmed ∷ seen) (done ++ trimmed ∷ []) os in
      if ltb (String.len trimmed) 1
      then stopped empty_option
      else if ltb 150 (String.len trimmed)
      then stopped long_option
      else if has (to_lower trimmed) seen
      then stopped duplicate_option
      else rest

  -- `validateCreatePoll`
  unfoldable pub validate_create_poll : ℕ → Request → Validated
  unfolding check_texts
  validate_create_poll now r =
      let question = trim_space r.question in
      if ltb (String.len question) 3 || ltb 255 (String.len question)
      then bad_question
      else if ltb (length r.options) 2 || ltb 10 (length r.options)
      then bad_count
      else finish now r question (check_texts [] [] r.options)

-- the request of a form with the deadline `e`
unfoldable pub request_of : Form → Option ℕ → Request
request_of f e = record { question = trim f.question; options = map trim f.options; expires_at = e }

module _ (lower trim_space to_lower : String → String)
    (trims : (s : String) → is_ascii s ≡ true → trim_space s ≡ trim s)
    (lowers : (s : String) → is_ascii s ≡ true → to_lower s ≡ lower s) where
  trimmed-eq : (s : String) → is_ascii s ≡ true → trim_space (trim s) ≡ trim s
  trimmed-eq s h = trims (trim s) (trim-ascii s h) ∙ trim_idem s

  texts_accepted :
      (seen done os : List String)
      → All (λ o. is_ascii o ≡ true) os
      → IsGood lower seen os
      → check_texts trim_space to_lower seen done (map trim os) ≡ sanitized (done ++ map trim os)
  unfolding check_texts
  texts_accepted seen done [] a g = rw append-nil refl
  texts_accepted seen done (o ∷ os) (h, a) (named, short, new, good) =
      rw (trimmed-eq o h, lowers (trim o) (trim-ascii o h))
        (ground (
          arith,
          len-ascii (trim o) (trim-ascii o h),
          length_pos (trim o) named,
          append_assoc done (trim o ∷ []) (map trim os),
          texts_accepted (lower (trim o) ∷ seen) (done ++ trim o ∷ []) os a good,
        ))

  -- A creation form of ASCII texts that is sent, with a deadline that has not passed when the request is
  -- handled, is accepted by the server, whose `TrimSpace` and `ToLower` do to ASCII texts what `trim` and
  -- `toLowerCase` do: the poll has the question and the options that the call carries.
  pub sent_accepted :
      (parse : String → Option ℕ) (iso : ℕ → String) (now later : ℕ) (f : Form) (call : Call)
      (e : Option ℕ)
      → (handle_submit lower parse iso now f).1 ≡ some call
      → is_ascii f.question ≡ true
      → All (λ o. is_ascii o ≡ true) f.options
      → is_past later e ≡ false
      → validate_create_poll trim_space to_lower later (request_of f e)
        ≡ accepted (trim f.question) (map trim f.options)
  unfolding validate_create_poll request_of
  sent_accepted parse iso now later f call e sent q os ahead =
      let v = (handle_submit_sound lower parse iso now f call sent).0 in
      let good =
        (IsGood-iff lower [] f.options).1 (v.named, unseen_nil lower f.options, v.distinct) in
      rw (trimmed-eq f.question q) (
        ground (
          arith,
          len-ascii (trim f.question) (trim-ascii f.question q),
          length-map trim f.options,
          v.question,
          v.number,
          texts_accepted [] [] f.options os good,
        ))
