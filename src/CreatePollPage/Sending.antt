-- ===== src/CreatePollPage/Sending.antt =====
-- When the form of frontend/src/pages/CreatePollPage.jsx is sent: exactly if it is valid.
use pulsepoll_hcl_guvi.Prelude.{
  ℕ, ◌≤◌, ◌<◌, ◌≡◌, refl, ap, ◌∙◌, ◌⊎◌, inl, inr, String, true, false, Option, none, some, List, [],
  map, length, arith, if◌then◌else◌, Bool-cases,
}
use pulsepoll_hcl_guvi.Text
use pulsepoll_hcl_guvi.Text.{truthy, trim}
use pulsepoll_hcl_guvi.Api
use pulsepoll_hcl_guvi.Api.{Call}
use pulsepoll_hcl_guvi.CreatePollPage.{
  Form, Checked, invalid, valid, check_options, Deadline, open_ended, wrong, at, check_deadline,
  with_options, question_ok, handle_submit,
}
use pulsepoll_hcl_guvi.CreatePollPage.Validation.{
  IsValid, IsGood-iff, unseen_nil, check_sound, check_complete,
}

-- The deadline that is sent with a form.
abbrev pub Sends : (String → Option ℕ) → (ℕ → String) → ℕ → String → Option String → Type 0
Sends parse iso now text e =
    ((truthy text ≡ false) × (e ≡ none))
    ⊎ ((t : ℕ) × (truthy text ≡ true) × (parse text ≡ some t) × (now < t) × (e ≡ some (iso t)))

abbrev sent_deadline : Deadline → Option (Option String)
sent_deadline open_ended = some none
sent_deadline wrong = none
sent_deadline (at t) = some (some t)

deadline-Sends :
    (parse : String → Option ℕ) (iso : ℕ → String) (now : ℕ) (text : String) (e : Option String)
    → sent_deadline (check_deadline parse iso now text) ≡ some e
    → Sends parse iso now text e
unfolding check_deadline
deadline-Sends parse iso now text e h = go (parse text) refl
  where
    go : (o : Option ℕ) → parse text ≡ o → Sends parse iso now text e
    go none p = ground arith
    go (some t) p = elim (Bool-cases (truthy text)) [
      | inl given ↦ inr (t, given, p, ground arith, ground arith)
      | inr absent ↦ inl (absent, ground arith)
    ]

with_options-eq-some :
    (c : Checked) (d : Deadline) (f : Form) (call : Call)
    → (with_options c d f).1 ≡ some call
    → (cs : List String) × (e : Option String) × (c ≡ valid cs)
      × (sent_deadline d ≡ some e)
      × (call ≡ Api.create_poll (trim f.question) cs e)
with_options-eq-some (invalid m) d f call h = cc
with_options-eq-some (valid cs) open_ended f call h = (cs, none, refl, refl, cc)
with_options-eq-some (valid cs) wrong f call h = cc
with_options-eq-some (valid cs) (at t) f call h = (cs, some t, refl, refl, cc)

with_options_complete :
    (cs : List String) (d : Deadline) (e : Option String) (f : Form)
    → sent_deadline d ≡ some e
    → ((with_options (valid cs) d f).1 ≡ some (Api.create_poll (trim f.question) cs e))
      × ((with_options (valid cs) d f).0.is_submitting ≡ true)
with_options_complete cs open_ended e f h = (ground arith, refl)
with_options_complete cs wrong e f h = cc
with_options_complete cs (at t) e f h = (ground arith, refl)

module _ (lower : String → String) (parse : String → Option ℕ) (iso : ℕ → String) (now : ℕ) where
  guards_passed :
      (f : Form) (call : Call)
      → (handle_submit lower parse iso now f).1 ≡ some call
      → (3 ≤ Text.length (trim f.question))
        × (Text.length (trim f.question) ≤ 255)
        × (2 ≤ length f.options)
        × (length f.options ≤ 10)
        × ((with_options
              (check_options lower 0 [] [] f.options)
              (check_deadline parse iso now f.expires_at)
              f).1
            ≡ some call)
  unfolding handle_submit question_ok
  guards_passed f call h = ground arith

  -- A form that is sent is valid, and the call holds the trimmed question, the trimmed options in
  -- their order, and the deadline if one is given.
  pub handle_submit_sound :
      (f : Form) (call : Call)
      → (handle_submit lower parse iso now f).1 ≡ some call
      → IsValid lower parse now f
        × ((e : Option String) × Sends parse iso now f.expires_at e
            × (call ≡ Api.create_poll (trim f.question) (map trim f.options) e))
  handle_submit_sound f call h =
      let (lo, hi, two, ten, rest) = guards_passed f call h in
      let (cs, e, checked, sent, same) =
        with_options-eq-some (check_options lower 0 [] [] f.options)
          (check_deadline parse iso now f.expires_at) f call rest in
      let (good, trimmed) = check_sound lower 0 [] [] f.options cs checked in
      let (named, _, distinct) = (IsGood-iff lower [] f.options).0 good in
      let sends = deadline-Sends parse iso now f.expires_at e sent in
      (
        record {
          question = (lo, hi);
          number = (two, ten);
          named = named;
          distinct = distinct;
          deadline = ground arith;
        },
        (e, sends, same ∙ ap (λ os. Api.create_poll (trim f.question) os e) trimmed),
      )

  deadline_complete :
      (f : Form)
      → IsValid lower parse now f
      → (e : Option String) × (sent_deadline (check_deadline parse iso now f.expires_at) ≡ some e)
  unfolding check_deadline
  deadline_complete f v = go v.deadline
    where
      go :
          (truthy f.expires_at ≡ false) ⊎ ((t : ℕ) × (parse f.expires_at ≡ some t) × (now < t))
          → (e : Option String) × (sent_deadline (check_deadline parse iso now f.expires_at)
              ≡ some e)
      go (inl none_given) = (none, ground arith)
      go (inr (t, parsed, later)) =
          (if truthy f.expires_at then some (iso t) else none, ground arith)

  -- A valid form is sent, with its deadline if it has one, and the form is submitting then.
  pub handle_submit_complete :
      (f : Form)
      → IsValid lower parse now f
      → (e : Option String) × Sends parse iso now f.expires_at e
        × ((handle_submit lower parse iso now f).1
            ≡ some (Api.create_poll (trim f.question) (map trim f.options) e))
        × ((handle_submit lower parse iso now f).0.is_submitting ≡ true)
  unfolding handle_submit question_ok
  handle_submit_complete f v =
      let (e, sent) = deadline_complete f v in
      let good =
        (IsGood-iff lower [] f.options).1 (v.named, unseen_nil lower f.options, v.distinct) in
      let checked = check_complete lower 0 [] [] f.options good in
      let (call, going) =
        with_options_complete (map trim f.options) (check_deadline parse iso now f.expires_at) e f
          sent in
      (e, deadline-Sends parse iso now f.expires_at e sent, ground arith, ground arith)
