-- ===== src/CreatePollPage/Options.antt =====
-- The form always holds 2 to 10 options.
use pulsepoll_hcl_guvi.Prelude.{
  ℕ, zero, suc, ◌+◌, ◌≤◌, ◌≡◌, refl, ap, String, Option, List, [], ◌∷◌, length, length-append,
  arith,
}
use pulsepoll_hcl_guvi.Auth.{ok, error}
use pulsepoll_hcl_guvi.CreatePollPage.{
  Form, blank, add_option, remove_at, remove_option, set, change_option, handle_submit,
  with_options, Checked, Deadline, invalid, valid, open_ended, wrong, at, check_options,
  check_deadline, poll_created, copy_link, reset, Event, add, start_over, remove, change, submit,
  answered, copy, step, run,
}

length-remove_at : (i : ℕ) (xs : List String) → length xs ≤ length (remove_at i xs) + 1
length-remove_at i [] = omega arith
length-remove_at zero (x ∷ xs) = omega arith
length-remove_at (suc i) (x ∷ xs) = omega (arith, length-remove_at i xs)

length-remove_at_le : (i : ℕ) (xs : List String) → length (remove_at i xs) ≤ length xs
length-remove_at_le i [] = omega arith
length-remove_at_le zero (x ∷ xs) = omega arith
length-remove_at_le (suc i) (x ∷ xs) = omega (arith, length-remove_at_le i xs)

length-set : (xs : List String) (i : ℕ) (v : String) → length (set xs i v) ≡ length xs
length-set [] i v = refl
length-set (x ∷ xs) zero v = refl
length-set (x ∷ xs) (suc i) v = ap suc (length-set xs i v)

-- The form has from 2 to 10 options.
abbrev pub HasRoom : Form → Type 0
HasRoom f = (2 ≤ length f.options) × (length f.options ≤ 10)

options-with : (c : Checked) (d : Deadline) (f : Form) → (with_options c d f).0.options ≡ f.options
options-with (invalid m) d f = refl
options-with (valid cs) open_ended f = refl
options-with (valid cs) wrong f = refl
options-with (valid cs) (at t) f = refl

options-handle_submit :
    (lower : String → String) (parse : String → Option ℕ) (iso : ℕ → String) (now : ℕ) (f : Form)
    → (handle_submit lower parse iso now f).0.options ≡ f.options
unfolding handle_submit
options-handle_submit lower parse iso now f =
    let c = check_options lower 0 [] [] f.options in
    let d = check_deadline parse iso now f.expires_at in ground (arith, options-with c d f)

module _ (lower : String → String) (parse : String → Option ℕ) (iso : ℕ → String) where
  step-HasRoom : (f : Form) (e : Event) → HasRoom f → HasRoom (step lower parse iso f e)
  unfolding step add_option remove_option change_option poll_created copy_link reset
  step-HasRoom f (remove i) h =
      ground (arith, length-remove_at i f.options, length-remove_at_le i f.options)
  step-HasRoom f add h = ground (arith, length-append f.options ("" ∷ []))
  step-HasRoom f (change i v) h = rw (length-set f.options i v) h
  step-HasRoom f (submit now) h = rw (options-handle_submit lower parse iso now f) h
  step-HasRoom f (answered (ok poll)) h = h
  step-HasRoom f (answered (error e)) h = h
  step-HasRoom f (copy origin done) h = ground arith
  step-HasRoom f start_over h = omega arith
  step-HasRoom f e h = h

  run-HasRoom_from : (f : Form) (es : List Event) → HasRoom f → HasRoom (run lower parse iso f es)
  unfolding run
  run-HasRoom_from f [] h = h
  run-HasRoom_from f (e ∷ es) h =
      run-HasRoom_from (step lower parse iso f e) es (step-HasRoom f e h)

-- However the creator edits, submits and starts over, the form has 2 to 10 options.
pub run-HasRoom :
    (lower : String → String) (parse : String → Option ℕ) (iso : ℕ → String) (es : List Event)
    → HasRoom (run lower parse iso blank es)
unfolding blank
run-HasRoom lower parse iso es = run-HasRoom_from lower parse iso blank es (omega arith)
