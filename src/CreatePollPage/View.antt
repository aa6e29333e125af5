-- ===== src/CreatePollPage/View.antt =====
-- What frontend/src/pages/CreatePollPage.jsx renders: which parts are there, their texts, and which
-- controls are enabled. Class names, icons and fixed captions are left out.
use pulsepoll_hcl_guvi.Prelude.{
  ℕ, zero, suc, ◌+◌, ◌≤◌, ◌<◌, ◌≡◌, refl, ap, ◌↔◌, String, Bool, true, Option, none, some, List, [],
  ◌∷◌, map, length, length-append, All, ltb, if◌then◌else◌, arith,
}
use pulsepoll_hcl_guvi.Text
use pulsepoll_hcl_guvi.Text.{◌⧺◌, truthy}
use pulsepoll_hcl_guvi.Json.{decimal}
use pulsepoll_hcl_guvi.Results.{Poll, PollOption}
use pulsepoll_hcl_guvi.CreatePollPage.{Form, add_option, remove_at, remove_option, share_url}

-- The row of an option; `can_remove` says whether it has a button to remove it.
pub record OptionRow : Type 0 where
  pub index : ℕ
  pub index_label : String
  pub value : String
  pub placeholder : String
  pub can_remove : Bool

-- The form; `disabled` holds for each of its inputs and buttons.
pub record Editing : Type 0 where
  pub alert : Option String
  pub question : String
  pub char_count : String
  pub count_label : String
  pub rows : List OptionRow
  pub can_add : Bool
  pub expires_at : String
  pub disabled : Bool
  pub submit_label : String

-- The page of a poll that has been created; a chip is an index and a text.
pub record Created : Type 0 where
  pub question : String
  pub chips : List (String × String)
  pub share_url : String
  pub copy_label : String
  pub open_path : String
  pub manage_path : String

pub data Screen : Type 0 where
  form : Editing → Screen
  success : Created → Screen

-- `String(n).padStart(2, '0')`
abbrev pad_start : ℕ → String
pad_start n = if ltb n 10 then "0" ⧺ decimal n else decimal n

option_row : ℕ → ℕ → String → OptionRow
option_row total i value = record {
  index = i;
  index_label = pad_start (i + 1);
  value = value;
  placeholder = "Option " ⧺ decimal (i + 1);
  can_remove = ltb 2 total;
}

option_rows : ℕ → ℕ → List String → List OptionRow
unfolding option_row
option_rows total i [] = []
option_rows total i (o ∷ os) = option_row total i o ∷ option_rows total (i + 1) os

chips : ℕ → List PollOption → List (String × String)
chips i [] = []
chips i (o ∷ os) = (pad_start (i + 1), o.text) ∷ chips (i + 1) os

editing : Form → Editing
unfolding option_rows
editing f = record {
  alert = if truthy f.form_error then some f.form_error else none;
  question = f.question;
  char_count = decimal (Text.length f.question) ⧺ " / 255";
  count_label = decimal (length f.options) ⧺ " of 10 Options";
  rows = option_rows (length f.options) 0 f.options;
  can_add = ltb (length f.options) 10;
  expires_at = f.expires_at;
  disabled = f.is_submitting;
  submit_label = if f.is_submitting then "Publishing Poll..." else "Publish Poll";
}

created : String → Form → Poll → Created
unfolding chips
created origin f poll = record {
  question = poll.question;
  chips = chips 0 poll.options;
  share_url = share_url origin (some poll);
  copy_label = if f.copied then "✓ Copied!" else "Copy Link";
  open_path = "/polls/" ⧺ poll.id;
  manage_path = "/polls/" ⧺ poll.id ⧺ "/manage";
}

abbrev screen : String → Form → Option Poll → Screen
screen origin f none = form (editing f)
screen origin f (some poll) = success (created origin f poll)

unfoldable pub render : (origin : String) → Form → Screen
unfolding editing created
render origin f = screen origin f f.created

length-remove_at_lt :
    (i : ℕ) (xs : List String) → i < length xs → length (remove_at i xs) + 1 ≡ length xs
length-remove_at_lt i [] h = omega arith
length-remove_at_lt zero (x ∷ xs) h = omega arith
length-remove_at_lt (suc i) (x ∷ xs) h = omega (arith, length-remove_at_lt i xs (omega arith))

-- A row has a button to remove it exactly if `handleRemoveOption` takes an option away for it.
abbrev pub IsFaithful : Form → OptionRow → Type 0
IsFaithful f r =
    (r.can_remove ≡ true) ↔ (length (remove_option r.index f).options + 1 ≡ length f.options)

option_row-IsFaithful :
    (f : Form) (i : ℕ) (o : String)
    → i < length f.options
    → IsFaithful f (option_row (length f.options) i o)
unfolding option_row remove_option
option_row-IsFaithful f i o h = ground (arith, length-remove_at_lt i f.options h)

All-IsFaithful-option_rows :
    (f : Form) (i : ℕ) (os : List String)
    → i + length os ≤ length f.options
    → All (IsFaithful f) (option_rows (length f.options) i os)
unfolding option_rows
All-IsFaithful-option_rows f i [] h = tt
All-IsFaithful-option_rows f i (o ∷ os) h = (
  option_row-IsFaithful f i o (omega arith),
  All-IsFaithful-option_rows f (i + 1) os (omega arith),
)

values-option_rows :
    (total i : ℕ) (os : List String) → map (λ r. r.value) (option_rows total i os) ≡ os
unfolding option_rows option_row
values-option_rows total i [] = refl
values-option_rows total i (o ∷ os) = ap (o ∷◌) (values-option_rows total (i + 1) os)

-- Before a poll is created the page shows the form with the options in their order; it has a button
-- to add an option exactly if `handleAddOption` adds one, and a row has a button to remove it exactly
-- if `handleRemoveOption` takes an option away for it.
pub render_controls :
    (origin : String) (f : Form)
    → f.created ≡ none
    → (s : Editing) × (render origin f ≡ form s)
      × (map (λ r. r.value) s.rows ≡ f.options)
      × ((s.can_add ≡ true) ↔ (length (add_option f).options ≡ length f.options + 1))
      × All (IsFaithful f) s.rows
unfolding render editing add_option
render_controls origin f h = (
  editing f,
  ap (screen origin f) h,
  values-option_rows (length f.options) 0 f.options,
  ground (arith, length-append f.options ("" ∷ [])),
  All-IsFaithful-option_rows f 0 f.options (omega arith),
)
