-- ===== src/ManagePollPage/View.antt =====
-- What frontend/src/pages/ManagePollPage.jsx renders: which parts are there, their texts, and
-- which controls are enabled. Class names, icons, fixed captions and the formatting of dates are
-- left out.
use pulsepoll_hcl_guvi.Prelude.{
  ℕ, String, Bool, true, false, not, ◌&&◌, Option, none, some, if◌then◌else◌, ◌≡◌, ◌⊎◌, inl, inr,
  Bool-cases, arith,
}
use pulsepoll_hcl_guvi.Text.{◌⧺◌, truthy}
use pulsepoll_hcl_guvi.Results.{Poll, Panel, panel}
use pulsepoll_hcl_guvi.Socket.{Status}
use pulsepoll_hcl_guvi.ManagePollPage.{Page, is_closed}
use pulsepoll_hcl_guvi.ManagePollPage.Console.{has_left, is_console, can_act}

-- A button by its label and whether it is disabled.
pub record Button : Type 0 where
  pub label : String
  pub disabled : Bool

-- The inline form with its text, or the question with its "Edit" button.
pub data Heading : Type 0 where
  editing : String → Heading
  display : Option String → (edit : Bool) → Heading

pub record Shown : Type 0 where
  pub live : Status
  pub badge : String
  pub heading : Heading
  pub heading_disabled : Bool
  pub created_at : Option ℕ
  pub deadline : Option ℕ
  pub success : Option String
  pub alert : Option String
  pub public_url : String
  pub copy_label : String
  pub results : Panel
  pub close : Option Button
  pub delete : Button

pub data Screen : Type 0 where
  spinner : Screen
  restricted : String → Screen
  console : Shown → Screen

abbrev when_text : String → Option String
when_text s = if truthy s then some s else none

abbrev of_poll {ℓ} : {A : Type ℓ} → (Poll → Option A) → Option Poll → Option A
of_poll f none = none
of_poll f (some poll) = f poll

abbrev is_null : Option Poll → Bool
is_null none = true
is_null (some _) = false

heading : Page → Heading
heading p =
    if p.is_editing
    then editing p.edited_question
    else display (of_poll (λ poll. some poll.question) p.poll) (not (is_closed p))

close_button : Page → Option Button
close_button p =
    if not (is_closed p)
    then some (record {
      label = if p.is_processing then "Closing..." else "Close Poll";
      disabled = p.is_processing;
    })
    else none

delete_button : Page → Button
delete_button p = record {
  label = if p.is_processing then "Deleting..." else "Delete Poll";
  disabled = p.is_processing;
}

pub render : (origin : String) → Page → Status → Screen
unfolding heading close_button delete_button
render origin p live =
    if p.loading
    then spinner
    else if truthy p.page_error && is_null p.poll
    then restricted p.page_error
    else console (record {
      live = live;
      badge = if is_closed p then "Closed" else "Active";
      heading = heading p;
      heading_disabled = p.is_processing;
      created_at = of_poll (λ poll. poll.created_at) p.poll;
      deadline = of_poll (λ poll. poll.expires_at) p.poll;
      success = when_text p.action_success;
      alert = when_text p.page_error;
      public_url = origin ⧺ "/polls/" ⧺ p.poll_id;
      copy_label = if p.copied then "✓ Link Copied!" else "Copy Link";
      results = panel p.results none (is_closed p);
      close = close_button p;
      delete = delete_button p;
    })

-- For a closed poll the console shows the badge "Closed", no button to close it, and no button to
-- edit the question: it shows the inline form that is open already, or the question alone.
pub render_closed :
    (origin : String) (p : Page) (live : Status) (s : Shown)
    → is_closed p ≡ true
    → render origin p live ≡ console s
    → (s.badge ≡ "Closed")
      × (s.close ≡ none)
      × ((s.heading ≡ editing p.edited_question)
          ⊎ ((q : Option String) × (s.heading ≡ display q false)))
unfolding render heading
render_closed origin p live s c h = (
  ground arith,
  ground arith,
  elim (Bool-cases p.is_editing) [
    | inl e ↦ inl (ground arith)
    | inr e ↦ inr (of_poll (λ poll. some poll.question) p.poll, ground arith)
  ],
)

-- While an action is under way every button of the console that could start another is disabled.
pub render_processing :
    (origin : String) (p : Page) (live : Status) (s : Shown)
    → p.is_processing ≡ true
    → render origin p live ≡ console s
    → (s.delete.disabled ≡ true)
      × (s.heading_disabled ≡ true)
      × ((s.close ≡ none) ⊎ (s.close ≡ some (record { label = "Closing..."; disabled = true })))
unfolding render close_button delete_button
render_processing origin p live s c h = (ground arith, ground arith, ground arith)

abbrev enabled : Button → Bool
enabled b = not b.disabled

abbrev shows_edit : Heading → Bool
shows_edit (editing q) = false
shows_edit (display q b) = b

abbrev shows_form : Heading → Bool
shows_form (editing q) = true
shows_form (display q b) = false

abbrev is_enabled : Option Button → Bool
is_enabled none = false
is_enabled (some b) = enabled b

-- The screen lets the creator close the poll, delete it, start to edit, and save.
abbrev pub lets_close : Screen → Bool
lets_close (console s) = is_enabled s.close
lets_close _ = false

abbrev pub lets_delete : Screen → Bool
lets_delete (console s) = enabled s.delete
lets_delete _ = false

abbrev pub lets_edit : Screen → Bool
lets_edit (console s) = shows_edit s.heading
lets_edit _ = false

abbrev pub lets_save : Screen → Bool
lets_save (console s) = shows_form s.heading && not s.heading_disabled
lets_save _ = false

-- On a page that has not left, the buttons to close and to delete the poll, to edit its question and to
-- save it are shown and enabled exactly where the machine takes their events.
pub render_actions :
    (origin : String) (p : Page) (live : Status)
    → has_left p.went_to ≡ false
    → let screen = render origin p live in
      (lets_close screen ≡ (can_act p && not (is_closed p)))
      × (lets_delete screen ≡ can_act p)
      × (lets_edit screen ≡ (is_console p && not p.is_editing && not (is_closed p)))
      × (lets_save screen ≡ (can_act p && p.is_editing))
unfolding render heading close_button delete_button can_act is_console
render_actions origin p live h = ground arith
