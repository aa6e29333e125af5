-- ===== src/PublicPollPage/View.antt =====
-- What frontend/src/pages/PublicPollPage.jsx renders: which parts are there, their texts, and
-- which controls are enabled. Class names, icons, fixed captions and the formatting of dates are
-- left out.
use pulsepoll_hcl_guvi.Prelude.{
  ℕ, String, Bool, true, false, not, ◌&&◌, ◌||◌, Option, none, some, List, [], map, if◌then◌else◌,
  ◌==◌, ◌≡◌, refl, ◌↔◌, arith,
}
use pulsepoll_hcl_guvi.Text.{truthy}
use pulsepoll_hcl_guvi.Results.{Poll, PollOption, Panel, panel, is_user_choice}
use pulsepoll_hcl_guvi.Socket.{Status}
use pulsepoll_hcl_guvi.PublicPollPage.{Page, voting_disabled, can_submit}

-- A button by its label and whether it is disabled.
pub record Button : Type 0 where
  pub label : String
  pub disabled : Bool

-- The radio button of an option.
pub record Choice : Type 0 where
  pub value : String
  pub text : String
  pub checked : Bool
  pub is_user_choice : Bool
  pub disabled : Bool

pub record Shown : Type 0 where
  pub live : Status
  pub badge : String
  pub copy_label : String
  pub question : Option String
  pub created_at : Option ℕ
  pub deadline : Option ℕ
  pub success : Option String
  pub alert : Option String
  pub banner : Option String
  pub heading : String
  pub choices : List Choice
  pub submit : Option Button
  pub confirmed : Bool
  pub results : Panel

pub data Screen : Type 0 where
  spinner : Screen
  failure : String → Screen
  shown : Shown → Screen

-- `{text && …}`
abbrev when_text : String → Option String
when_text s = if truthy s then some s else none

abbrev poll_options : Option Poll → List PollOption
poll_options none = []
poll_options (some poll) = poll.options

abbrev of_poll {ℓ} : {A : Type ℓ} → (Poll → Option A) → Option Poll → Option A
of_poll f none = none
of_poll f (some poll) = f poll

-- `Closed`, `Expired` or `Active`
badge : Page → String
badge p = if p.is_closed then "Closed" else if p.is_expired then "Expired" else "Active"

banner : Page → Option String
banner p =
    if p.is_closed then some "POLL CLOSED" else if p.is_expired then some "POLL ENDED" else none

heading : Page → String
heading p =
    if p.has_voted
    then "Your Selection"
    else if p.is_closed
    then "Voting Closed"
    else if p.is_expired
    then "Poll Expired"
    else "Cast Your Vote"

choice : Page → PollOption → Choice
choice p o = record {
  value = o.id;
  text = o.text;
  checked = p.selected == o.id;
  is_user_choice = is_user_choice p.user_voted (some o.id);
  disabled = voting_disabled p;
}

submit_button : Page → Option Button
submit_button p =
    if not p.has_voted && not p.is_closed && not p.is_expired
    then some (record {
      label = if p.is_voting then "Submitting Vote..." else "Submit Vote";
      disabled = p.is_voting || not (truthy p.selected);
    })
    else none

-- the page once its poll is there
unfoldable pub content : Page → Status → Shown
unfolding badge banner heading choice submit_button
content p live = record {
  live = live;
  badge = badge p;
  copy_label = if p.copied then "Link Copied!" else "Copy Link";
  question = of_poll (λ poll. some poll.question) p.poll;
  created_at = of_poll (λ poll. poll.created_at) p.poll;
  deadline = of_poll (λ poll. poll.expires_at) p.poll;
  success = when_text p.vote_success;
  alert = when_text p.vote_error;
  banner = banner p;
  heading = heading p;
  choices = map (choice p) (poll_options p.poll);
  submit = submit_button p;
  confirmed = p.has_voted;
  results = panel p.results p.user_voted (p.is_closed || p.is_expired);
}

unfoldable pub render : Page → Status → Screen
unfolding content
render p live =
    if p.loading
    then spinner
    else if truthy p.poll_error
    then failure p.poll_error
    else shown (content p live)

submit-content :
    (p : Page) (live : Status)
    → (can_submit p ≡ true)
      ↔ ((b : Button) × ((content p live).submit ≡ some b) × (b.disabled ≡ false))
unfolding content submit_button can_submit
submit-content p live = (
  λ c. (
    record {
      label = if p.is_voting then "Submitting Vote..." else "Submit Vote";
      disabled = p.is_voting || not (truthy p.selected);
    },
    ground arith,
    ground arith,
  ),
  λ b. ground arith,
)

-- A page that is loaded without an error shows an enabled submit button exactly where its state
-- lets the visitor submit, and no such page lets the visitor submit while the choices are disabled.
pub render_submit :
    (p : Page) (live : Status)
    → p.loading ≡ false
    → truthy p.poll_error ≡ false
    → (s : Shown) × (render p live ≡ shown s)
      × ((can_submit p ≡ true) ↔ ((b : Button) × (s.submit ≡ some b) × (b.disabled ≡ false)))
      × (can_submit p && voting_disabled p ≡ false)
unfolding render can_submit voting_disabled
render_submit p live loaded found =
    (content p live, rw loaded (rw found refl), submit-content p live, ground arith)
