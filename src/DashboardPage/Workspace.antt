-- ===== src/DashboardPage/Workspace.antt =====
-- The dashboard as a machine, and what it renders above the list.
use pulsepoll_hcl_guvi.Prelude.{
  ℕ, ◌-◌, String, Bool, true, false, not, ◌&&◌, ◌||◌, Option, none, some, List, [], ◌∷◌, length,
  ltb, if◌then◌else◌, ◌==◌,
}
use pulsepoll_hcl_guvi.Text.{◌⧺◌, truthy}
use pulsepoll_hcl_guvi.Auth.{User, Reply}
use pulsepoll_hcl_guvi.Results.{Poll}
use pulsepoll_hcl_guvi.DashboardPage.{
  Filter, everything, active, closed, Page, Fetched, fetch, polls_arrived, handle_delete,
  delete_answered, active_count, closed_count, filtered,
}

-- What happens to the page. The creator acts through the controls that are shown, and an answer to
-- `deletePoll` comes only to a deletion that is under way.
pub data Event : Type 0 where
  load refresh : Event
  fetched : Reply Fetched → Event
  press_delete : (confirmed : Bool) (poll_id : String) → Event
  deleted : String → Reply (Unit {0}) → Event
  choose : Filter → Event
  dismiss_error dismiss_success message_timeout : Event

abbrev pub names : String → List String → Bool
names i [] = false
names i (j ∷ js) = (j == i) || names i js

abbrev pub drop_one : String → List String → List String
drop_one i [] = []
drop_one i (j ∷ js) = if j == i then js else j ∷ drop_one i js

abbrev pub lists : String → List Poll → Bool
lists i [] = false
lists i (q ∷ qs) = (q.id == i) || lists i qs

unfoldable pub step : Page → Event → Page
unfolding fetch polls_arrived handle_delete delete_answered filtered
step p load = (fetch p).0
step p refresh = if p.loading then p else (fetch p).0
step p (fetched reply) = polls_arrived reply p
step p (press_delete confirmed i) =
    if not p.loading && lists i (filtered p) then (handle_delete confirmed i p).0 else p
step p (deleted i reply) =
    if names i p.deleting
    then delete_answered i reply (record p { deleting = drop_one i p.deleting })
    else p
step p (choose f) = record p { filter = f }
step p dismiss_error = record p { page_error = "" }
step p dismiss_success = record p { action_success = "" }
step p message_timeout =
    if ltb 0 p.message_timers
    then record p { action_success = ""; message_timers = p.message_timers - 1 }
    else p

unfoldable pub run : Page → List Event → Page
run p [] = p
run p (e ∷ es) = run (step p e) es

pub record Tab : Type 0 where
  pub label : String
  pub badge : ℕ
  pub selected : Bool

-- the header, the two alerts, the tabs, and the button "Refresh"
pub record Bar : Type 0 where
  pub title : String
  pub create_link : String
  pub success : Option String
  pub alert : Option String
  pub tabs : List Tab
  pub refresh_disabled : Bool

abbrev title_of : Option User → String
title_of none = "My Polls"
title_of (some u) = if truthy u.name then u.name ⧺ "'s Polls" else "My Polls"

abbrev when_text : String → Option String
when_text s = if truthy s then some s else none

abbrev is_everything : Filter → Bool
is_everything everything = true
is_everything _ = false

abbrev is_active : Filter → Bool
is_active active = true
is_active _ = false

abbrev is_closed : Filter → Bool
is_closed closed = true
is_closed _ = false

unfoldable pub bar : Option User → Page → Bar
unfolding active_count closed_count
bar user p = record {
  title = title_of user;
  create_link = "/polls/create";
  success = when_text p.action_success;
  alert = when_text p.page_error;
  tabs =
      record { label = "All Polls"; badge = length p.polls; selected = is_everything p.filter }
      ∷ record { label = "Active"; badge = active_count p; selected = is_active p.filter }
      ∷ record { label = "Closed"; badge = closed_count p; selected = is_closed p.filter }
      ∷ [];
  refresh_disabled = p.loading;
}
