-- ===== src/ManagePollPage.antt =====
-- frontend/src/pages/ManagePollPage.jsx: the state of the creator's page and its handlers. An
-- asynchronous handler is split at each `await`. The first argument of a handler that asks for a
-- confirmation is the creator's answer; `went_to` is where the page has navigated to, `acting` the
-- calls of the creator's actions that are under way, and the timers are those that will clear the
-- success message and the note beside the copied link.
mod Actions
mod Console
mod OneAction
mod Live
mod View
mod Tests
use pulsepoll_hcl_guvi.Prelude.{
  ℕ, ◌+◌, ◌-◌, String, Bool, true, false, not, ◌&&◌, ◌||◌, Option, none, some, List, [], ◌∷◌, ltb,
  nat_eq, if◌then◌else◌, ◌==◌,
}
use pulsepoll_hcl_guvi.Text
use pulsepoll_hcl_guvi.Text.{truthy, or_else, trim}
use pulsepoll_hcl_guvi.Api
use pulsepoll_hcl_guvi.Api.{Call}
use pulsepoll_hcl_guvi.Auth.{Reply, ok, error, Failure}
use pulsepoll_hcl_guvi.Results.{
  Poll, Results, no_results, empty_results, apply_snapshot, apply_vote, is_foreign,
}
use pulsepoll_hcl_guvi.Socket.{Delivery, on_snapshot, on_vote_update, on_poll_closed}
use pulsepoll_hcl_guvi.PublicPollPage.{Counted, counted_results}

-- the actions of the creator that call the server; saving, by the question that is sent
pub data Action : Type 0 where
  closing deleting : Action
  saving : String → Action

pub record Page : Type 0 where
  pub poll_id : String
  pub poll : Option Poll
  pub results : Results
  pub loading : Bool
  pub page_error : String
  pub action_success : String
  pub is_processing : Bool
  pub copied : Bool
  pub is_editing : Bool
  pub edited_question : String
  pub went_to : Option String
  pub acting : List Action
  pub message_timers : ℕ
  pub copied_timers : ℕ

unfoldable pub start : String → Page
start poll_id = record {
  poll_id = poll_id;
  poll = none;
  results = no_results;
  loading = true;
  page_error = "";
  action_success = "";
  is_processing = false;
  copied = false;
  is_editing = false;
  edited_question = "";
  went_to = none;
  acting = [];
  message_timers = 0;
  copied_timers = 0;
}

-- `fetchPollDetails` up to its first `await`
unfoldable pub fetch : Page → Page × Option Call
fetch p =
    if truthy p.poll_id
    then (record p { loading = true; page_error = "" }, some (Api.get_public_poll p.poll_id))
    else (p, none)

-- `err.status === 403 || err.code === 'FORBIDDEN'`
abbrev pub is_forbidden : Failure → Bool
is_forbidden e = nat_eq e.status 403 || (e.code == "FORBIDDEN")

-- the answer to `getPublicPoll`; if it is a poll, the results are asked for
unfoldable pub poll_arrived : Reply Poll → Page → Page × Option Call
poll_arrived (ok poll) p = (
  record p { poll = some poll; edited_question = poll.question },
  some (Api.get_results p.poll_id),
)
poll_arrived (error e) p = (
  record p {
    loading = false;
    page_error =
        if is_forbidden e
        then "You do not have permission to manage this poll."
        else if nat_eq e.status 404
        then "Poll not found or has been deleted."
        else or_else e.message "Failed to load poll details.";
  },
  none,
)

-- the answer to `getResults` for `poll`
unfoldable pub results_arrived : Poll → Reply Counted → Page → Page
results_arrived poll (ok c) p = record p { results = counted_results c p.results; loading = false }
results_arrived poll (error e) p = record p { results = empty_results poll; loading = false }

abbrev pub close_poll : Option Poll → Option Poll
close_poll none = none
close_poll (some poll) = some (record poll { status = "closed" })

-- `handleSnapshot`, `handleVoteUpdate` and `handlePollClosedWs`
unfoldable pub receive : Delivery → Page → Page
receive (on_snapshot q) p = record p { results = apply_snapshot p.poll_id q p.results }
receive (on_vote_update q) p = record p { results = apply_vote p.poll_id q p.results }
receive (on_poll_closed q) p =
    if is_foreign p.poll_id q then p else record p { poll = close_poll p.poll }

abbrev begin : Action → Page → Page
begin a p = record p { is_processing = true; page_error = ""; acting = a ∷ p.acting }

-- `handleClosePoll`
unfoldable pub handle_close : Bool → Page → Page × Option Call
handle_close confirmed p =
    if confirmed then (begin closing p, some (Api.close_poll p.poll_id)) else (p, none)

-- `{ ...prev, status: 'closed', ...updated }`, where an answer with a poll names every member
abbrev pub closed_with : Option Poll → Option Poll → Option Poll
closed_with prev none = close_poll prev
closed_with prev (some updated) = some updated

unfoldable pub close_answered : Reply (Option Poll) → Page → Page
close_answered (ok updated) p = record p {
  poll = closed_with p.poll updated;
  action_success = "Poll has been successfully closed. No further votes will be accepted.";
  is_processing = false;
  message_timers = p.message_timers + 1;
}
close_answered (error e) p = record p {
  page_error =
      if is_forbidden e
      then "Forbidden: Only the creator of this poll can close it."
      else or_else e.message "Failed to close poll.";
  is_processing = false;
}

-- `handleDeletePoll`
unfoldable pub handle_delete : Bool → Page → Page × Option Call
handle_delete confirmed p =
    if confirmed then (begin deleting p, some (Api.delete_poll p.poll_id)) else (p, none)

unfoldable pub delete_answered : Reply (Unit {0}) → Page → Page
delete_answered (ok _) p = record p { went_to = some "/dashboard" }
delete_answered (error e) p = record p {
  page_error =
      if is_forbidden e
      then "Forbidden: Only the creator of this poll can delete it."
      else or_else e.message "Failed to delete poll.";
  is_processing = false;
}

-- `handleSaveQuestion`; the call carries `trimmed`
unfoldable pub handle_save : Page → Page × Option Call
handle_save p =
    let trimmed = trim p.edited_question in
    if ltb (Text.length trimmed) 3 || ltb 255 (Text.length trimmed)
    then (record p { page_error = "Question must be between 3 and 255 characters." }, none)
    else (begin (saving trimmed) p, some (Api.update_poll p.poll_id trimmed))

abbrev pub set_question : String → Option Poll → Option Poll
set_question q none = none
set_question q (some poll) = some (record poll { question = q })

-- the answer to `updatePoll`, by the question that it names, if any
unfoldable pub save_answered : String → Reply String → Page → Page
save_answered trimmed (ok updated) p = record p {
  poll = set_question (or_else updated trimmed) p.poll;
  is_editing = false;
  action_success = "Question updated successfully.";
  is_processing = false;
  message_timers = p.message_timers + 1;
}
save_answered trimmed (error e) p = record p {
  page_error = or_else e.message "Failed to update question.";
  is_processing = false;
}

abbrev pub question_of : Option Poll → String
question_of none = ""
question_of (some poll) = poll.question

-- the buttons of the inline form
unfoldable pub edit : Page → Page
edit p = record p { is_editing = true }

unfoldable pub cancel_edit : Page → Page
cancel_edit p = record p { edited_question = question_of p.poll; is_editing = false }

abbrev closed_status : Option Poll → Bool
closed_status none = false
closed_status (some poll) = poll.status == "closed"

-- `poll?.status === 'closed'`
unfoldable pub is_closed : Page → Bool
is_closed p = closed_status p.poll
