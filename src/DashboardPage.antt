-- ===== src/DashboardPage.antt =====
-- frontend/src/pages/DashboardPage.jsx: the creator's list of polls, its handlers, and what is
-- listed. The asynchronous handlers are split at their `await`; `deleting` holds the polls whose
-- deletion is under way, and the timers are those that will clear the success message.
mod Listing
mod Workspace
mod Refresh
mod Tests
use pulsepoll_hcl_guvi.Prelude.{
  ℕ, ◌+◌, ◌-◌, String, Bool, true, false, not, Option, none, some, List, [], ◌∷◌, keep_if, length,
  if◌then◌else◌, ◌==◌,
}
use pulsepoll_hcl_guvi.Text.{or_else}
use pulsepoll_hcl_guvi.Api
use pulsepoll_hcl_guvi.Api.{Call}
use pulsepoll_hcl_guvi.Auth.{Reply, ok, error}
use pulsepoll_hcl_guvi.Results.{Poll, or_nullish}

pub data Filter : Type 0 where
  everything active closed : Filter

pub record Page : Type 0 where
  pub polls : List Poll
  pub total_count : ℕ
  pub loading : Bool
  pub page_error : String
  pub filter : Filter
  pub action_success : String
  pub deleting : List String
  pub message_timers : ℕ

unfoldable pub start : Page
start = record {
  polls = [];
  total_count = 0;
  loading = true;
  page_error = "";
  filter = everything;
  action_success = "";
  deleting = [];
  message_timers = 0;
}

-- `{ polls, total_count }`, each of which may be missing
pub record Fetched : Type 0 where
  pub polls : Option (List Poll)
  pub total_count : Option ℕ

-- `fetchPolls` up to its `await`
unfoldable pub fetch : Page → Page × Call
fetch p = (record p { loading = true; page_error = "" }, Api.get_my_polls 1 50)

abbrev pub or_no_polls : Option (List Poll) → List Poll
or_no_polls none = []
or_no_polls (some polls) = polls

unfoldable pub polls_arrived : Reply Fetched → Page → Page
polls_arrived (ok d) p = record p {
  polls = or_no_polls d.polls;
  total_count = or_nullish d.total_count 0;
  loading = false;
}
polls_arrived (error e) p = record p {
  page_error =
      or_else e.message "Failed to load your polls. Please check connection and try again.";
  loading = false;
}

-- `handleDelete` up to its `await`
unfoldable pub handle_delete : Bool → String → Page → Page × Option Call
handle_delete confirmed poll_id p =
    if confirmed
    then (record p { deleting = poll_id ∷ p.deleting }, some (Api.delete_poll poll_id))
    else (p, none)

-- the answer to `deletePoll`; `Math.max(0, prev - 1)` is `-` on the natural numbers
unfoldable pub delete_answered : String → Reply (Unit {0}) → Page → Page
delete_answered poll_id (ok _) p = record p {
  polls = keep_if (λ q. not (q.id == poll_id)) p.polls;
  total_count = p.total_count - 1;
  action_success = "Poll was deleted successfully.";
  message_timers = p.message_timers + 1;
}
delete_answered poll_id (error e) p = record p {
  page_error = or_else e.message "Failed to delete poll.";
}

abbrev pub has_status : String → Poll → Bool
has_status s q = q.status == s

unfoldable pub active_count : Page → ℕ
active_count p = length (keep_if (has_status "active") p.polls)

unfoldable pub closed_count : Page → ℕ
closed_count p = length (keep_if (has_status "closed") p.polls)

abbrev pub passes : Filter → Poll → Bool
passes everything q = true
passes active q = has_status "active" q
passes closed q = has_status "closed" q

-- `filteredPolls`
unfoldable pub filtered : Page → List Poll
filtered p = keep_if (passes p.filter) p.polls

-- What the list below the tabs shows: the spinner, the empty state (of all polls, or of a filter),
-- or a card for each poll.
pub data Listed : Type 0 where
  spinner no_polls none_match : Listed
  cards : List Poll → Listed

abbrev empty_state : Filter → Listed
empty_state everything = no_polls
empty_state _ = none_match

abbrev listed_of : Filter → List Poll → Listed
listed_of f [] = empty_state f
listed_of f (q ∷ qs) = cards (q ∷ qs)

unfoldable pub listing : Page → Listed
unfolding filtered
listing p = if p.loading then spinner else listed_of p.filter (filtered p)

-- A metric is hidden while the page loads.
abbrev metric : Page → ℕ → Option ℕ
metric p n = if p.loading then none else some n

-- The three metrics and the three tab badges.
pub record Numbers : Type 0 where
  pub total_metric : Option ℕ
  pub active_metric : Option ℕ
  pub closed_metric : Option ℕ
  pub all_badge : ℕ
  pub active_badge : ℕ
  pub closed_badge : ℕ

unfoldable pub numbers : Page → Numbers
unfolding active_count closed_count
numbers p = record {
  total_metric = metric p p.total_count;
  active_metric = metric p (active_count p);
  closed_metric = metric p (closed_count p);
  all_badge = length p.polls;
  active_badge = active_count p;
  closed_badge = closed_count p;
}
