-- ===== src/PublicPollPage.antt =====
-- frontend/src/pages/PublicPollPage.jsx: the state of the voting page and its handlers. An
-- asynchronous handler is split at each `await`: the call that it makes, and what it does with the
-- answer. `stored` is what localStorage holds under `pulsepoll_voted_<pollId>`, `casting` holds
-- the options whose votes are under way, as their handlers have captured them. `lower` is
-- `toLowerCase`, and times are instants. The logging is left out.
mod View
pub mod Submit
mod Votes
mod Ballot
mod Closing
mod Tests
use pulsepoll_hcl_guvi.Prelude.{
  ℕ, String, Bool, true, false, not, ◌&&◌, ◌||◌, Option, none, some, List, [], ◌∷◌, leb, nat_eq,
  if◌then◌else◌, ◌==◌,
}
use pulsepoll_hcl_guvi.Text.{truthy, or_else, includes}
use pulsepoll_hcl_guvi.Api
use pulsepoll_hcl_guvi.Api.{Call}
use pulsepoll_hcl_guvi.Auth.{Reply, ok, error, Failure, has_token}
use pulsepoll_hcl_guvi.Results.{
  Poll, Results, Payload, Entry, no_results, or_nullish, empty_results, apply_snapshot, apply_vote,
  is_foreign,
}
use pulsepoll_hcl_guvi.Socket.{Delivery, on_snapshot, on_vote_update, on_poll_closed}

pub record Page : Type 0 where
  pub poll_id : String
  pub poll : Option Poll
  pub results : Results
  pub selected : String
  pub user_voted : Option String
  pub has_voted : Bool
  pub is_closed : Bool
  pub is_expired : Bool
  pub loading : Bool
  pub is_voting : Bool
  pub poll_error : String
  pub vote_error : String
  pub vote_success : String
  pub copied : Bool
  pub stored : Option String
  pub casting : List String

-- `localStorage.getItem(…) || null`
abbrev pub or_null : Option String → Option String
or_null none = none
or_null (some s) = if truthy s then some s else none

-- the first render
unfoldable pub start : String → Option String → Page
start poll_id stored = record {
  poll_id = poll_id;
  poll = none;
  results = no_results;
  selected = "";
  user_voted = or_null stored;
  has_voted = has_token stored;
  is_closed = false;
  is_expired = false;
  loading = true;
  is_voting = false;
  poll_error = "";
  vote_error = "";
  vote_success = "";
  copied = false;
  stored = stored;
  casting = [];
}

-- `fetchInitialData` up to its first `await`
unfoldable pub fetch : Page → Page × Option Call
fetch p =
    if truthy p.poll_id
    then (record p { loading = true; poll_error = "" }, some (Api.get_public_poll p.poll_id))
    else (p, none)

-- whether the deadline, if there is one, has passed
abbrev pub expired_at : Option ℕ → ℕ → Bool → Bool
expired_at none now old = old
expired_at (some t) now old = leb t now

-- the answer to `getPublicPoll`; if it is a poll, the results are asked for
unfoldable pub poll_arrived : (String → String) → Reply Poll → ℕ → Page → Page × Option Call
poll_arrived lower (ok poll) now p = (
  record p {
    poll = some poll;
    is_closed = poll.status == "closed";
    is_expired = expired_at poll.expires_at now p.is_expired;
  },
  some (Api.get_results p.poll_id),
)
poll_arrived lower (error e) now p = (
  record p {
    loading = false;
    poll_error =
        if nat_eq e.status 404 || includes (lower e.message) "not found"
        then "Poll not found. It may have been deleted or never existed."
        else or_else e.message "Unable to connect to the server. Please try again.";
  },
  none,
)

-- What `getResults` returns: `results` and `total_votes`, which may be missing.
pub record Counted : Type 0 where
  pub results : Option (List Entry)
  pub total_votes : Option ℕ

abbrev take_counted : Option (List Entry) → Option ℕ → Results → Results
take_counted none total r = r
take_counted (some es) total r = record { options = es; total = or_nullish total 0 }

abbrev pub counted_results : Counted → Results → Results
counted_results c r = take_counted c.results c.total_votes r

-- the answer to `getResults` for `poll`
unfoldable pub results_arrived : Poll → Reply Counted → Page → Page
results_arrived poll (ok c) p = record p { results = counted_results c p.results; loading = false }
results_arrived poll (error e) p = record p { results = empty_results poll; loading = false }

-- `handleSnapshot`, `handleVoteUpdate` and `handlePollClosed`
unfoldable pub receive : Delivery → Page → Page
receive (on_snapshot q) p = record p { results = apply_snapshot p.poll_id q p.results }
receive (on_vote_update q) p = record p { results = apply_vote p.poll_id q p.results }
receive (on_poll_closed q) p =
    if is_foreign p.poll_id q
    then p
    else record p { is_closed = true; vote_error = "Voting is now closed for this poll." }

-- `handleVoteSubmit` up to its `await`
unfoldable pub handle_submit : Page → Page × Option Call
handle_submit p =
    let q = record p { vote_error = ""; vote_success = "" } in
    if not (truthy p.selected)
    then (record q { vote_error = "Please select an option before casting your vote." }, none)
    else if p.is_closed
    then (record q { vote_error = "Voting is closed." }, none)
    else if p.is_expired
    then (record q { vote_error = "This poll has expired." }, none)
    else (
      record q { is_voting = true; casting = p.selected ∷ p.casting },
      some (Api.cast_vote p.poll_id p.selected),
    )

abbrev pub remember : String → Page → Page
remember option p = record p {
  has_voted = true;
  user_voted = some option;
  stored = some option;
  is_voting = false;
}

-- the answer to `castVote` for the option that the handler has captured
unfoldable pub vote_arrived : (String → String) → String → Reply (Unit {0}) → Page → Page
vote_arrived lower option (ok _) p = record (remember option p) {
  vote_success = "Your vote has been recorded!";
}
vote_arrived lower option (error e) p =
    if (e.code == "DUPLICATE_VOTE") || includes (lower e.message) "already voted"
    then record (remember option p) { vote_error = "You've already voted in this poll." }
    else if (e.code == "POLL_CLOSED") || includes (lower e.message) "closed"
    then record p { is_closed = true; vote_error = "Voting is closed."; is_voting = false }
    else if (e.code == "POLL_EXPIRED") || includes (lower e.message) "expired"
    then record p { is_expired = true; vote_error = "This poll has expired."; is_voting = false }
    else record p {
      vote_error = or_else e.message "Unable to submit vote. Please try again.";
      is_voting = false;
    }

-- the two ends of `handleCopyLink`, and its timeout
abbrev pub set_copied : Bool → Page → Page
set_copied done p = record p { copied = done }

-- `votingDisabled`
unfoldable pub voting_disabled : Page → Bool
voting_disabled p = p.has_voted || p.is_closed || p.is_expired || p.is_voting

-- the submit button is shown and enabled; without it the form cannot be submitted
unfoldable pub can_submit : Page → Bool
can_submit p =
    not p.has_voted
    && not p.is_closed
    && not p.is_expired
    && not (p.is_voting || not (truthy p.selected))

-- What happens to the page. The visitor acts through the controls that are shown and enabled, and
-- an answer to `castVote` comes only to a vote that is under way.
pub data Event : Type 0 where
  load : Event
  polled : Reply Poll → ℕ → Event
  counted : Poll → Reply Counted → Event
  delivered : Delivery → Event
  select : String → Event
  submit : Event
  voted : String → Reply (Unit {0}) → Event
  dismiss_error dismiss_success : Event
  copy : Bool → Event

abbrev pub is_casting : String → List String → Bool
is_casting o [] = false
is_casting o (q ∷ qs) = q == o || is_casting o qs

abbrev pub drop_one : String → List String → List String
drop_one o [] = []
drop_one o (q ∷ qs) = if q == o then qs else q ∷ drop_one o qs

unfoldable pub step : (String → String) → Page → Event → Page
step lower p load = (fetch p).0
step lower p (polled reply now) = (poll_arrived lower reply now p).0
step lower p (counted poll reply) = results_arrived poll reply p
step lower p (delivered d) = receive d p
step lower p (select o) = if voting_disabled p then p else record p { selected = o }
step lower p submit = if can_submit p then (handle_submit p).0 else p
step lower p (voted o reply) =
    if is_casting o p.casting
    then vote_arrived lower o reply (record p { casting = drop_one o p.casting })
    else p
step lower p dismiss_error = record p { vote_error = "" }
step lower p dismiss_success = record p { vote_success = "" }
step lower p (copy done) = set_copied done p

unfoldable pub run : (String → String) → Page → List Event → Page
run lower p [] = p
run lower p (e ∷ es) = run lower (step lower p e) es
