-- ===== src/PublicPollPage/Tests.antt =====
-- The theorems on the voting page at one poll, and runs of the page.
use pulsepoll_hcl_guvi.Prelude.{
  ◌≤◌, ◌≡◌, refl, String, true, none, some, List, [], ◌∷◌, if◌then◌else◌,
}
use pulsepoll_hcl_guvi.Api
use pulsepoll_hcl_guvi.Auth.{ok, Failure, has_token}
use pulsepoll_hcl_guvi.Results.{Poll, Payload, is_foreign}
use pulsepoll_hcl_guvi.Socket.{on_poll_closed}
use pulsepoll_hcl_guvi.PublicPollPage.{
  Page, start, fetch, poll_arrived, results_arrived, receive, handle_submit, vote_arrived,
  voting_disabled, can_submit, Event, load, polled, counted, delivered, select, submit, voted, step,
  run,
}
use pulsepoll_hcl_guvi.PublicPollPage.View.{render}
use pulsepoll_hcl_guvi.PublicPollPage.Votes.{
  IsConsistent, start-IsConsistent, run-IsConsistent, recorded, one_vote_recorded,
}
use pulsepoll_hcl_guvi.PublicPollPage.Ballot.{ballot, follow, moves, follow-moves}
use pulsepoll_hcl_guvi.PublicPollPage.Closing.{votes_sent}

page_functions : Unit {0}
unfolding step run start fetch poll_arrived results_arrived receive handle_submit vote_arrived
    can_submit voting_disabled recorded votes_sent is_foreign render
page_functions = tt

abbrev same_text : String → String
same_text s = s

abbrev lunch : Poll
lunch = record {
  id = "p1";
  question = "Where to eat?";
  options = record { id = "a"; text = "Thai" } ∷ record { id = "b"; text = "Pizza" } ∷ [];
  status = "active";
  created_at = none;
  expires_at = some 900;
}

abbrev opening : List Event
opening =
    load
    ∷ polled (ok lunch) 100
    ∷ counted lunch (ok (record { results = none; total_votes = none }))
    ∷ select "a"
    ∷ []

-- The poll is opened, and a vote for "a" is sent and accepted; the visitor tries again.
abbrev voting : List Event
voting =
    load
    ∷ polled (ok lunch) 100
    ∷ counted lunch (ok (record { results = none; total_votes = none }))
    ∷ select "a"
    ∷ submit
    ∷ voted "a" (ok tt)
    ∷ select "b"
    ∷ submit
    ∷ voted "b" (ok tt)
    ∷ []

abbrev ready : Page
ready = run same_text (start "p1" none) opening

abbrev closing : Payload
closing = record {
  poll_id = some "p1";
  options = none;
  option_id = none;
  count = 0;
  total_votes = none;
}

abbrev refusal : Failure
refusal = record { message = "poll is closed"; status = 409; code = "POLL_CLOSED" }

voting_test :
    ((run same_text (start "p1" none) voting).stored ≡ some "a")
    × (recorded same_text (start "p1" none) voting ≡ 1)
    × ((handle_submit ready).1 ≡ some (Api.cast_vote "p1" "a"))
    × ((run same_text (start "p1" none) (polled (ok lunch) 900 ∷ [])).is_expired ≡ true)
    × (votes_sent same_text ready (submit ∷ []) ≡ 1)
    × (votes_sent same_text ready (delivered (on_poll_closed closing) ∷ submit ∷ []) ≡ 0)
unfolding page_functions
voting_test = (refl, refl, refl, refl, refl, refl)

one_vote_recorded_example :
    recorded same_text (start "p1" none) voting ≤ (if has_token none then 0 else 1)
one_vote_recorded_example = one_vote_recorded same_text "p1" none voting

run-IsConsistent_example : IsConsistent (run same_text (start "p1" (some "b")) voting)
run-IsConsistent_example =
    run-IsConsistent same_text (start "p1" (some "b")) voting (start-IsConsistent "p1" (some "b"))

follow-moves_example :
    follow (some (ballot (start "p1" none))) (moves same_text (start "p1" none) voting)
    ≡ some (ballot (run same_text (start "p1" none) voting))
follow-moves_example =
    follow-moves same_text (start "p1" none) voting (start-IsConsistent "p1" none)
