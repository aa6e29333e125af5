-- ===== src/ManagePollPage/Tests.antt =====
-- The theorems on the creator's page at one poll.
use pulsepoll_hcl_guvi.Prelude.{◌≡◌, refl, true, false, List, none, some, [], ◌∷◌}
use pulsepoll_hcl_guvi.Text
use pulsepoll_hcl_guvi.Text.{trim, trim_start, trim_end, is_space, is_blank}
use pulsepoll_hcl_guvi.Api
use pulsepoll_hcl_guvi.Auth.{ok, error, Failure}
use pulsepoll_hcl_guvi.Results.{Poll, Payload, is_foreign}
use pulsepoll_hcl_guvi.Socket.{Delivery, on_poll_closed, on_vote_update}
use pulsepoll_hcl_guvi.ManagePollPage.{
  Page, start, fetch, poll_arrived, results_arrived, handle_delete, receive, handle_save,
  close_answered, is_closed,
}
use pulsepoll_hcl_guvi.ManagePollPage.Console.{
  Event, load, polled, counted, press_delete, step, run, calls, is_console, can_act,
}
use pulsepoll_hcl_guvi.ManagePollPage.OneAction.{IsOrderly, run-IsOrderly}

abbrev lunch : Poll
lunch = record {
  id = "p1";
  question = "Where to eat?";
  options = record { id = "a"; text = "Thai" } ∷ record { id = "b"; text = "Pizza" } ∷ [];
  status = "active";
  created_at = none;
  expires_at = none;
}

abbrev console : Page
console = record (start "p1") { poll = some lunch; edited_question = " Where? " }

abbrev closed_lunch : Poll
closed_lunch = record lunch { status = "closed" }

abbrev forbidden : Failure
forbidden = record { message = "Forbidden"; status = 403; code = "FORBIDDEN" }

abbrev closing : Payload
closing = record {
  poll_id = some "p1";
  options = none;
  option_id = none;
  count = 0;
  total_votes = none;
}

console_test :
    ((handle_save console).1 ≡ some (Api.update_poll "p1" "Where?"))
    × (is_closed (receive (on_poll_closed closing) console) ≡ true)
    × (is_closed (receive (on_poll_closed (record closing { poll_id = some "p2" })) console)
        ≡ false)
    × ((close_answered (error forbidden) console).page_error
        ≡ "Forbidden: Only the creator of this poll can close it.")
unfolding start handle_save receive is_closed close_answered is_foreign trim trim_start trim_end
    is_space is_blank Text.length
console_test = (refl, refl, refl, refl)

abbrev update : Delivery
update = on_vote_update (record closing { option_id = some "a"; count = 1 })

console_functions : Unit {0}
unfolding step run calls start fetch poll_arrived results_arrived handle_delete receive is_closed
    is_console can_act
console_functions = tt

-- the poll arrives, and the creator deletes it
abbrev events : List Event
events = load ∷ polled (ok lunch) ∷ counted lunch (error forbidden) ∷ press_delete true ∷ []

run-IsOrderly_example : IsOrderly (run (start "p1") events)
run-IsOrderly_example = run-IsOrderly "p1" events
