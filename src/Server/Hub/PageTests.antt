-- ===== src/Server/Hub/PageTests.antt =====
-- The theorem on a connected page, for two ballots whose updates reach one client.
use pulsepoll_hcl_guvi.Prelude.{ℕ, ◌≡◌, refl, ap, String, none, some, List, [], ◌∷◌, map}
use pulsepoll_hcl_guvi.Results.{Results, Poll, Payload}
use pulsepoll_hcl_guvi.Server.{all_work, Server, Ballot, snapshot, cast_vote, serve}
use pulsepoll_hcl_guvi.Server.Tally.{IsShowing, IsRecorded, event_of}
use pulsepoll_hcl_guvi.Server.Stores.{Vote, votes, counters}
use pulsepoll_hcl_guvi.Server.Hub.{PollHub, Event, Outcome, next, received, new_poll_hub, run}
use pulsepoll_hcl_guvi.Server.Hub.Stream.Queue.{published, delivered}
use pulsepoll_hcl_guvi.Server.Hub.Gap.{late_joining, gap_unseen}
use pulsepoll_hcl_guvi.Server.Hub.Page.{
  Message, results_snapshot, vote_update, receive_messages, connected_page_follows,
}

abbrev lunch : Poll
lunch = record {
  id = "p1";
  question = "Where to eat?";
  options = record { id = "a"; text = "Thai" } ∷ record { id = "b"; text = "Pizza" } ∷ [];
  status = "active";
  created_at = none;
  expires_at = none;
}

abbrev stores : Server (List Vote) (List (String × ℕ))
stores = record { votes = record { voter = "ada"; option = "a" } ∷ []; counters = ("a", 1) ∷ [] }

abbrev ballot : String → String → Ballot
ballot u o = record { option_id = o; voter_id = u; time = 5 }

abbrev ballots : List Ballot
ballots = ballot "bob" "b" ∷ ballot "eve" "b" ∷ []

abbrev blank : Results
blank = record { options = []; total = 0 }

abbrev hub_of : Outcome Message → PollHub Message
hub_of (next h) = h
hub_of _ = new_poll_hub

abbrev joined : List (Event Message)
joined =
    Event.create 1
    ∷ Event.register 1
    ∷ Event.greet 1 (results_snapshot (snapshot lunch stores.counters))
    ∷ []

-- each update is published and delivered
abbrev updates : List Payload → List (Event Message)
updates [] = []
updates (p ∷ ps) = Event.publish (vote_update p) ∷ Event.deliver ∷ updates ps

published-updates : (ps : List Payload) → published (updates ps) ≡ map vote_update ps
unfolding published
published-updates [] = refl
published-updates (p ∷ ps) = ap (λ l. vote_update p ∷ l) (published-updates ps)

before_votes : PollHub Message
before_votes = hub_of (run joined new_poll_hub)

after_votes : PollHub Message
after_votes = hub_of (run (updates (serve lunch stores ballots).1) before_votes)

before_runs : run joined new_poll_hub ≡ next before_votes
unfolding run before_votes
before_runs = refl

after_runs : run (updates (serve lunch stores ballots).1) before_votes ≡ next after_votes
unfolding run before_votes after_votes serve cast_vote votes counters
after_runs = refl

connected_page_follows_example :
    IsShowing lunch
      (serve lunch stores ballots).0.counters
      (receive_messages "p1" blank (received (after_votes.heap 1)))
unfolding run before_votes after_votes serve cast_vote votes counters
connected_page_follows_example =
    connected_page_follows lunch stores ballots blank 1 joined
      (updates (serve lunch stores ballots).1) before_votes after_votes refl before_runs refl refl
      refl after_runs (published-updates (serve lunch stores ballots).1) refl refl refl

bob-IsRecorded : IsRecorded lunch stores (ballot "bob" "b")
unfolding cast_vote votes counters event_of
bob-IsRecorded = record {
  votes = record { voter = "bob"; option = "b" } ∷ stores.votes;
  is_stored = refl;
  is_option = refl;
  answer = refl;
}

-- client 2 connects while bob's update waits in the queue
abbrev connecting : List (Event Message)
connecting = Event.create 2 ∷ Event.publish (vote_update (event_of lunch stores.counters "b")) ∷ []

abbrev first_snapshot : Message
first_snapshot = results_snapshot (snapshot lunch stores.counters)

queued : PollHub Message
queued = hub_of (run connecting new_poll_hub)

late_joined : PollHub Message
late_joined = hub_of (run (late_joining 2 first_snapshot) queued)

gap_unseen_example :
    (delivered (late_joining 2 first_snapshot) queued
      ≡ vote_update (event_of lunch stores.counters "b") ∷ [])
    × (received (late_joined.heap 2) ≡ first_snapshot ∷ [])
    × (¬ IsShowing lunch
        (cast_vote all_work (some lunch) stores (ballot "bob" "b")).0.counters
        (receive_messages "p1" blank (received (late_joined.heap 2))))
unfolding run queued late_joined
gap_unseen_example =
    gap_unseen lunch stores (ballot "bob" "b") blank connecting 2 [] queued late_joined refl refl
      bob-IsRecorded refl refl refl
