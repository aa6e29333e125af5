-- ===== src/Server/Hub/Tests.antt =====
-- The theorems on the hub at runs with two clients, and on its manager.
use pulsepoll_hcl_guvi.Prelude.{◌≡◌, ◌≢◌, refl, String, true, List, [], ◌∷◌, ◌++◌}
use pulsepoll_hcl_guvi.Server.Hub.{
  PollHub, Event, Outcome, next, panic, received, new_poll_hub, step, run,
}
use pulsepoll_hcl_guvi.Server.Hub.Safety.Steps.{hub_never_panics}
use pulsepoll_hcl_guvi.Server.Hub.Stream.{told}
use pulsepoll_hcl_guvi.Server.Hub.Stream.Queue.{published, delivered}
use pulsepoll_hcl_guvi.Server.Hub.Stream.Runs.{clients_hear_all}
use pulsepoll_hcl_guvi.Server.Hub.Joining.{crossing, joining_while_leaving_panics}
use pulsepoll_hcl_guvi.Server.Hub.Manager.{Operation}

-- the state that a run ends with
abbrev hub_of : Outcome String → PollHub String
hub_of (next h) = h
hub_of _ = new_poll_hub

-- Client 1 joins, and receives an update; another is published.
abbrev one_client : List (Event String)
one_client =
    Event.create 1
    ∷ Event.register 1
    ∷ Event.greet 1 "snapshot"
    ∷ Event.launch 1
    ∷ Event.write 1
    ∷ Event.publish "first"
    ∷ Event.deliver
    ∷ Event.publish "second"
    ∷ []

-- Client 2 is made while client 1 is the only one of the hub.
abbrev two_clients : List (Event String)
two_clients = one_client ++ (Event.create 2 ∷ [])

-- Client 1 leaves, and the hub ends.
abbrev left : List (Event String)
left = one_client ++ (Event.unregister 1 ∷ [])

abbrev one : PollHub String
unfolding run
one = hub_of (run one_client new_poll_hub)

abbrev two : PollHub String
unfolding run
two = hub_of (run two_clients new_poll_hub)

abbrev ended : PollHub String
unfolding run
ended = hub_of (run left new_poll_hub)

one_runs : run one_client new_poll_hub ≡ next one
unfolding run one
one_runs = refl

two_runs : run two_clients new_poll_hub ≡ next two
unfolding run two
two_runs = refl

ended_runs : run left new_poll_hub ≡ next ended
unfolding run ended
ended_runs = refl

one_received : received (one.heap 1) ≡ "snapshot" ∷ "first" ∷ []
unfolding one
one_received = refl

hub_never_panics_example : step Event.deliver one ≢ panic
hub_never_panics_example = hub_never_panics one_client Event.deliver one one_runs refl

clients_hear_all_example :
    (received (one.heap 1) ≡ told 1 one_client new_poll_hub [])
    × (delivered one_client new_poll_hub ++ one.broadcast ≡ published one_client)
unfolding one
clients_hear_all_example = clients_hear_all 1 one_client one one_runs refl

joining_while_leaving_panics_example : run (crossing 1 2 "snapshot") two ≡ panic
unfolding two
joining_while_leaving_panics_example =
    joining_while_leaving_panics two_clients two 1 2 "snapshot" two_runs refl refl refl refl

abbrev operations : List Operation
operations =
    Operation.get_hub true ∷ Operation.stop 0 ∷ Operation.get_hub true ∷ Operation.remove 0 ∷ []
