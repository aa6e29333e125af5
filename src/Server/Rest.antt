-- ===== src/Server/Rest.antt =====
-- The results that a page fetches, beside those that it is sent.
use pulsepoll_hcl_guvi.Prelude.{ℕ, refl, some, List, [], ◌∷◌, map}
use pulsepoll_hcl_guvi.Auth.{ok}
use pulsepoll_hcl_guvi.Results.{PollOption, Poll}
use pulsepoll_hcl_guvi.Socket.{on_vote_update}
use pulsepoll_hcl_guvi.PublicPollPage.{Page, results_arrived, receive}
use pulsepoll_hcl_guvi.Server.{
  VoteRepository, VoteCounterStore, all_work, Ballot, Server, total_of, get_results, result_entry,
  cast_vote,
}
use pulsepoll_hcl_guvi.Server.Tally.{IsShowing, AreCounted, IsRecorded, event_of}
use pulsepoll_hcl_guvi.Server.Live.{stale_unseen}

module _ {C : Type 0} ⦃redis : VoteCounterStore C⦄ where
  result_entries :
      (c : C) (total : ℕ) (os : List PollOption) → AreCounted c os (map (result_entry c total) os)
  result_entries c total [] = tt
  result_entries c total (o ∷ os) = (refl, refl, refl, refl, result_entries c total os)

  -- A page that fetches the results shows the options with the server's counts and total.
  pub fetched_shown :
      (poll : Poll) (c : C) (p : Page)
      → IsShowing poll c (results_arrived poll (ok (get_results poll c)) p).results
  unfolding results_arrived get_results
  fetched_shown poll c p = record {
    entries = result_entries c (total_of c poll.options) poll.options;
    total = refl;
  }

module _ {V C : Type 0} ⦃repo : VoteRepository V⦄ ⦃redis : VoteCounterStore C⦄ where
  -- With every operation at work: if results that were read before a vote is recorded arrive at the page
  -- after the vote's update, they undo the update, and the page does not show what the server counts.
  pub late_results_undo :
      (poll : Poll) (s : Server V C) (b : Ballot) (p : Page)
      → IsRecorded poll s b
      → let updated = receive (on_vote_update (event_of poll s.counters b.option_id)) p in
        let q = results_arrived poll (ok (get_results poll s.counters)) updated in
        ¬ IsShowing poll (cast_vote all_work (some poll) s b).0.counters q.results
  late_results_undo poll s b p d =
      let updated = receive (on_vote_update (event_of poll s.counters b.option_id)) p in
      stale_unseen poll s b
        (results_arrived poll (ok (get_results poll s.counters)) updated).results d
        (fetched_shown poll s.counters updated)
