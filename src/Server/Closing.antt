-- ===== src/Server/Closing.antt =====
-- What the closing of a poll does to the voting pages and to later votes.
use pulsepoll_hcl_guvi.Prelude.{
  ◌≡◌, refl, ap, ◌∙◌, String, true, false, Option, none, some, arith, eq_refl, ◌==◌,
}
use pulsepoll_hcl_guvi.Text.{truthy}
use pulsepoll_hcl_guvi.Results.{Payload, Poll, is_foreign}
use pulsepoll_hcl_guvi.Socket.{on_poll_closed}
use pulsepoll_hcl_guvi.PublicPollPage.{Page, receive}
use pulsepoll_hcl_guvi.Server.{
  VoteRepository, VoteCounterStore, Works, Refusal, refused, Ballot, Server, admit, cast_vote,
}
use pulsepoll_hcl_guvi.Server.Polls.{
  Stored, with_status, PollRepository, closed_event, set_status, close_poll,
}

abbrev pub poll_of : Option Stored → Option Poll
poll_of none = none
poll_of (some s) = some s.poll

closed_page :
    (q : Page) (id : String)
    → q.poll_id ≡ id
    → (receive (on_poll_closed (closed_event id)) q).is_closed ≡ true
unfolding receive is_foreign closed_event
closed_page q id h = ground (arith, eq_refl id)

module _ {P : Type 0} ⦃repo : PollRepository P⦄ where
  close-eq :
      (p : P) (id : String) (s : Stored)
      → repo.find_by_id p id ≡ some s
      → truthy s.creator_id ≡ true
      → truthy id ≡ true
      → (s.poll.status == "closed") ≡ false
      → ((close_poll true s.creator_id id p).store ≡ repo.update_status p id "closed")
        × ((close_poll true s.creator_id id p).event ≡ some (closed_event id))
  unfolding close_poll set_status
  close-eq p id s here creator named active =
      rw (creator, named, here, eq_refl s.creator_id, active) (refl, refl)

module _ {V C : Type 0} ⦃votes : VoteRepository V⦄ ⦃redis : VoteCounterStore C⦄ where
  closed_refuses :
      (w : Works) (poll : Poll) (server : Server V C) (b : Ballot)
      → w.find ≡ true
      → truthy b.option_id ≡ true
      → truthy b.voter_id ≡ true
      → cast_vote w (some (with_status "closed" poll)) server b
        ≡ (server, refused Refusal.poll_closed)
  unfolding cast_vote admit
  closed_refuses w poll server b works option voter = rw (option, voter, works) refl

  module _ {P : Type 0} ⦃repo : PollRepository P⦄ where
    -- If the creator of a poll that is found and not closed closes it, and the write succeeds: the event
    -- that is broadcast closes each voting page of the poll that receives it, and the server, which finds
    -- the poll by the same identifier, refuses each vote that names an option and a voter as one for a
    -- closed poll, and stays as it is.
    pub close_ends_voting :
        (p : P) (id : String) (s : Stored) (q : Page) (w : Works) (server : Server V C) (b : Ballot)
        → repo.find_by_id p id ≡ some s
        → truthy s.creator_id ≡ true
        → truthy id ≡ true
        → (s.poll.status == "closed") ≡ false
        → q.poll_id ≡ id
        → w.find ≡ true
        → truthy b.option_id ≡ true
        → truthy b.voter_id ≡ true
        → let out = close_poll true s.creator_id id p in
          (e : Payload) × (out.event ≡ some e)
          × ((receive (on_poll_closed e) q).is_closed ≡ true)
          × (cast_vote w (poll_of (repo.find_by_id out.store id)) server b
              ≡ (server, refused Refusal.poll_closed))
    close_ends_voting p id s q w server b here creator named active same works option voter =
        let (store, event) = close-eq p id s here creator named active in
        (
          closed_event id,
          event,
          closed_page q id same,
          ap (λ x. cast_vote w (poll_of (repo.find_by_id x id)) server b) store
              ∙ rw (repo.update_status_finds p id "closed" id, repo.same_refl id, here)
                  (closed_refuses w s.poll server b works option voter),
        )
