-- ===== src/Server/Calls.antt =====
-- backend/internal/votes/service.go: `CastVote` with the poll's ID as the request spells it.
-- MongoDB finds a poll by the hexadecimal digits of its ID, in upper or lower case, while the votes
-- and the increment go by the text of the request, and the counters are prepared by
-- `poll.ID.Hex()`. The votes of one text `poll_id` are a `VoteRepository`, whose unique index on
-- the pair of `poll_id` and voter is one on the voter there, and each hash of counters is a
-- `VoteCounterStore`.
mod Spelling
mod Twice
mod Tests
use pulsepoll_hcl_guvi.Prelude.{String, Bool, not, ◌||◌, Option, none, some, if◌then◌else◌, ◌==◌}
use pulsepoll_hcl_guvi.Text.{truthy}
use pulsepoll_hcl_guvi.Results.{Poll}
use pulsepoll_hcl_guvi.Server.{
  VoteRepository, VoteCounterStore, Works, Refusal, invalid_input, poll_not_found, duplicate_vote,
  vote_failed, Verdict, refused, recorded, Ballot, Server, admit, ensure, count_vote,
}

-- the votes by their `poll_id`, and the hashes by the ID in their key
pub record Service (V C : Type 0) : Type 0 where
  pub votes_of : String → V
  pub hash_of : String → C

abbrev pub put : {A : Type 0} → String → A → (String → A) → String → A
put i x f j = if i == j then x else f j

-- what the service holds under one ID
abbrev pub at : {V C : Type 0} → String → Service V C → Server V C
at i s = record { votes = s.votes_of i; counters = s.hash_of i }

module _ {V C : Type 0} ⦃repo : VoteRepository V⦄ ⦃redis : VoteCounterStore C⦄ where
  -- `voteRepo.Create` by what it returns, and what follows; the event names the poll as the request
  -- does
  abbrev pub stored_by_id :
      Works → Poll → Service V C → (poll_id option_id : String) → Option V → Service V C × Verdict
  stored_by_id w poll s i option_id none = (s, refused duplicate_vote)
  stored_by_id w poll s i option_id (some v) =
      let (c, event) = count_vote w (record poll { id = i }) (s.hash_of i) option_id in
      (record { votes_of = put i v s.votes_of; hash_of = put i c s.hash_of }, recorded event)

  -- from `ensureRedisInitialized` on
  unfoldable pub record_by_id :
      Works → Poll → Service V C → (poll_id : String) → Ballot → Service V C × Verdict
  record_by_id w poll s i b =
      let t : Service V C = record s {
        hash_of = put poll.id (ensure w poll (at poll.id s)) s.hash_of;
      } in
      if w.create
      then stored_by_id w poll t i b.option_id (repo.create (s.votes_of i) b.voter_id b.option_id)
      else (t, refused vote_failed)

  abbrev pub admitted_by_id :
      Works
      → Poll
      → Service V C
      → (poll_id : String) → Ballot
      → Option Refusal
      → Service V C × Verdict
  admitted_by_id w poll s i b none = record_by_id w poll s i b
  admitted_by_id w poll s i b (some r) = (s, refused r)

  -- the call with the poll that `FindByID` returns
  abbrev pub found_by_id :
      Works → Option Poll → Service V C → (poll_id : String) → Ballot → Service V C × Verdict
  found_by_id w none s i b = (s, refused poll_not_found)
  found_by_id w (some poll) s i b = admitted_by_id w poll s i b (admit w poll (at i s) b)

  -- `CastVote`
  unfoldable pub cast_by_id :
      Works → Option Poll → Service V C → (poll_id : String) → Ballot → Service V C × Verdict
  unfolding record_by_id
  cast_by_id w poll s i b =
      if not (truthy i) || not (truthy b.option_id) || not (truthy b.voter_id)
      then (s, refused invalid_input)
      else if not w.find
      then (s, refused vote_failed)
      else found_by_id w poll s i b
