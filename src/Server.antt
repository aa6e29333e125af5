-- ===== src/Server.antt =====
-- backend/internal/votes/service.go and handler.go: the server's side of a vote, and the messages
-- that it sends to the pages of the poll. MongoDB and Redis are the two interfaces, whose laws are what
-- the service relies on: the unique index on the voter, and the atomic HINCRBY. Identifiers
-- hold no space, which TrimSpace would remove. The logging is left out. The child modules hold the
-- rest of the backend: hubs, accounts, counters, retries, polls and the voter's identity.
mod Hub
mod Accounts
mod Redis
mod Retry
mod Editing
mod Browser
mod Listing
mod Interface
mod Tally
mod Live
mod Calls
mod Voters
mod Rest
mod Refusals
mod Create
mod Polls
mod Updating
mod Owners
mod Closing
mod Saving
mod Stores
mod Tests
mod FormTests
mod PollTests
pub use Interface.*
use pulsepoll_hcl_guvi.Prelude.{
  ℕ, ◌+◌, ◌*◌, ◌/◌, String, Bool, true, false, not, ◌&&◌, ◌||◌, Option, none, some, List, [], ◌∷◌,
  map, sum_of, ltb, if◌then◌else◌, ◌==◌,
}
use pulsepoll_hcl_guvi.Text.{truthy}
use pulsepoll_hcl_guvi.Results.{Entry, Payload, PollOption, Poll}
use pulsepoll_hcl_guvi.PublicPollPage.{Counted}

-- Which of the operations on MongoDB and Redis succeed during a call.
pub record Works : Type 0 where
  pub find : Bool
  pub check : Bool
  pub create : Bool
  pub initialize : Bool
  pub increment : Bool
  pub counts : Bool
  pub publish : Bool

abbrev pub all_work : Works
all_work = record {
  find = true;
  check = true;
  create = true;
  initialize = true;
  increment = true;
  counts = true;
  publish = true;
}

-- The errors of `CastVote`; `vote_failed` stands for those without a name.
pub data Refusal : Type 0 where
  invalid_input poll_not_found poll_closed poll_expired invalid_option duplicate_vote vote_failed :
      Refusal

-- What a call of `CastVote` ends with; a recorded vote may have been published.
pub data Verdict : Type 0 where
  refused : Refusal → Verdict
  recorded : Option Payload → Verdict

pub record Ballot : Type 0 where
  pub option_id : String
  pub voter_id : String
  pub time : ℕ

abbrev pub is_after : ℕ → Option ℕ → Bool
is_after now none = false
is_after now (some t) = ltb t now

abbrev pub has_option : String → List PollOption → Bool
has_option o [] = false
has_option o (p ∷ ps) = (p.id == o) || has_option o ps

-- `votes.Service` with the contents of its stores
pub record Server (V C : Type 0) : Type 0 where
  pub votes : V
  pub counters : C

-- `math.Round((v / total) * 10000) / 100`, in hundredths
abbrev pub share : ℕ → ℕ → ℕ
share v total = if ltb 0 total then (2 * (10000 * v) + total) / (2 * total) else 0

abbrev pub published : Verdict → List Payload → List Payload
published (recorded (some p)) ps = p ∷ ps
published _ ps = ps

module _ {C : Type 0} ⦃redis : VoteCounterStore C⦄ where
  -- the total of `GetOptionCounts`
  unfoldable pub total_of : C → List PollOption → ℕ
  total_of c = sum_of (λ o. redis.count c o.id)

  -- the increment and the event, once the vote is in MongoDB
  unfoldable pub count_vote : Works → Poll → C → String → C × Option Payload
  unfolding total_of
  count_vote w poll c option_id =
      let (c', n) = redis.increment c option_id in
      if w.increment
      then (
        c',
        if w.publish
            then some (record {
              poll_id = some poll.id;
              options = none;
              option_id = some option_id;
              count = n;
              total_votes = some (if w.counts then total_of c' poll.options else n);
            })
            else none,
      )
      else (c, none)

  abbrev result_entry : C → ℕ → PollOption → Entry
  result_entry c total o = record {
    option_id = some o.id;
    id = none;
    text = o.text;
    count = none;
    votes = some (redis.count c o.id);
    percentage = some (share (redis.count c o.id) total);
  }

  -- `GetResults` with Redis at work
  unfoldable pub get_results : Poll → C → Counted
  unfolding total_of
  get_results poll c = record {
    results = some (map (result_entry c (total_of c poll.options)) poll.options);
    total_votes = some (total_of c poll.options);
  }

  abbrev snapshot_entry : C → ℕ → PollOption → Entry
  snapshot_entry c total o = record (result_entry c total o) { count = some (redis.count c o.id) }

  -- the snapshot that `ServeWS` sends (backend/internal/websocket/handler.go)
  unfoldable pub snapshot : Poll → C → Payload
  unfolding total_of
  snapshot poll c = record {
    poll_id = some poll.id;
    options = some (map (snapshot_entry c (total_of c poll.options)) poll.options);
    option_id = none;
    count = 0;
    total_votes = some (total_of c poll.options);
  }

module _ {V C : Type 0} ⦃repo : VoteRepository V⦄ ⦃redis : VoteCounterStore C⦄ where
  -- the checks of a poll that is found, up to the one for duplicates
  unfoldable pub admit : Works → Poll → Server V C → Ballot → Option Refusal
  admit w poll s b =
      if poll.status == "closed"
      then some poll_closed
      else if is_after b.time poll.expires_at
      then some poll_expired
      else if not (has_option b.option_id poll.options)
      then some invalid_option
      else if not w.check
      then some vote_failed
      else if repo.has_voted s.votes b.voter_id
      then some duplicate_vote
      else none

  -- `ensureRedisInitialized`, whose own reads succeed
  unfoldable pub ensure : Works → Poll → Server V C → C
  ensure w poll s =
      if redis.has_counters s.counters || not w.initialize
      then s.counters
      else redis.initialize s.counters (map (λ o. o.id) poll.options) (repo.durable s.votes)

  -- `voteRepo.Create` by what it returns, and what follows
  abbrev pub stored : Works → Poll → Server V C → C → String → Option V → Server V C × Verdict
  stored w poll s c option_id none =
      (record { votes = s.votes; counters = c }, refused duplicate_vote)
  stored w poll s c option_id (some v) =
      let (c', event) = count_vote w poll c option_id in
      (record { votes = v; counters = c' }, recorded event)

  unfoldable pub record_vote : Works → Poll → Server V C → Ballot → Server V C × Verdict
  unfolding ensure count_vote
  record_vote w poll s b =
      let c = ensure w poll s in
      if w.create
      then stored w poll s c b.option_id (repo.create s.votes b.voter_id b.option_id)
      else (record { votes = s.votes; counters = c }, refused vote_failed)

  abbrev pub admitted : Works → Poll → Server V C → Ballot → Option Refusal → Server V C × Verdict
  admitted w poll s b none = record_vote w poll s b
  admitted w poll s b (some r) = (s, refused r)

  -- the call with the poll that `FindByID` returns
  abbrev pub found : Works → Option Poll → Server V C → Ballot → Server V C × Verdict
  found w none s b = (s, refused poll_not_found)
  found w (some poll) s b = admitted w poll s b (admit w poll s b)

  -- `CastVote`, called with the poll's ID as `poll.ID.Hex()` spells it; Server/Calls has any spelling.
  unfoldable pub cast_vote : Works → Option Poll → Server V C → Ballot → Server V C × Verdict
  unfolding admit record_vote
  cast_vote w poll s b =
      if not (truthy b.option_id) || not (truthy b.voter_id)
      then (s, refused invalid_input)
      else if not w.find
      then (s, refused vote_failed)
      else found w poll s b

  -- Calls of `CastVote` for one poll that do not overlap, and the events that are published. The
  -- increments and the publications of calls that overlap may come in different orders.
  unfoldable pub serve : Poll → Server V C → List Ballot → Server V C × List Payload
  unfolding cast_vote
  serve poll s [] = (s, [])
  serve poll s (b ∷ bs) =
      let (s', verdict) = cast_vote all_work (some poll) s b in
      let (last, ps) = serve poll s' bs in (last, published verdict ps)
