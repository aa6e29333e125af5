-- ===== src/Server/Polls.antt =====
-- backend/internal/polls/service.go: renaming, closing, reopening and deleting a poll. A request to
-- update has a question and no options, as the frontend sends it; Server/Updating.antt has any
-- request. `trim_space` is `TrimSpace` of Go; the identifiers hold no space, and may be spelled in
-- several ways.
use Prim.Native.String
use pulsepoll_hcl_guvi.Prelude.{
  ◌≡◌, String, Bool, true, not, ◌&&◌, ◌||◌, Option, none, some, List, ltb, if◌then◌else◌, ◌==◌,
}
use pulsepoll_hcl_guvi.Text.{truthy}
use pulsepoll_hcl_guvi.Results.{Payload, PollOption, Poll}

pub record Stored : Type 0 where
  pub poll : Poll
  pub creator_id : String

abbrev pub change : (Poll → Poll) → Option Stored → Option Stored
change f none = none
change f (some s) = some (record s { poll = f s.poll })

abbrev pub with_status : String → Poll → Poll
with_status st q = record q { status = st }

abbrev pub with_question : String → Poll → Poll
with_question t q = record q { question = t }

abbrev pub with_content : String → List PollOption → Poll → Poll
with_content t os q = record q { question = t; options = os }

-- `PollRepository` over a MongoDB collection `P`, of which a deleted poll is not found.
pub record PollRepository (P : Type 0) : Type 0 where
  -- the texts that `ObjectIDFromHex` reads as one ID, as hexadecimal digits in lower and upper case
  pub is_same_id : String → String → Bool
  pub find_by_id : P → String → Option Stored
  pub update : P → (id question : String) → List PollOption → P
  pub update_status : P → (id status : String) → P
  pub soft_delete : P → String → P
  pub same_refl : (i : String) → is_same_id i i ≡ true
  pub same_finds : (p : P) (i j : String) → is_same_id i j ≡ true → find_by_id p i ≡ find_by_id p j
  pub update_finds :
      (p : P) (i t : String) (os : List PollOption) (j : String)
      → find_by_id (update p i t os) j
        ≡ (if is_same_id i j then change (with_content t os) (find_by_id p j) else find_by_id p j)
  pub update_status_finds :
      (p : P) (i st j : String)
      → find_by_id (update_status p i st) j
        ≡ (if is_same_id i j then change (with_status st) (find_by_id p j) else find_by_id p j)
  pub soft_delete_finds :
      (p : P) (i j : String)
      → find_by_id (soft_delete p i) j ≡ (if is_same_id i j then none else find_by_id p j)

pub data Lapse : Type 0 where
  forbidden not_found poll_closed validation_failed write_failed : Lapse

-- What a call returns: the poll, nothing, or an error.
pub data Answer : Type 0 where
  returned : Poll → Answer
  deleted : Answer
  failed : Lapse → Answer

-- the collection, the answer, and the event that is broadcast
pub record Outcome (P : Type 0) : Type 0 where
  pub store : P
  pub answer : Answer
  pub event : Option Payload

-- `PollClosedEvent`
unfoldable pub closed_event : String → Payload
closed_event id = record {
  poll_id = some id;
  options = none;
  option_id = none;
  count = 0;
  total_votes = none;
}

module _ {P : Type 0} ⦃repo : PollRepository P⦄ where
  abbrev pub fail : P → Lapse → Outcome P
  fail p l = record { store = p; answer = failed l; event = none }

  abbrev pub rename :
      P → (writes : Bool) → (creator id question : String) → Option Stored → Outcome P
  rename p writes creator id question none = fail p not_found
  rename p writes creator id question (some s) =
      if not (s.creator_id == creator)
      then fail p forbidden
      else if s.poll.status == "closed"
      then fail p poll_closed
      else if ltb (String.len question) 3 || ltb 255 (String.len question)
      then fail p validation_failed
      else if not writes
      then fail p write_failed
      else record {
        store = repo.update p id question s.poll.options;
        answer = returned (with_question question s.poll);
        event = none;
      }

  -- `UpdatePoll`
  unfoldable pub update_poll :
      (String → String) → (writes : Bool) → (creator id question : String) → P → Outcome P
  update_poll trim_space writes creator id question p =
      if not (truthy creator)
      then fail p forbidden
      else if not (truthy id)
      then fail p not_found
      else rename p writes creator id (trim_space question) (repo.find_by_id p id)

  abbrev pub turn : P → (writes : Bool) → (creator id status : String) → Option Stored → Outcome P
  turn p writes creator id status none = fail p not_found
  turn p writes creator id status (some s) =
      if not (s.creator_id == creator)
      then fail p forbidden
      else if s.poll.status == status
      then record { store = p; answer = returned s.poll; event = none }
      else if not writes
      then fail p write_failed
      else record {
        store = repo.update_status p id status;
        answer = returned (with_status status s.poll);
        event = if status == "closed" then some (closed_event id) else none;
      }

  -- `UpdateStatus`
  unfoldable pub set_status : (writes : Bool) → (creator id status : String) → P → Outcome P
  unfolding closed_event
  set_status writes creator id status p =
      if not (truthy creator)
      then fail p forbidden
      else if not (truthy id)
      then fail p not_found
      else if not (status == "active") && not (status == "closed")
      then fail p validation_failed
      else turn p writes creator id status (repo.find_by_id p id)

  -- `ClosePoll`
  unfoldable pub close_poll : (writes : Bool) → (creator id : String) → P → Outcome P
  unfolding set_status
  close_poll writes creator id p = set_status writes creator id "closed" p

  abbrev pub remove : P → (writes : Bool) → (creator id : String) → Option Stored → Outcome P
  remove p writes creator id none = fail p not_found
  remove p writes creator id (some s) =
      if not (s.creator_id == creator)
      then fail p forbidden
      else if not writes
      then fail p write_failed
      else record { store = repo.soft_delete p id; answer = deleted; event = none }

  -- `DeletePoll`
  unfoldable pub delete_poll : (writes : Bool) → (creator id : String) → P → Outcome P
  delete_poll writes creator id p =
      if not (truthy creator)
      then fail p forbidden
      else if not (truthy id)
      then fail p not_found
      else remove p writes creator id (repo.find_by_id p id)
