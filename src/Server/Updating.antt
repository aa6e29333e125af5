-- ===== src/Server/Updating.antt =====
-- backend/internal/polls/service.go `UpdatePoll`, for a request that has a question, options, or both.
use Prim.Native.String
use pulsepoll_hcl_guvi.Prelude.{
  ◌≡◌, refl, String, Bool, true, false, not, ◌||◌, Option, none, some, List, [], ltb, if◌then◌else◌,
  ◌==◌,
}
use pulsepoll_hcl_guvi.Text.{truthy}
use pulsepoll_hcl_guvi.Results.{Poll}
use pulsepoll_hcl_guvi.Server.Polls.{
  Stored, PollRepository, Outcome, fail, forbidden, not_found, poll_closed, validation_failed,
  write_failed, returned, rename, update_poll,
}
use pulsepoll_hcl_guvi.Server.Editing.{UpdateOption, Edited, rejected, edited, edit_options}

-- `UpdatePollRequest`
pub record UpdateRequest : Type 0 where
  pub question : Option String
  pub options : List UpdateOption

abbrev is_bare : Option String → List UpdateOption → Bool
is_bare none [] = true
is_bare _ _ = false

module _ (trim_space to_lower : String → String) where
  -- the part for the question; `none` is an error
  abbrev edit_question : Poll → Option String → Option Poll
  edit_question q none = some q
  edit_question q (some text) =
      let t = trim_space text in
      if ltb (String.len t) 3 || ltb 255 (String.len t)
      then none
      else some (record q { question = t })

  abbrev take_options : Poll → Edited → Option Poll
  take_options q (rejected p) = none
  take_options q (edited os) = some (record q { options = os })

  abbrev then_options : List UpdateOption → Option Poll → Option Poll
  then_options us none = none
  then_options us (some q) = take_options q (edit_options trim_space to_lower q.options us)

  -- `validateAndUpdatePoll`
  unfoldable pub validate_and_update : Poll → UpdateRequest → Option Poll
  validate_and_update q r =
      if is_bare r.question r.options
      then none
      else then_options r.options (edit_question q r.question)

module _ {P : Type 0} ⦃repo : PollRepository P⦄ where
  abbrev pub write : P → (writes : Bool) → (id : String) → Option Poll → Outcome P
  write p writes id none = fail p validation_failed
  write p writes id (some q) = if not writes then fail p write_failed else record {
    store = repo.update p id q.question q.options;
    answer = returned q;
    event = none;
  }

module _ {P : Type 0} ⦃repo : PollRepository P⦄ (trim_space to_lower : String → String) where
  abbrev pub edit_found :
      P → (writes : Bool) → (creator id : String) → UpdateRequest → Option Stored → Outcome P
  edit_found p writes creator id r none = fail p not_found
  edit_found p writes creator id r (some s) =
      if not (s.creator_id == creator)
      then fail p forbidden
      else if s.poll.status == "closed"
      then fail p poll_closed
      else write p writes id (validate_and_update trim_space to_lower s.poll r)

  -- `UpdatePoll`
  unfoldable pub edit_poll : (writes : Bool) → (creator id : String) → UpdateRequest → P → Outcome P
  unfolding validate_and_update
  edit_poll writes creator id r p =
      if not (truthy creator)
      then fail p forbidden
      else if not (truthy id)
      then fail p not_found
      else edit_found p writes creator id r (repo.find_by_id p id)

  write-if :
      (p : P) (writes : Bool) (id : String) (b : Bool) (q : Poll)
      → write p writes id (then_options trim_space to_lower [] (if b then none else some q))
        ≡ (if b then fail p validation_failed else write p writes id (some q))
  unfolding edit_options
  write-if p writes id true q = refl
  write-if p writes id false q = refl

  found-rename :
      (p : P) (writes : Bool) (creator id text : String) (o : Option Stored)
      → edit_found p writes creator id (record { question = some text; options = [] }) o
        ≡ rename p writes creator id (trim_space text) o
  unfolding validate_and_update
  found-rename p writes creator id text none = refl
  found-rename p writes creator id text (some s) =
      let t = trim_space text in
      rw
        (write-if p writes id (ltb (String.len t) 3 || ltb 255 (String.len t))
          (record s.poll { question = t }))
        refl

  -- A request with a question and no options is the renaming of Server/Polls.
  edit_poll-question :
      (p : P) (writes : Bool) (creator id text : String)
      → edit_poll writes creator id (record { question = some text; options = [] }) p
        ≡ update_poll trim_space writes creator id text p
  unfolding edit_poll update_poll
  edit_poll-question p writes creator id text =
      rw (found-rename p writes creator id text (repo.find_by_id p id)) refl
