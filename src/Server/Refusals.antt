-- ===== src/Server/Refusals.antt =====
-- The errors of a vote from backend/internal/votes/handler.go, by way of `request`, to the voting
-- page.
use pulsepoll_hcl_guvi.Prelude.{
  ℕ, ◌≡◌, refl, ap, ◌∙◌, String, Bool, true, false, not, ◌&&◌, ◌||◌, some, map, if◌then◌else◌,
  arith,
}
use pulsepoll_hcl_guvi.Text.{includes}
use pulsepoll_hcl_guvi.Text.Ascii.{
  codes, is_ascii, lower_code, LowersAscii, includes_codes, includes-codes,
}
use pulsepoll_hcl_guvi.Json.{str, obj, field, end, to_string}
use pulsepoll_hcl_guvi.Client.{
  Response, answered, ApiError, thrown, settle, read_body, http_error, envelope, friendly,
}
use pulsepoll_hcl_guvi.Auth.{Failure, error}
use pulsepoll_hcl_guvi.PublicPollPage.{Page, vote_arrived}
use pulsepoll_hcl_guvi.PublicPollPage.Submit.{
  is_duplicate, means_closed, means_expired, vote_arrived_lem,
}
use pulsepoll_hcl_guvi.Server.{
  Refusal, invalid_input, poll_not_found, poll_closed, poll_expired, invalid_option, duplicate_vote,
  vote_failed,
}

abbrev pub status_of : Refusal → ℕ
status_of invalid_input = 400
status_of poll_not_found = 404
status_of poll_closed = 409
status_of poll_expired = 409
status_of invalid_option = 400
status_of duplicate_vote = 409
status_of vote_failed = 500

abbrev pub code_of : Refusal → String
code_of invalid_input = "VALIDATION_FAILED"
code_of poll_not_found = "POLL_NOT_FOUND"
code_of poll_closed = "POLL_CLOSED"
code_of poll_expired = "POLL_EXPIRED"
code_of invalid_option = "INVALID_OPTION"
code_of duplicate_vote = "DUPLICATE_VOTE"
code_of vote_failed = "VOTE_FAILED"

abbrev pub message_of : Refusal → String
message_of invalid_input = "invalid vote payload"
message_of poll_not_found = "Poll not found"
message_of poll_closed = "This poll is closed and no longer accepting votes."
message_of poll_expired = "This poll has expired and is no longer accepting votes."
message_of invalid_option = "Option does not belong to this poll"
message_of duplicate_vote = "You have already voted in this poll"
message_of vote_failed = "Failed to record vote"

-- `response.Error` of backend/internal/response
unfoldable pub respond : Refusal → Response
respond r = record {
  status = status_of r;
  content_type = some "application/json; charset=utf-8";
  body = some (
      obj (
        field "error"
          (obj (field "code" (str (code_of r)) (field "message" (str (message_of r)) end))) end));
}

-- what the `catch` of the page reads of the error
abbrev pub failure_of : ApiError → Failure
failure_of e = record { message = e.message; status = e.status; code = to_string e.code }

abbrev pub failure : Refusal → Failure
failure r = record { message = message_of r; status = status_of r; code = code_of r }

error_of : Refusal → ApiError
error_of r = record {
  message = message_of r;
  status = status_of r;
  code = str (code_of r);
  raw = obj (
      field "error"
        (obj (field "code" (str (code_of r)) (field "message" (str (message_of r)) end))) end);
}

settle-respond : (r : Refusal) → settle (answered (respond r)) ≡ thrown (error_of r)
unfolding settle respond error_of http_error envelope friendly includes read_body to_string
settle-respond invalid_input = refl
settle-respond poll_not_found = refl
settle-respond poll_closed = refl
settle-respond poll_expired = refl
settle-respond invalid_option = refl
settle-respond duplicate_vote = refl
settle-respond vote_failed = refl

failure-error_of : (r : Refusal) → failure_of (error_of r) ≡ failure r
unfolding error_of to_string
failure-error_of r = refl

abbrev pub is_duplicate_vote : Refusal → Bool
is_duplicate_vote duplicate_vote = true
is_duplicate_vote _ = false

abbrev pub is_poll_closed : Refusal → Bool
is_poll_closed poll_closed = true
is_poll_closed _ = false

abbrev pub is_poll_expired : Refusal → Bool
is_poll_expired poll_expired = true
is_poll_expired _ = false

message-ascii : (r : Refusal) → is_ascii (message_of r) ≡ true
message-ascii invalid_input = refl
message-ascii poll_not_found = refl
message-ascii poll_closed = refl
message-ascii poll_expired = refl
message-ascii invalid_option = refl
message-ascii duplicate_vote = refl
message-ascii vote_failed = refl

module _ (lower : String → String) (lowers : LowersAscii lower) where
  includes-lower :
      (s p : String)
      → is_ascii s ≡ true
      → includes (lower s) p ≡ includes_codes (map lower_code (codes s)) (codes p)
  includes-lower s p h =
      includes-codes (lower s) p ∙ ap (λ ns. includes_codes ns (codes p)) (lowers s h)

  find :
      (r : Refusal) (p : String)
      → includes (lower (message_of r)) p
        ≡ includes_codes (map lower_code (codes (message_of r))) (codes p)
  find r p = includes-lower (message_of r) p (message-ascii r)

  -- the three tests of the page at an error of the server
  tests :
      (r : Refusal)
      → (is_duplicate lower (failure r) ≡ is_duplicate_vote r)
        × ((not (is_duplicate lower (failure r)) && means_closed lower (failure r))
            ≡ is_poll_closed r)
        × ((not (is_duplicate lower (failure r))
              && not (means_closed lower (failure r))
              && means_expired lower (failure r))
            ≡ is_poll_expired r)
  tests invalid_input =
      rw
        (
          find invalid_input "already voted",
          find invalid_input "closed",
          find invalid_input "expired",
        )
        (refl, refl, refl)
  tests poll_not_found =
      rw
        (
          find poll_not_found "already voted",
          find poll_not_found "closed",
          find poll_not_found "expired",
        )
        (refl, refl, refl)
  tests poll_closed = rw (find poll_closed "already voted") (refl, refl, refl)
  tests poll_expired =
      rw (find poll_expired "already voted", find poll_expired "closed") (refl, refl, refl)
  tests invalid_option =
      rw
        (
          find invalid_option "already voted",
          find invalid_option "closed",
          find invalid_option "expired",
        )
        (refl, refl, refl)
  tests duplicate_vote = (refl, refl, refl)
  tests vote_failed =
      rw (find vote_failed "already voted", find vote_failed "closed", find vote_failed "expired")
        (refl, refl, refl)

  -- With a `lower` that lowers ASCII texts: each error with which the server refuses a vote is thrown
  -- by `request`, and leaves the page voting no more; the page has voted, is closed, or is expired
  -- afterwards exactly if it was so before or the server refused the vote as a duplicate, for the
  -- closed poll, or for the expired one; and localStorage remembers the vote after a duplicate only.
  pub refusal_reaches_page :
      (r : Refusal) (o : String) (p : Page)
      → (e : ApiError) × (settle (answered (respond r)) ≡ thrown e)
        × let q = vote_arrived lower o (error (failure_of e)) p in
          (q.is_voting ≡ false)
          × (q.has_voted ≡ (is_duplicate_vote r || p.has_voted))
          × (q.stored ≡ (if is_duplicate_vote r then some o else p.stored))
          × (q.is_closed ≡ (p.is_closed || is_poll_closed r))
          × (q.is_expired ≡ (p.is_expired || is_poll_expired r))
  refusal_reaches_page r o p = (
    error_of r,
    settle-respond r,
    rw (failure-error_of r) (ground (arith, vote_arrived_lem lower o (failure r) p, tests r)),
  )
