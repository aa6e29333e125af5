-- ===== src/PublicPollPage/Submit.antt =====
-- When a vote is sent, and what the answers to it do.
use pulsepoll_hcl_guvi.Prelude.{
  String, Bool, true, false, ◌≡◌, ◌⊎◌, none, some, arith, ◌==◌, ◌||◌, ◌&&◌, not, if◌then◌else◌,
}
use pulsepoll_hcl_guvi.Text.{truthy, includes}
use pulsepoll_hcl_guvi.Api
use pulsepoll_hcl_guvi.Auth.{ok, error, Failure}
use pulsepoll_hcl_guvi.PublicPollPage.{Page, handle_submit, vote_arrived}

-- A submission sends the vote for the selected option exactly if an option is selected and the
-- poll is neither closed nor expired, and the page is voting then. Otherwise nothing is sent,
-- nothing but the two messages changes, and the error says why: a missing selection first, then
-- the closed poll, then the expired one.
pub handle_submit_lem :
    (p : Page)
    → let (q, call) = handle_submit p in
      ((truthy p.selected ≡ true)
        × (p.is_closed ≡ false)
        × (p.is_expired ≡ false)
        × (call ≡ some (Api.cast_vote p.poll_id p.selected))
        × (q.is_voting ≡ true))
      ⊎ ((call ≡ none)
          × (q ≡ record p { vote_error = q.vote_error; vote_success = "" })
          × (((truthy p.selected ≡ false)
                × (q.vote_error ≡ "Please select an option before casting your vote."))
              ⊎ ((truthy p.selected ≡ true)
                  × (p.is_closed ≡ true)
                  × (q.vote_error ≡ "Voting is closed."))
              ⊎ ((truthy p.selected ≡ true)
                  × (p.is_closed ≡ false)
                  × (p.is_expired ≡ true)
                  × (q.vote_error ≡ "This poll has expired."))))
unfolding handle_submit
handle_submit_lem p = ground arith

-- What the server's refusal of a vote says, by its code or by its message.
abbrev pub is_duplicate : (String → String) → Failure → Bool
is_duplicate lower e = (e.code == "DUPLICATE_VOTE") || includes (lower e.message) "already voted"

abbrev pub means_closed : (String → String) → Failure → Bool
means_closed lower e = (e.code == "POLL_CLOSED") || includes (lower e.message) "closed"

abbrev pub means_expired : (String → String) → Failure → Bool
means_expired lower e = (e.code == "POLL_EXPIRED") || includes (lower e.message) "expired"

-- The answer to a vote: a success and a duplicate both leave the page and localStorage with this
-- vote; any other refusal keeps the vote that they had. The page is closed or expired afterwards
-- exactly if it was so before or the refusal says so, a duplicate before a closed poll before an
-- expired one. In each case the page is voting no more.
pub vote_arrived_lem :
    (lower : String → String) (o : String) (e : Failure) (p : Page)
    → let given = vote_arrived lower o (ok tt) p in
      let refusal = vote_arrived lower o (error e) p in
      let again = is_duplicate lower e in
      (given.is_voting ≡ false)
      × (refusal.is_voting ≡ false)
      × (given.has_voted ≡ true)
      × (given.user_voted ≡ some o)
      × (given.stored ≡ some o)
      × (given.is_closed ≡ p.is_closed)
      × (given.is_expired ≡ p.is_expired)
      × (refusal.has_voted ≡ (again || p.has_voted))
      × (refusal.user_voted ≡ (if again then some o else p.user_voted))
      × (refusal.stored ≡ (if again then some o else p.stored))
      × (refusal.is_closed ≡ (p.is_closed || (not again && means_closed lower e)))
      × (refusal.is_expired
          ≡ (p.is_expired || (not again && not (means_closed lower e) && means_expired lower e)))
unfolding vote_arrived
vote_arrived_lem lower o e p = ground arith
