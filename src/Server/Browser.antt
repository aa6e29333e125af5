-- ===== src/Server/Browser.antt =====
-- backend/internal/votes/voter.go: `GetOrCreateVoterID`, and the votes of a browser that keeps its cookie.
-- `trim_space` is `TrimSpace` of Go, and `fresh` what `GenerateVoterID` makes; `len` counts bytes.
-- The attributes of the cookie and the header of the answer are left out.
mod Votes
mod Tests
use Prim.Native.String
use pulsepoll_hcl_guvi.Prelude.{
  ℕ, ◌+◌, String, Bool, true, false, not, ◌&&◌, Option, none, some, List, [], ◌∷◌, ltb,
  if◌then◌else◌,
}
use pulsepoll_hcl_guvi.Text.{truthy}
use pulsepoll_hcl_guvi.Results.{Poll}
use pulsepoll_hcl_guvi.Server.{VoteRepository, VoteCounterStore, Works, Verdict, refused, recorded}
use pulsepoll_hcl_guvi.Server.Calls.{Service}
use pulsepoll_hcl_guvi.Server.Voters.{Request, whole, handle}

-- the voter of a request, and whether the answer sets the cookie to it
pub record Voter : Type 0 where
  pub id : String
  pub sets_cookie : Bool

-- A visit casts a vote for an option of the poll that `FindByID` returns; `is_answered` tells whether the
-- browser has the answer before it sends its next request.
pub record Visit : Type 0 where
  pub works : Works
  pub poll : Option Poll
  pub option_id : String
  pub time : ℕ
  pub is_answered : Bool
  pub fresh : String

abbrev pub is_voter_id : String → Bool
is_voter_id s = truthy s && not (ltb (String.len s) 16) && not (ltb 64 (String.len s))

abbrev pub or_empty : Option String → String
or_empty none = ""
or_empty (some s) = s

module _ (trim_space : String → String) where
  abbrev pub by_cookie : Option String → (fresh : String) → Voter
  by_cookie none fresh = record { id = fresh; sets_cookie = true }
  by_cookie (some c) fresh =
      if is_voter_id (trim_space c)
      then record { id = trim_space c; sets_cookie = false }
      else record { id = fresh; sets_cookie = true }

  -- `GetOrCreateVoterID`, for the header X-Voter-ID and the cookie
  unfoldable pub get_or_create_voter_id : (header cookie : Option String) → (fresh : String) → Voter
  get_or_create_voter_id header cookie fresh =
      if is_voter_id (trim_space (or_empty header))
      then record { id = trim_space (or_empty header); sets_cookie = false }
      else by_cookie cookie fresh

  -- the requests of a browser for one `poll_id`, without the header; the browser keeps the cookies that
  -- it gets
  unfoldable pub browse : (poll_id : String) → Option String → List Visit → List Request
  unfolding get_or_create_voter_id
  browse i cookie [] = []
  browse i cookie (v ∷ vs) =
      let voter = get_or_create_voter_id none cookie v.fresh in
      whole v.works v.poll i
        (record { option_id = v.option_id; voter_id = voter.id; time = v.time })
      ∷ browse i (if voter.sets_cookie && v.is_answered then some voter.id else cookie) vs

abbrev pub is_recorded : Verdict → ℕ
is_recorded (recorded _) = 1
is_recorded (refused _) = 0

-- the votes that are recorded in a run, of any voter
unfoldable pub votes_cast :
    {V C : Type 0} ⦃repo : VoteRepository V⦄ ⦃redis : VoteCounterStore C⦄
    → Service V C
    → List Request
    → ℕ
unfolding handle
votes_cast s [] = 0
votes_cast s (q ∷ qs) = let (t, verdict) = handle s q in is_recorded verdict + votes_cast t qs
