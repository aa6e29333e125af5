-- ===== src/Server/Calls/Tests.antt =====
-- The theorems on calls by ID at association lists, with a poll that is found by two texts.
use pulsepoll_hcl_guvi.Prelude.{
  ℕ, ◌≤◌, ◌≡◌, refl, String, ◌||◌, Option, none, some, List, [], ◌∷◌, if◌then◌else◌, ◌==◌,
}
use pulsepoll_hcl_guvi.Results.{Poll}
use pulsepoll_hcl_guvi.Server.{all_work, Ballot, admit}
use pulsepoll_hcl_guvi.Server.Stores.{Vote, voted_in, votes, counters}
use pulsepoll_hcl_guvi.Server.Calls.{Service, cast_by_id}
use pulsepoll_hcl_guvi.Server.Calls.Twice.{IsRecording, IsTaken, two_spellings_vote_twice}
use pulsepoll_hcl_guvi.Server.Voters.{
  Request, whole, late, handle, votes_recorded, one_vote_per_voter,
}

abbrev lunch : Poll
lunch = record {
  id = "6f";
  question = "Where to eat?";
  options = record { id = "a"; text = "Thai" } ∷ record { id = "b"; text = "Pizza" } ∷ [];
  status = "active";
  created_at = none;
  expires_at = some 900;
}

abbrev find : String → Option Poll
find i = if (i == "6f") || (i == "6F") then some lunch else none

abbrev ballot : String → String → Ballot
ballot u o = record { option_id = o; voter_id = u; time = 5 }

abbrev before : Service (List Vote) (List (String × ℕ))
before = record {
  votes_of = λ i. if i == "6f" then record { voter = "ada"; option = "a" } ∷ [] else [];
  hash_of = λ i. if i == "6f" then ("a", 1) ∷ [] else [];
}

-- two requests of one voter, both past their checks, and one from the start
abbrev requests : List Request
requests =
    late all_work lunch "6f" (ballot "bob" "a")
    ∷ late all_work lunch "6f" (ballot "bob" "b")
    ∷ whole all_work (some lunch) "6f" (ballot "bob" "b")
    ∷ []

call_functions : Unit {0}
unfolding votes counters cast_by_id admit handle votes_recorded
call_functions = tt

requests_test : votes_recorded "6f" "bob" before requests ≡ 1
unfolding call_functions
requests_test = refl

one_vote_per_voter_example :
    votes_recorded "6f" "bob" before requests
    ≤ (if voted_in (before.votes_of "6f") "bob" then 0 else 1)
unfolding call_functions
one_vote_per_voter_example = one_vote_per_voter "6f" "bob" before requests

lower_IsTaken : IsTaken lunch before "6f" (ballot "bob" "a")
unfolding call_functions
lower_IsTaken = record {
  id_named = refl;
  option_named = refl;
  voter_named = refl;
  is_admitted = refl;
  votes = record { voter = "bob"; option = "a" } ∷ before.votes_of "6f";
  is_stored = refl;
}

upper_IsTaken : IsTaken lunch before "6F" (ballot "bob" "b")
unfolding call_functions
upper_IsTaken = record {
  id_named = refl;
  option_named = refl;
  voter_named = refl;
  is_admitted = refl;
  votes = record { voter = "bob"; option = "b" } ∷ [];
  is_stored = refl;
}

two_spellings_vote_twice_example :
    let (t, first) = cast_by_id all_work (find "6f") before "6f" (ballot "bob" "a") in
    IsRecording first × IsRecording (cast_by_id all_work (find "6F") t "6F" (ballot "bob" "b")).1
two_spellings_vote_twice_example =
    two_spellings_vote_twice find lunch before "6f" "6F" (ballot "bob" "a") "b" 5 refl refl refl
      lower_IsTaken upper_IsTaken
