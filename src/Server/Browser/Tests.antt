-- ===== src/Server/Browser/Tests.antt =====
-- The theorem on a browser that comes without a cookie and tries to vote twice.
use pulsepoll_hcl_guvi.Prelude.{
  ℕ, ◌≤◌, ◌≡◌, refl, String, Bool, true, false, none, some, List, [], ◌∷◌,
}
use pulsepoll_hcl_guvi.Results.{Poll}
use pulsepoll_hcl_guvi.Server.{all_work, admit}
use pulsepoll_hcl_guvi.Server.Calls.{Service, cast_by_id}
use pulsepoll_hcl_guvi.Server.Stores.{Vote, votes, counters}
use pulsepoll_hcl_guvi.Server.Voters.{handle}
use pulsepoll_hcl_guvi.Server.Browser.{Visit, browse, votes_cast}
use pulsepoll_hcl_guvi.Server.Browser.Votes.{one_vote_per_browser}

abbrev same : String → String
same s = s

abbrev lunch : Poll
lunch = record {
  id = "p1";
  question = "Where to eat?";
  options = record { id = "a"; text = "Thai" } ∷ record { id = "b"; text = "Pizza" } ∷ [];
  status = "active";
  created_at = none;
  expires_at = none;
}

abbrev nobody : Service (List Vote) (List (String × ℕ))
nobody = record { votes_of = λ i. []; hash_of = λ i. ("a", 0) ∷ [] }

abbrev visit : String → (is_answered : Bool) → String → Visit
visit o is_answered fresh = record {
  works = all_work;
  poll = some lunch;
  option_id = o;
  time = 5;
  is_answered = is_answered;
  fresh = fresh;
}

abbrev visits : Bool → List Visit
visits is_answered =
    visit "a" is_answered "0123456789abcdef" ∷ visit "b" true "fedcba9876543210" ∷ []

-- The second of two requests has the cookie, or overtakes the answer that sets it.
voted_once :
    (votes_cast nobody (browse same "p1" none (visits true)) ≡ 1)
    × (votes_cast nobody (browse same "p1" none (visits false)) ≡ 2)
unfolding votes_cast browse cast_by_id votes counters handle admit
voted_once = (refl, refl)

one_vote_per_browser_example : votes_cast nobody (browse same "p1" none (visits true)) ≤ 1
one_vote_per_browser_example =
    one_vote_per_browser same refl "p1" nobody none (visits true)
      ((refl, refl, refl), ((refl, refl, refl), tt))
