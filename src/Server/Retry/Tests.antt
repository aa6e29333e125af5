-- ===== src/Server/Retry/Tests.antt =====
-- The theorems on the retries with an association list, where the answer to one attempt is lost.
use pulsepoll_hcl_guvi.Prelude.{
  ℕ, zero, suc, ◌+◌, ◌≤◌, ◌≡◌, refl, String, Bool, true, false, some, List, [], ◌∷◌,
}
use pulsepoll_hcl_guvi.Server.Stores.{tally, counters}
use pulsepoll_hcl_guvi.Server.Retry.{
  Attempt, landed, grown, increment_with_retry, IsAnswer, retry_ends, retry_counts,
}

-- the answer to the first attempt is lost, and the second one is answered
abbrev ends : ℕ → Attempt
ends zero = Attempt.unanswered
ends (suc n) = Attempt.answered

abbrev goes_on : ℕ → Bool
goes_on n = false

abbrev one_vote : List (String × ℕ)
one_vote = ("a", 1) ∷ []

counted_twice :
    let r = increment_with_retry ends goes_on "a" 3 one_vote in
    (r.count ≡ some 3) × (tally r.counters "a" ≡ 3) × (r.waited ≡ 10)
unfolding increment_with_retry counters
counted_twice = (refl, refl, refl)

retry_ends_example :
    let r = increment_with_retry ends goes_on "a" 3 one_vote in
    (r.attempts ≤ 3) × (r.waited + 10 ≤ 80)
retry_ends_example = retry_ends ends goes_on "a" 3 one_vote

retry_counts_example :
    let r = increment_with_retry ends goes_on "a" 3 one_vote in
    let l = landed ends 0 r.attempts in
    (tally r.counters "a" ≡ grown true l 1) × IsAnswer ends goes_on "a" l r r.count
unfolding increment_with_retry counters
retry_counts_example = retry_counts ends goes_on "a" 3 one_vote "a"
