-- ===== src/Server/Redis.antt =====
-- backend/internal/votes/redis_repository.go: `RedisVoteRepository`, the counters of a poll in one Redis
-- hash. The commands on the hash are an interface with what Redis documents of them. The
-- fields are written by HSETNX and HINCRBY only, thus numbers; the expiry after 30 days is left out.
mod Counts
mod Recorded
mod Recovery
mod Tests
use pulsepoll_hcl_guvi.Prelude.{
  ℕ, ◌+◌, ◌≡◌, refl, ap, ◌∙◌, String, Bool, true, Option, none, some, List, [], ◌∷◌, arith, eq_iff,
  ◌==◌, if◌then◌else◌,
}
use pulsepoll_hcl_guvi.Server.{VoteCounterStore}

abbrev pub or_zero : Option ℕ → ℕ
or_zero none = 0
or_zero (some n) = n

abbrev pub is_some : Option ℕ → Bool
is_some none = Bool.false
is_some (some n) = true

abbrev pub or_number : Option ℕ → ℕ → ℕ
or_number none n = n
or_number (some m) n = m

-- EXISTS, HGETALL by field, HSETNX, HINCRBY by 1 and DEL of a hash `H`
pub record HashCommands (H : Type 0) : Type 0 where
  pub exists : H → Bool
  pub hget : H → (field : String) → Option ℕ
  pub hsetnx : H → (field : String) → ℕ → H
  pub hincr : H → (field : String) → H × ℕ
  pub del : H → H
  pub hget-hsetnx :
      (h : H) (field q : String) (n : ℕ)
      → hget (hsetnx h field n) q ≡ (if field == q then some (or_number (hget h q) n) else hget h q)
  pub hget-hincr :
      (h : H) (field q : String)
      → hget (hincr h field).0 q ≡ (if field == q then some (or_zero (hget h q) + 1) else hget h q)
  pub hincr_returns :
      (h : H) (field : String) → (hincr h field).1 ≡ or_zero (hget (hincr h field).0 field)
  pub hincr_exists : (h : H) (field : String) → exists (hincr h field).0 ≡ true
  pub del_exists : (h : H) → exists (del h) ≡ Bool.false
  -- a hash that does not exist has no field
  pub hget_absent : (h : H) (q : String) → exists h ≡ Bool.false → hget h q ≡ none

module _ {H : Type 0} ⦃redis : HashCommands H⦄ where
  -- `IncrementVote`
  unfoldable pub increment_vote : H → String → H × ℕ
  increment_vote h option_id = redis.hincr h option_id

  -- `GetOptionCounts` by the counts so far and their total
  unfoldable pub count_options : H → List String → List (String × ℕ) × ℕ
  count_options h [] = ([], 0)
  count_options h (o ∷ os) =
      let (counts, total) = count_options h os in
      let n = or_zero (redis.hget h o) in ((o, n) ∷ counts, n + total)

  -- `InitializeCounters`, for the counts of the options
  unfoldable pub initialize_counters : H → List String → (String → ℕ) → H
  initialize_counters h [] initial = h
  initialize_counters h (o ∷ os) initial =
      initialize_counters (redis.hsetnx h o (initial o)) os initial

  -- `ResetCounters`
  unfoldable pub reset_counters : H → H
  reset_counters h = redis.del h

  -- `HasCounters`
  unfoldable pub has_counters : H → Bool
  has_counters h = redis.exists h

  -- the count of an option in what `GetOptionCounts` returns
  abbrev pub counted : H → String → ℕ
  counted h o = or_zero (redis.hget h o)

  pub counted-increment :
      (h : H) (o q : String)
      → counted (increment_vote h o).0 q ≡ (if o == q then counted h q + 1 else counted h q)
  unfolding increment_vote
  counted-increment h o q = ground (arith, redis.hget-hincr h o q)

  pub has_counters-increment : (h : H) (o : String) → has_counters (increment_vote h o).0 ≡ true
  unfolding increment_vote has_counters
  has_counters-increment h o = redis.hincr_exists h o

  pub increment_vote-returns :
      (h : H) (o : String) → (increment_vote h o).1 ≡ counted (increment_vote h o).0 o
  unfolding increment_vote
  increment_vote-returns h o = redis.hincr_returns h o

  -- the repository as the store of the counters
  instance unfoldable pub redis_votes : VoteCounterStore H
  redis_votes = record {
    has_counters = has_counters;
    initialize = initialize_counters;
    increment = increment_vote;
    count = counted;
    increment_counts = counted-increment;
    increment_returns = increment_vote-returns;
    increment_exists = has_counters-increment;
  }
