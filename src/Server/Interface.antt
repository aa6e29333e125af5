-- ===== src/Server/Interface.antt =====
-- The stores of backend/internal/votes: `VoteRepository` over a MongoDB collection `V` of the votes
-- of a poll, and `VoteCounterStore` over a Redis hash `C` of its counters.
use pulsepoll_hcl_guvi.Prelude.{
  ℕ, ◌+◌, ◌≡◌, String, Bool, true, Option, none, some, List, if◌then◌else◌, ◌==◌,
}

pub record VoteRepository (V : Type 0) : Type 0 where
  pub has_voted : V → (voter : String) → Bool
  -- `none` is the error of the unique index
  pub create : V → (voter option : String) → Option V
  pub durable : V → (option : String) → ℕ
  pub create_unique :
      (v : V) (voter option : String) → has_voted v voter ≡ true → create v voter option ≡ none
  pub create_stores :
      (v w : V) (voter option : String)
      → create v voter option ≡ some w
      → (has_voted w voter ≡ true)
        × ((u : String) → has_voted v u ≡ true → has_voted w u ≡ true)
        × ((q : String) → durable w q ≡ (if option == q then durable v q + 1 else durable v q))

pub record VoteCounterStore (C : Type 0) : Type 0 where
  pub has_counters : C → Bool
  pub initialize : C → List String → (String → ℕ) → C
  pub increment : C → (option : String) → C × ℕ
  pub count : C → (option : String) → ℕ
  pub increment_counts :
      (c : C) (option q : String)
      → count (increment c option).0 q ≡ (if option == q then count c q + 1 else count c q)
  pub increment_returns :
      (c : C) (option : String) → (increment c option).1 ≡ count (increment c option).0 option
  pub increment_exists : (c : C) (option : String) → has_counters (increment c option).0 ≡ true
