-- ===== src/Server/Stores.antt =====
-- Stores to test with: the votes as a list, and the counters as an association list.
use pulsepoll_hcl_guvi.Prelude.{
  ℕ, ◌+◌, ◌≡◌, refl, subst, String, Bool, true, false, ◌||◌, none, some, List, [], ◌∷◌, arith,
  eq_iff, eq_refl, ◌==◌, if◌then◌else◌,
}
use pulsepoll_hcl_guvi.Server.{VoteRepository, VoteCounterStore}

pub record Vote : Type 0 where
  pub voter : String
  pub option : String

abbrev pub voted_in : List Vote → String → Bool
voted_in [] u = false
voted_in (v ∷ vs) u = (v.voter == u) || voted_in vs u

abbrev pub held : List Vote → String → ℕ
held [] q = 0
held (v ∷ vs) q = if v.option == q then held vs q + 1 else held vs q

pub taken-eq : (k : Bool) (vs ws : List Vote) → (if k then none else some vs) ≡ some ws → vs ≡ ws
taken-eq true vs ws h = cc
taken-eq false vs ws h = cc

instance unfoldable pub votes : VoteRepository (List Vote)
votes = record {
  has_voted = voted_in;
  create = λ vs u o. if voted_in vs u then none else some (record { voter = u; option = o } ∷ vs);
  durable = held;
  create_unique = λ vs u o h. rw h refl;
  create_stores = λ vs ws u o h.
      subst
        (λ xs.
          (voted_in xs u ≡ true)
          × ((w : String) → voted_in vs w ≡ true → voted_in xs w ≡ true)
          × ((q : String) → held xs q ≡ (if o == q then held vs q + 1 else held vs q)))
        (taken-eq (voted_in vs u) (record { voter = u; option = o } ∷ vs) ws h)
        (ground (arith, eq_refl u), λ w k. ground (arith, k), λ q. refl);
}

abbrev pub tally : List (String × ℕ) → String → ℕ
tally [] q = 0
tally ((o, n) ∷ c) q = if o == q then n else tally c q

abbrev pub one_more : List (String × ℕ) → String → List (String × ℕ)
one_more c o = (o, tally c o + 1) ∷ c

abbrev pub is_cons : List (String × ℕ) → Bool
is_cons [] = false
is_cons (_ ∷ _) = true

abbrev pub from_counts : List (String × ℕ) → List String → (String → ℕ) → List (String × ℕ)
from_counts c [] f = c
from_counts c (o ∷ os) f = (o, f o) ∷ from_counts c os f

pub one_more-tally :
    (c : List (String × ℕ)) (o q : String)
    → tally (one_more c o) q ≡ (if o == q then tally c q + 1 else tally c q)
one_more-tally c o q = ground (arith, eq_iff o q)

instance unfoldable pub counters : VoteCounterStore (List (String × ℕ))
counters = record {
  has_counters = is_cons;
  initialize = from_counts;
  increment = λ c o. (one_more c o, tally c o + 1);
  count = tally;
  increment_counts = one_more-tally;
  increment_returns = λ c o. ground (arith, eq_refl o);
  increment_exists = λ c o. refl;
}
