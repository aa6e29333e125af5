-- ===== src/Server/Retry.antt =====
-- backend/internal/votes/service.go: `incrementRedisWithRetry`. How each attempt ends, and whether the
-- context is done before the next one, are inputs.
mod Tests
use pulsepoll_hcl_guvi.Prelude.{
  ℕ, zero, suc, ◌+◌, ◌*◌, ◌^◌, ◌≤◌, ◌≡◌, ◌∙◌, ap, refl, String, Bool, true, false, Option, none,
  some, arith, ◌==◌, eq_refl, if◌then◌else◌, Bool-cases, inl, inr,
}
use pulsepoll_hcl_guvi.Server.{VoteCounterStore}

-- An attempt is answered, or it fails: before Redis carries it out, or after, when the answer is lost.
pub data Attempt : Type 0 where
  answered failed unanswered : Attempt

-- What the loop ends with: the hash and the new count, with the attempts made and the milliseconds
-- waited.
pub record Retried (C : Type 0) : Type 0 where
  pub counters : C
  pub count : Option ℕ
  pub attempts : ℕ
  pub waited : ℕ

abbrev landing : Attempt → ℕ → ℕ
landing Attempt.answered n = n + 1
landing Attempt.failed n = n
landing Attempt.unanswered n = n + 1

-- The attempts that reach Redis, of `n` from `k` on.
abbrev pub landed : (ℕ → Attempt) → (k n : ℕ) → ℕ
landed ends k zero = 0
landed ends k (suc n) = landing (ends k) (landed ends (k + 1) n)

-- the count of an option with `l` more votes, if it is the one that is voted for
abbrev pub grown : Bool → (l n : ℕ) → ℕ
grown k l n = if k then n + l else n

-- `n` doubled `k` times
abbrev pub doubled : (k n : ℕ) → ℕ
doubled zero n = n
doubled (suc k) n = doubled k (n * 2)

doubled_le : (k n : ℕ) → n ≤ doubled k n
doubled_le zero n = omega arith
doubled_le (suc k) n = omega (arith, doubled_le k (n * 2))

module _ {C : Type 0} ⦃redis : VoteCounterStore C⦄ (ends : ℕ → Attempt) (is_done : ℕ → Bool)
    (option_id : String) where
  abbrev again : ℕ → Retried C → Retried C
  again backoff r = record r { attempts = suc r.attempts; waited = backoff + r.waited }

  -- an attempt that fails: the end of the context, or the wait and the rest of the loop
  abbrev missed : Bool → ℕ → C → Retried C → Retried C
  missed true backoff c rest = record { counters = c; count = none; attempts = 1; waited = 0 }
  missed false backoff c rest = again backoff rest

  -- one attempt and what follows, by the loop after a failure and after a lost answer
  abbrev concluded : Attempt → Bool → ℕ → C → C × ℕ → (failing losing : Retried C) → Retried C
  concluded Attempt.answered d backoff c (c', n) failing losing = record {
    counters = c';
    count = some n;
    attempts = 1;
    waited = 0;
  }
  concluded Attempt.failed d backoff c (c', n) failing losing = missed d backoff c failing
  concluded Attempt.unanswered d backoff c (c', n) failing losing = missed d backoff c' losing

  -- the loop with `left` attempts left, after `k`
  unfoldable pub retry : (left k backoff : ℕ) → C → Retried C
  retry zero k backoff c = record { counters = c; count = none; attempts = 0; waited = 0 }
  retry (suc left) k backoff c =
      concluded (ends k) (is_done k) backoff c (redis.increment c option_id)
        (retry left (k + 1) (backoff * 2) c)
        (retry left (k + 1) (backoff * 2) (redis.increment c option_id).0)

  -- `incrementRedisWithRetry`
  unfoldable pub increment_with_retry : ℕ → C → Retried C
  unfolding retry
  increment_with_retry max_retries c = retry max_retries 0 10 c

  -- the attempts are no more than those left, and a doubled wait bounds the waits
  abbrev IsBounded : (left backoff : ℕ) → Retried C → Type 0
  IsBounded left backoff r = (r.attempts ≤ left) × (r.waited + backoff ≤ doubled left backoff)

  missed-IsBounded :
      (b : Bool) (left backoff : ℕ) (c : C) (rest : Retried C)
      → IsBounded left (backoff * 2) rest
      → IsBounded (suc left) backoff (missed b backoff c rest)
  missed-IsBounded true left backoff c rest v = omega (arith, doubled_le (suc left) backoff)
  missed-IsBounded false left backoff c rest v = omega (arith, v)

  concluded-IsBounded :
      (a : Attempt) (d : Bool) (left backoff : ℕ) (c : C) (f l : Retried C)
      → IsBounded left (backoff * 2) f
      → IsBounded left (backoff * 2) l
      → IsBounded (suc left) backoff (concluded a d backoff c (redis.increment c option_id) f l)
  concluded-IsBounded Attempt.answered d left backoff c f l v w =
      omega (arith, doubled_le (suc left) backoff)
  concluded-IsBounded Attempt.failed d left backoff c f l v w =
      missed-IsBounded d left backoff c f v
  concluded-IsBounded Attempt.unanswered d left backoff c f l v w =
      missed-IsBounded d left backoff _ l w

  retry-IsBounded : (left k backoff : ℕ) (c : C) → IsBounded left backoff (retry left k backoff c)
  unfolding retry
  retry-IsBounded zero k backoff c = omega arith
  retry-IsBounded (suc left) k backoff c =
      concluded-IsBounded (ends k) (is_done k) left backoff c _ _
        (retry-IsBounded left (k + 1) (backoff * 2) c)
        (retry-IsBounded left (k + 1) (backoff * 2) (redis.increment c option_id).0)

  -- However the attempts end, the loop of retries ends after as many attempts as it may make at most,
  -- and its waits are less than the first one, of 10 ms, doubled that often: with three attempts,
  -- at most 70 ms.
  pub retry_ends :
      (max_retries : ℕ) (c : C)
      → let r = increment_with_retry max_retries c in
        (r.attempts ≤ max_retries) × (r.waited + 10 ≤ doubled max_retries 10)
  unfolding increment_with_retry
  retry_ends max_retries c = retry-IsBounded max_retries 0 10 c

  -- An attempt that is answered returns the count that it leaves, and has been counted.
  abbrev pub IsAnswer : ℕ → Retried C → Option ℕ → Type 0
  IsAnswer l r none = Unit
  IsAnswer l r (some n) = (n ≡ redis.count r.counters option_id) × (1 ≤ l)

  -- The counts grow by the attempts that reach Redis, `l` of them.
  record IsCounted (l : ℕ) (c : C) (r : Retried C) : Type 0 where
    counts : (q : String) → redis.count r.counters q ≡ grown (option_id == q) l (redis.count c q)
    answer : IsAnswer l r r.count

  answer-again :
      (l m : ℕ) (r s : Retried C) (o : Option ℕ)
      → r.counters ≡ s.counters
      → l ≤ m
      → IsAnswer l r o
      → IsAnswer m s o
  answer-again l m r s none e h v = tt
  answer-again l m r s (some n) e h v =
      (v.0 ∙ ap (λ c. redis.count c option_id) e, omega (arith, h, v.1))

  increment-IsCounted :
      (l backoff : ℕ) (c : C) (rest : Retried C)
      → IsCounted l (redis.increment c option_id).0 rest
      → IsCounted (l + 1) c (again backoff rest)
  increment-IsCounted l backoff c rest v = record {
    counts = λ q. ground (arith, v.counts q, redis.increment_counts c option_id q);
    answer =
        answer-again l (l + 1) rest (again backoff rest) rest.count refl (omega arith) v.answer;
  }

  concluded-IsCounted :
      (a : Attempt) (d : Bool) (backoff k : ℕ) (c : C) (f l : Retried C)
      → ends k ≡ a
      → IsCounted (landed ends (k + 1) f.attempts) c f
      → IsCounted (landed ends (k + 1) l.attempts) (redis.increment c option_id).0 l
      → let r = concluded a d backoff c (redis.increment c option_id) f l in
        IsCounted (landed ends k r.attempts) c r
  concluded-IsCounted Attempt.answered d backoff k c f l e v w = rw e (record {
    counts = λ q. ground (arith, redis.increment_counts c option_id q);
    answer = (redis.increment_returns c option_id, omega arith);
  })
  concluded-IsCounted Attempt.failed true backoff k c f l e v w =
      rw e (record { counts = λ q. ground arith; answer = tt })
  concluded-IsCounted Attempt.failed false backoff k c f l e v w = rw e (record {
    counts = v.counts;
    answer = answer-again _ _ f (again backoff f) f.count refl (omega arith) v.answer;
  })
  concluded-IsCounted Attempt.unanswered true backoff k c f l e v w =
      rw e
        (record { counts = λ q. ground (arith, redis.increment_counts c option_id q); answer = tt })
  concluded-IsCounted Attempt.unanswered false backoff k c f l e v w =
      rw e (increment-IsCounted (landed ends (k + 1) l.attempts) backoff c l w)

  retry-IsCounted :
      (left k backoff : ℕ) (c : C)
      → let r = retry left k backoff c in IsCounted (landed ends k r.attempts) c r
  unfolding retry
  retry-IsCounted zero k backoff c = record { counts = λ q. ground arith; answer = tt }
  retry-IsCounted (suc left) k backoff c =
      concluded-IsCounted (ends k) (is_done k) backoff k c _ _ refl
        (retry-IsCounted left (k + 1) (backoff * 2) c)
        (retry-IsCounted left (k + 1) (backoff * 2) (redis.increment c option_id).0)

  -- However the attempts end: the count of the option grows by one for each attempt that reaches Redis,
  -- whether its answer is lost or not, and no other count changes; and a count that is returned is the one
  -- that the hash is left with, after one such attempt at least.
  pub retry_counts :
      (max_retries : ℕ) (c : C) (q : String)
      → let r = increment_with_retry max_retries c in
        let l = landed ends 0 r.attempts in
        (redis.count r.counters q ≡ grown (option_id == q) l (redis.count c q))
        × IsAnswer l r r.count
  unfolding increment_with_retry
  retry_counts max_retries c q =
      let v = retry-IsCounted max_retries 0 10 c in (v.counts q, v.answer)
