-- ===== src/Server/Redis/Counts.antt =====
-- What the repository counts: the initial counts, and the counts that it returns.
use pulsepoll_hcl_guvi.Prelude.{
  ℕ, ◌+◌, ◌≡◌, refl, ap, ◌∙◌, String, Bool, true, false, Option, some, List, [], ◌∷◌, map, arith,
  eq_iff, ◌==◌, if◌then◌else◌, Bool-cases, inl, inr,
}
use pulsepoll_hcl_guvi.Results.{PollOption}
use pulsepoll_hcl_guvi.Server.{has_option, total_of}
use pulsepoll_hcl_guvi.Server.Redis.{
  or_zero, or_number, HashCommands, count_options, initialize_counters, counted, redis_votes,
}

abbrev pub ids : List PollOption → List String
ids = map (λ o. o.id)

-- the value of a field once it is initialized
abbrev pub initialized : Bool → Option ℕ → ℕ → Option ℕ
initialized true o n = some (or_number o n)
initialized false o n = o

initialized_twice :
    (k : Bool) (o : Option ℕ) (n : ℕ)
    → initialized k (some (or_number o n)) n ≡ initialized true o n
initialized_twice true o n = refl
initialized_twice false o n = refl

-- the lookup in a map of counts, which is 0 without an entry
abbrev pub lookup : List (String × ℕ) → String → ℕ
lookup [] q = 0
lookup ((o, n) ∷ cs) q = if o == q then n else lookup cs q

module _ {H : Type 0} ⦃redis : HashCommands H⦄ where
  -- `InitializeCounters` sets the options without a count, and leaves every other count as it is.
  pub hget-initialize :
      (h : H) (ps : List PollOption) (initial : String → ℕ) (q : String)
      → redis.hget (initialize_counters h (ids ps) initial) q
        ≡ initialized (has_option q ps) (redis.hget h q) (initial q)
  unfolding initialize_counters
  hget-initialize h [] initial q = refl
  hget-initialize h (p ∷ ps) initial q =
      hget-initialize (redis.hsetnx h p.id (initial p.id)) ps initial q
      ∙ ap (λ v. initialized (has_option q ps) v (initial q))
          (redis.hget-hsetnx h p.id q (initial p.id))
      ∙ elim (Bool-cases (p.id == q)) [
        | inl e ↦ rw e (
            ap
              (λ i.
                initialized (has_option q ps) (some (or_number (redis.hget h q) (initial i)))
                  (initial q))
              ((eq_iff p.id q).0 e)
            ∙ initialized_twice (has_option q ps) (redis.hget h q) (initial q))
        | inr e ↦ rw e refl
      ]

  -- The counts that `GetOptionCounts` returns for the options of a poll are those of the hash, and
  -- their total is the total of the poll.
  pub count_options-counted :
      (h : H) (ps : List PollOption) → (count_options h (ids ps)).1 ≡ total_of h ps
  unfolding count_options total_of redis_votes
  count_options-counted h [] = refl
  count_options-counted h (p ∷ ps) =
      ap (or_zero (redis.hget h p.id) +◌) (count_options-counted h ps)

  lookup-count_options :
      (h : H) (ps : List PollOption) (q : String)
      → has_option q ps ≡ true
      → lookup (count_options h (ids ps)).0 q ≡ counted h q
  unfolding count_options
  lookup-count_options h [] q e = cc
  lookup-count_options h (p ∷ ps) q e = elim (Bool-cases (p.id == q)) [
    | inl k ↦ rw k (ap (counted h) ((eq_iff p.id q).0 k))
    | inr k ↦ rw k (lookup-count_options h ps q (ground (arith, e, k)))
  ]

  -- What `GetOptionCounts` returns for the options of a poll: for each of them the count of its field in
  -- the hash, which is 0 if it has none, and as total the sum of those counts.
  pub get_option_counts_lem :
      (h : H) (ps : List PollOption) (q : String)
      → has_option q ps ≡ true
      → let (counts, total) = count_options h (ids ps) in
        (lookup counts q ≡ or_zero (redis.hget h q)) × (total ≡ total_of h ps)
  get_option_counts_lem h ps q e = (lookup-count_options h ps q e, count_options-counted h ps)
