-- ===== src/Server/Redis/Recovery.antt =====
-- The counters in Redis after the hash is lost, and after it was not initialized.
use pulsepoll_hcl_guvi.Prelude.{
  ℕ, ◌+◌, ◌≡◌, refl, sym, ap, ◌∙◌, inl, inr, String, Bool, true, false, Option, some, List, [], ◌∷◌,
  arith, ◌==◌, if◌then◌else◌, Bool-cases,
}
use pulsepoll_hcl_guvi.Results.{Poll, Payload}
use pulsepoll_hcl_guvi.Server.{
  VoteRepository, Works, all_work, recorded, Ballot, Server, has_option, ensure, count_vote,
  cast_vote, serve,
}
use pulsepoll_hcl_guvi.Server.Live.{
  AreEqual, serve-AreEqual, serve-IsRefused, serve-IsRecorded, after,
}
use pulsepoll_hcl_guvi.Server.Tally.{cast_cases}
use pulsepoll_hcl_guvi.Server.Redis.{
  or_zero, HashCommands, increment_vote, initialize_counters, has_counters, counted,
  counted-increment, has_counters-increment, redis_votes,
}
use pulsepoll_hcl_guvi.Server.Redis.Counts.{ids, hget-initialize}
use pulsepoll_hcl_guvi.Server.Redis.Recorded.{recorded-Counts}

zero_add : (n : ℕ) → 0 + n ≡ n
zero_add n = omega arith

lag-increment :
    (k : Bool) (n l : ℕ) → (if k then n + 1 else n) + l ≡ (if k then n + l + 1 else n + l)
lag-increment k n l = ground arith

module _ {V : Type 0} ⦃repo : VoteRepository V⦄ where
  -- In MongoDB only options of the poll have votes.
  abbrev pub HoldsOptions : Poll → V → Type 0
  HoldsOptions poll v = (q : String) → has_option q poll.options ≡ false → repo.durable v q ≡ 0

module _ {V H : Type 0} ⦃repo : VoteRepository V⦄ ⦃redis : HashCommands H⦄ where
  -- the counts of a hash that is initialized from nothing
  fresh-counts :
      (poll : Poll) (s : Server V H) (q : String)
      → redis.exists s.counters ≡ false
      → HoldsOptions poll s.votes
      → counted (initialize_counters s.counters (ids poll.options) (repo.durable s.votes)) q
        ≡ repo.durable s.votes q
  fresh-counts poll s q absent holds =
      ap or_zero (hget-initialize s.counters poll.options (repo.durable s.votes) q)
      ∙ rw (redis.hget_absent s.counters q absent) (elim (Bool-cases (has_option q poll.options)) [
        | inl e ↦ rw e refl
        | inr e ↦ rw e (sym (holds q e))
      ])

  ensure-counts :
      (poll : Poll) (s : Server V H) (q : String)
      → redis.exists s.counters ≡ false
      → HoldsOptions poll s.votes
      → counted (ensure all_work poll s) q ≡ repo.durable s.votes q
  unfolding ensure has_counters redis_votes
  ensure-counts poll s q absent holds = rw absent (fresh-counts poll s q absent holds)

  -- With every operation at work: if Redis has lost the counters of a poll, then the next vote that is
  -- recorded restores them, and they stay equal to the counts of the votes in MongoDB through any
  -- later ballots. Supposed is that in MongoDB only options of the poll have votes.
  pub lost_counters_recover :
      (poll : Poll) (s t : Server V H) (b : Ballot) (e : Option Payload) (bs : List Ballot)
      → redis.exists s.counters ≡ false
      → HoldsOptions poll s.votes
      → cast_vote all_work (some poll) s b ≡ (t, recorded e)
      → AreEqual (serve poll t bs).0
  unfolding AreEqual count_vote redis_votes
  lost_counters_recover poll s t b e bs absent holds h =
      let (stored, counters) = recorded-Counts all_work poll s t b e h in
      serve-AreEqual poll t bs
        (rw counters (has_counters-increment (ensure all_work poll s) b.option_id))
        (λ q.
          ap (λ h. counted h q) counters
          ∙ counted-increment (ensure all_work poll s) b.option_id q
          ∙ ap (λ n. if b.option_id == q then n + 1 else n) (ensure-counts poll s q absent holds)
          ∙ sym ((repo.create_stores s.votes t.votes b.voter_id b.option_id stored).2 q))

  -- the counts behind those of the votes by what `lag` says
  abbrev Lags : (String → ℕ) → Server V H → Type 0
  Lags lag s = (q : String) → counted s.counters q + lag q ≡ repo.durable s.votes q

  serve-Lags :
      (lag : String → ℕ) (poll : Poll) (s : Server V H) (bs : List Ballot)
      → redis.exists s.counters ≡ true
      → Lags lag s
      → Lags lag (serve poll s bs).0
  unfolding redis_votes has_counters
  serve-Lags lag poll s [] h v = unfold serve in v
  serve-Lags lag poll s (b ∷ bs) h v = elim (cast_cases poll s b h) [
    | inl d ↦ rw (serve-IsRefused poll s b bs d) (serve-Lags lag poll s bs h v)
    | inr d ↦ rw (serve-IsRecorded poll s b bs d) (
        serve-Lags lag poll (after poll s b d) bs (has_counters-increment s.counters b.option_id)
          (λ q.
            ap (λ n. n + lag q) (counted-increment s.counters b.option_id q)
            ∙ lag-increment (b.option_id == q) (counted s.counters q) (lag q)
            ∙ ap (λ n. if b.option_id == q then n + 1 else n) (v q)
            ∙ sym ((repo.create_stores s.votes d.votes b.voter_id b.option_id d.is_stored).2 q)))
  ]

  skipped-counters :
      (w : Works) (poll : Poll) (s : Server V H) (o : String)
      → w.initialize ≡ false
      → w.increment ≡ true
      → (count_vote w poll (ensure w poll s) o).0 ≡ (increment_vote s.counters o).0
  unfolding count_vote ensure redis_votes
  skipped-counters w poll s o skipped counts = ground (arith, skipped, counts)

  one-Lags :
      (s t : Server V H) (b : Ballot)
      → redis.exists s.counters ≡ false
      → repo.create s.votes b.voter_id b.option_id ≡ some t.votes
      → t.counters ≡ (increment_vote s.counters b.option_id).0
      → Lags (repo.durable s.votes) t
  one-Lags s t b absent stored counters q =
      ap (λ h. counted h q + repo.durable s.votes q) counters
      ∙ ap (λ n. n + repo.durable s.votes q) (counted-increment s.counters b.option_id q)
      ∙ lag-increment (b.option_id == q) (counted s.counters q) (repo.durable s.votes q)
      ∙ ap
          (λ o.
            if b.option_id == q
            then or_zero o + repo.durable s.votes q + 1
            else or_zero o + repo.durable s.votes q)
          (redis.hget_absent s.counters q absent)
      ∙ ap (λ n. if b.option_id == q then n + 1 else n) (zero_add (repo.durable s.votes q))
      ∙ sym ((repo.create_stores s.votes t.votes b.voter_id b.option_id stored).2 q)

  -- If the hash of a poll does not exist and its initialization fails during a call that records a vote
  -- and counts it, then the hash exists with that vote alone: through any later ballots, with every
  -- operation at work, each option is counted less than MongoDB has votes for it by the votes
  -- that it had before the call.
  pub skipped_initialization_lasts :
      (w : Works) (poll : Poll) (s t : Server V H) (b : Ballot) (e : Option Payload)
      (bs : List Ballot) (q : String)
      → redis.exists s.counters ≡ false
      → w.initialize ≡ false
      → w.increment ≡ true
      → cast_vote w (some poll) s b ≡ (t, recorded e)
      → let last = (serve poll t bs).0 in
        counted last.counters q + repo.durable s.votes q ≡ repo.durable last.votes q
  unfolding has_counters
  skipped_initialization_lasts w poll s t b e bs q absent skipped counts h =
      let (stored, counters) = recorded-Counts w poll s t b e h in
      let alone = counters ∙ skipped-counters w poll s b.option_id skipped counts in
      serve-Lags (repo.durable s.votes) poll t bs
        (rw alone (has_counters-increment s.counters b.option_id))
        (one-Lags s t b absent stored alone) q
