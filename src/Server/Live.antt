-- ===== src/Server/Live.antt =====
-- From the server's stores to the results on a page.
use pulsepoll_hcl_guvi.Prelude.{
  ◌+◌, ◌≤◌, ◌<◌, ◌≡◌, refl, sym, ap, ◌∙◌, inl, inr, String, true, some, List, [], ◌∷◌, arith,
  eq_iff, ◌==◌, if◌then◌else◌, subst,
}
use pulsepoll_hcl_guvi.Results.{Results, PollOption, Poll, apply_vote, apply_snapshot}
use pulsepoll_hcl_guvi.Server.{
  VoteRepository, VoteCounterStore, all_work, Verdict, Ballot, Server, has_option, total_of,
  cast_vote, snapshot, serve,
}
use pulsepoll_hcl_guvi.Server.Tally.{
  receive_updates, IsShowing, snapshot-IsShowing, event-IsShowing, event_of, IsRefused, IsRecorded,
  cast_cases,
}

module _ {C : Type 0} ⦃redis : VoteCounterStore C⦄ where
  total_increment :
      (c : C) (o : String) (qs : List PollOption)
      → total_of c qs ≤ total_of (redis.increment c o).0 qs
  unfolding total_of
  total_increment c o [] = omega arith
  total_increment c o (q ∷ qs) =
      ground (arith, redis.increment_counts c o q.id, total_increment c o qs)

  -- A vote for an option of the poll makes the total greater.
  total_grows :
      (c : C) (o : String) (qs : List PollOption)
      → has_option o qs ≡ true
      → total_of c qs < total_of (redis.increment c o).0 qs
  unfolding total_of
  total_grows c o [] h = cc
  total_grows c o (q ∷ qs) h = ground (
    arith,
    eq_iff q.id o,
    eq_iff o q.id,
    redis.increment_counts c o q.id,
    total_increment c o qs,
    total_grows c o qs,
  )

module _ {V C : Type 0} ⦃repo : VoteRepository V⦄ ⦃redis : VoteCounterStore C⦄ where
  pub serve-IsRefused :
      (poll : Poll) (s : Server V C) (b : Ballot) (bs : List Ballot)
      → IsRefused poll s b
      → serve poll s (b ∷ bs) ≡ serve poll s bs
  unfolding serve
  serve-IsRefused poll s b bs (r, e) = rw e refl

  -- the server behind a recorded ballot
  abbrev pub after : (poll : Poll) (s : Server V C) (b : Ballot) → IsRecorded poll s b → Server V C
  after poll s b d = record {
    votes = d.votes;
    counters = (redis.increment s.counters b.option_id).0;
  }

  pub serve-IsRecorded :
      (poll : Poll) (s : Server V C) (b : Ballot) (bs : List Ballot) (d : IsRecorded poll s b)
      → serve poll s (b ∷ bs) ≡ (
        (serve poll (after poll s b d) bs).0,
        event_of poll s.counters b.option_id ∷ (serve poll (after poll s b d) bs).1,
      )
  unfolding serve
  serve-IsRecorded poll s b bs d = rw d.answer refl

  serve-IsShowing :
      (poll : Poll) (s : Server V C) (bs : List Ballot) (r : Results)
      → redis.has_counters s.counters ≡ true
      → IsShowing poll s.counters r
      → let (last, ps) = serve poll s bs in
        IsShowing poll last.counters (receive_updates poll.id r ps)
  unfolding receive_updates
  serve-IsShowing poll s [] r h v = unfold serve in v
  serve-IsShowing poll s (b ∷ bs) r h v = elim (cast_cases poll s b h) [
    | inl d ↦ rw (serve-IsRefused poll s b bs d) (serve-IsShowing poll s bs r h v)
    | inr d ↦ rw (serve-IsRecorded poll s b bs d) (
        serve-IsShowing poll (after poll s b d) bs
          (apply_vote poll.id (event_of poll s.counters b.option_id) r)
          (redis.increment_exists s.counters b.option_id)
          (event-IsShowing poll s.counters b.option_id r v))
  ]

  -- With every operation at work and the counters in place: a page that receives the snapshot and
  -- then the updates of any ballots whose calls do not overlap, in their order, shows the options
  -- with the counts and the total that the server ends with, whatever it showed before.
  pub page_follows :
      (poll : Poll) (s : Server V C) (bs : List Ballot) (r : Results)
      → redis.has_counters s.counters ≡ true
      → let (last, ps) = serve poll s bs in
        let shown =
          receive_updates poll.id (apply_snapshot poll.id (snapshot poll s.counters) r) ps in
        IsShowing poll last.counters shown
  page_follows poll s bs r h =
      serve-IsShowing poll s bs (apply_snapshot poll.id (snapshot poll s.counters) r) h
        (snapshot-IsShowing poll s.counters r)

  -- Results that show the counts of before a recorded vote do not show those of after it.
  pub stale_unseen :
      (poll : Poll) (s : Server V C) (b : Ballot) (r : Results)
      → IsRecorded poll s b
      → IsShowing poll s.counters r
      → ¬ IsShowing poll (cast_vote all_work (some poll) s b).0.counters r
  stale_unseen poll s b r d before v =
      let w : IsShowing poll (redis.increment s.counters b.option_id).0 r =
        subst (λ (x : Server V C × Verdict). IsShowing poll x.0.counters r) d.answer v in
      omega (
        arith,
        sym before.total ∙ w.total,
        total_grows s.counters b.option_id poll.options d.is_option,
      )

  -- Redis counts for each option of the poll what MongoDB holds.
  unfoldable pub AreEqual : Server V C → Type 0
  AreEqual s = (q : String) → redis.count s.counters q ≡ repo.durable s.votes q

  recorded-AreEqual :
      (poll : Poll) (s : Server V C) (b : Ballot) (d : IsRecorded poll s b)
      → AreEqual s
      → AreEqual (after poll s b d)
  unfolding AreEqual
  recorded-AreEqual poll s b d h q =
      let stores = (repo.create_stores s.votes d.votes b.voter_id b.option_id d.is_stored).2 q in
      redis.increment_counts s.counters b.option_id q
      ∙ ap (λ n. if b.option_id == q then n + 1 else n) (h q)
      ∙ sym stores

  -- With every operation at work, the counters in Redis stay equal to the counts of the votes in
  -- MongoDB through any ballots, if they are so once the hash exists.
  pub serve-AreEqual :
      (poll : Poll) (s : Server V C) (bs : List Ballot)
      → redis.has_counters s.counters ≡ true
      → AreEqual s
      → AreEqual (serve poll s bs).0
  serve-AreEqual poll s [] h v = unfold serve in v
  serve-AreEqual poll s (b ∷ bs) h v = elim (cast_cases poll s b h) [
    | inl d ↦ rw (serve-IsRefused poll s b bs d) (serve-AreEqual poll s bs h v)
    | inr d ↦ rw (serve-IsRecorded poll s b bs d) (
        serve-AreEqual poll (after poll s b d) bs (redis.increment_exists s.counters b.option_id)
          (recorded-AreEqual poll s b d v))
  ]
