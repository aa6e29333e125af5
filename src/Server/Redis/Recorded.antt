-- ===== src/Server/Redis/Recorded.antt =====
-- What a call of `CastVote` that records a vote does to the two stores, whichever operations fail.
use pulsepoll_hcl_guvi.Prelude.{
  ◌≡◌, refl, Bool, true, false, not, ◌||◌, Option, none, some, subst, if◌then◌else◌,
}
use pulsepoll_hcl_guvi.Text.{truthy}
use pulsepoll_hcl_guvi.Results.{Poll, Payload}
use pulsepoll_hcl_guvi.Server.{
  VoteRepository, VoteCounterStore, Works, Refusal, Verdict, refused, recorded, Ballot, Server,
  admit, ensure, count_vote, record_vote, cast_vote, stored, admitted, found,
}

module _ {V C : Type 0} ⦃repo : VoteRepository V⦄ ⦃redis : VoteCounterStore C⦄ where
  -- A call that records the vote stores it, and counts it in the hash that `ensure` leaves.
  abbrev Counts : Works → Poll → Server V C → Ballot → Server V C × Verdict → Type 0
  Counts w poll s b (s', refused r) = Unit
  Counts w poll s b (s', recorded e) =
      (repo.create s.votes b.voter_id b.option_id ≡ some s'.votes)
      × (s'.counters ≡ (count_vote w poll (ensure w poll s) b.option_id).0)

  if-Counts :
      (w : Works) (poll : Poll) (s : Server V C) (b : Ballot) (k : Bool)
      (x y : Server V C × Verdict)
      → Counts w poll s b x
      → Counts w poll s b y
      → Counts w poll s b (if k then x else y)
  if-Counts w poll s b true x y h g = h
  if-Counts w poll s b false x y h g = g

  stored-Counts :
      (w : Works) (poll : Poll) (s : Server V C) (b : Ballot) (o : Option V)
      → repo.create s.votes b.voter_id b.option_id ≡ o
      → Counts w poll s b (stored w poll s (ensure w poll s) b.option_id o)
  stored-Counts w poll s b none e = tt
  stored-Counts w poll s b (some v) e = (e, refl)

  found-Counts :
      (w : Works) (poll : Poll) (s : Server V C) (b : Ballot)
      → Counts w poll s b (found w (some poll) s b)
  unfolding record_vote
  found-Counts w poll s b = go (admit w poll s b)
    where
      go : (o : Option Refusal) → Counts w poll s b (admitted w poll s b o)
      go none =
          if-Counts w poll s b w.create _ _
            (stored-Counts w poll s b (repo.create s.votes b.voter_id b.option_id) refl) tt
      go (some r) = tt

  cast-Counts :
      (w : Works) (poll : Poll) (s : Server V C) (b : Ballot)
      → Counts w poll s b (cast_vote w (some poll) s b)
  unfolding cast_vote
  cast-Counts w poll s b =
      if-Counts w poll s b (not (truthy b.option_id) || not (truthy b.voter_id)) _ _ tt
        (if-Counts w poll s b (not w.find) _ _ tt (found-Counts w poll s b))

  pub recorded-Counts :
      (w : Works) (poll : Poll) (s t : Server V C) (b : Ballot) (e : Option Payload)
      → cast_vote w (some poll) s b ≡ (t, recorded e)
      → (repo.create s.votes b.voter_id b.option_id ≡ some t.votes)
        × (t.counters ≡ (count_vote w poll (ensure w poll s) b.option_id).0)
  recorded-Counts w poll s t b e h = subst (Counts w poll s b) h (cast-Counts w poll s b)
