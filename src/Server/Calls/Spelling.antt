-- ===== src/Server/Calls/Spelling.antt =====
-- The spellings of a poll's ID in the calls of `CastVote`.
use pulsepoll_hcl_guvi.Prelude.{
  ◌≡◌, refl, String, Bool, true, false, not, ◌||◌, Option, none, some, eq_refl, if◌then◌else◌, ◌==◌,
}
use pulsepoll_hcl_guvi.Text.{truthy}
use pulsepoll_hcl_guvi.Results.{Poll}
use pulsepoll_hcl_guvi.Server.{
  VoteRepository, VoteCounterStore, Works, Refusal, Verdict, refused, Ballot, Server, admit, ensure,
  record_vote, cast_vote, stored, admitted, found,
}
use pulsepoll_hcl_guvi.Server.Calls.{
  Service, put, at, stored_by_id, record_by_id, admitted_by_id, found_by_id, cast_by_id,
}

put-same : {A : Type 0} (i : String) (x : A) (f : String → A) → put i x f i ≡ x
put-same i x f = rw (eq_refl i) refl

put-other :
    {A : Type 0} (i j : String) (x : A) (f : String → A) → (i == j) ≡ false → put i x f j ≡ f j
put-other i j x f h = rw h refl

module _ {V C : Type 0} ⦃repo : VoteRepository V⦄ ⦃redis : VoteCounterStore C⦄ where
  -- The call by ID ends under `i` as the other does, and leaves all other IDs as they are.
  abbrev Agrees :
      (i : String) (s : Service V C) → Service V C × Verdict → Server V C × Verdict → Type 0
  Agrees i s x y =
      (at i x.0 ≡ y.0) × (x.1 ≡ y.1) × ((j : String) → (i == j) ≡ false → at j x.0 ≡ at j s)

  if-Agrees :
      (i : String) (s : Service V C) (b : Bool) (x z : Service V C × Verdict)
      (y u : Server V C × Verdict)
      → Agrees i s x y
      → Agrees i s z u
      → Agrees i s (if b then x else z) (if b then y else u)
  if-Agrees i s true x z y u h g = h
  if-Agrees i s false x z y u h g = g

  same-Agrees :
      (i : String) (s : Service V C) (r : Refusal) → Agrees i s (s, refused r) (at i s, refused r)
  same-Agrees i s r = (refl, refl, λ j h. refl)

  stored-Agrees :
      (w : Works) (poll : Poll) (s : Service V C) (c : C) (b : Ballot) (o : Option V)
      → Agrees poll.id s
          (stored_by_id w poll
            (record s { hash_of = put poll.id c s.hash_of })
            poll.id
            b.option_id
            o)
          (stored w poll (at poll.id s) c b.option_id o)
  stored-Agrees w poll s c b none = rw (eq_refl poll.id) (refl, refl, λ j h. rw h refl)
  stored-Agrees w poll s c b (some v) = rw (eq_refl poll.id) (refl, refl, λ j h. rw h refl)

  record-Agrees :
      (w : Works) (poll : Poll) (s : Service V C) (b : Ballot)
      → Agrees poll.id s (record_by_id w poll s poll.id b) (record_vote w poll (at poll.id s) b)
  unfolding record_by_id record_vote
  record-Agrees w poll s b =
      let c = ensure w poll (at poll.id s) in
      if-Agrees poll.id s w.create _ _ _ _
        (stored-Agrees w poll s c b (repo.create (s.votes_of poll.id) b.voter_id b.option_id))
        (rw (eq_refl poll.id) (refl, refl, λ j h. rw h refl))

  found-Agrees :
      (w : Works) (poll : Poll) (s : Service V C) (b : Ballot)
      → Agrees poll.id s
          (found_by_id w (some poll) s poll.id b)
          (found w (some poll) (at poll.id s) b)
  found-Agrees w poll s b = go (admit w poll (at poll.id s) b)
    where
      go :
          (o : Option Refusal)
          → Agrees poll.id s
              (admitted_by_id w poll s poll.id b o)
              (admitted w poll (at poll.id s) b o)
      go none = record-Agrees w poll s b
      go (some r) = same-Agrees poll.id s r

  -- A call that spells the poll's ID as `Hex` does is the call of Server.antt on the votes and the
  -- counters of the poll, and it leaves what is held under any other ID.
  pub cast_by_id-cast_vote :
      (w : Works) (poll : Poll) (s : Service V C) (b : Ballot)
      → truthy poll.id ≡ true
      → let (t, verdict) = cast_by_id w (some poll) s poll.id b in
        let (u, expected) = cast_vote w (some poll) (at poll.id s) b in
        (at poll.id t ≡ u)
        × (verdict ≡ expected)
        × ((j : String) → (poll.id == j) ≡ false → at j t ≡ at j s)
  unfolding cast_by_id cast_vote
  cast_by_id-cast_vote w poll s b named = rw named (
      if-Agrees poll.id s (not (truthy b.option_id) || not (truthy b.voter_id)) _ _ _ _
        (same-Agrees poll.id s Refusal.invalid_input)
        (if-Agrees poll.id s (not w.find) _ _ _ _ (same-Agrees poll.id s Refusal.vote_failed)
          (found-Agrees w poll s b)))
