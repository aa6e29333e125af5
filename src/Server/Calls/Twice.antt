-- ===== src/Server/Calls/Twice.antt =====
-- Two votes of one voter, under two spellings of a poll's ID.
use pulsepoll_hcl_guvi.Prelude.{
  ℕ, ◌≡◌, refl, ap, ◌∙◌, String, true, false, Option, none, some, ◌==◌,
}
use pulsepoll_hcl_guvi.Text.{truthy}
use pulsepoll_hcl_guvi.Results.{Poll}
use pulsepoll_hcl_guvi.Server.{
  VoteRepository, VoteCounterStore, all_work, Verdict, refused, recorded, Ballot, admit,
}
use pulsepoll_hcl_guvi.Server.Calls.{Service, put, at, record_by_id, cast_by_id}

-- The server records the vote.
abbrev pub IsRecording : Verdict → Type 0
IsRecording (recorded e) = Unit
IsRecording (refused r) = ⊥

module _ {V C : Type 0} ⦃repo : VoteRepository V⦄ ⦃redis : VoteCounterStore C⦄ where
  -- The checks pass for a ballot under the ID `i`, and the votes there take it.
  pub record IsTaken (poll : Poll) (s : Service V C) (i : String) (b : Ballot) : Type 0 where
    pub id_named : truthy i ≡ true
    pub option_named : truthy b.option_id ≡ true
    pub voter_named : truthy b.voter_id ≡ true
    pub is_admitted : admit all_work poll (at i s) b ≡ none
    pub votes : V
    pub is_stored : repo.create (s.votes_of i) b.voter_id b.option_id ≡ some votes

  -- what a call leaves for a ballot that is taken
  record Took (s : Service V C) (i : String) (v : V) (x : Service V C × Verdict) : Type 0 where
    is_recording : IsRecording x.1
    votes_after : x.0.votes_of ≡ put i v s.votes_of

  record-Took :
      (poll : Poll) (s : Service V C) (i : String) (b : Ballot) (v : V)
      → repo.create (s.votes_of i) b.voter_id b.option_id ≡ some v
      → Took s i v (record_by_id all_work poll s i b)
  unfolding record_by_id
  record-Took poll s i b v h = rw h (record { is_recording = tt; votes_after = refl })

  cast-Took :
      (poll : Poll) (s : Service V C) (i : String) (b : Ballot) (d : IsTaken poll s i b)
      → Took s i d.votes (cast_by_id all_work (some poll) s i b)
  unfolding cast_by_id
  cast-Took poll s i b d =
      rw (d.id_named, d.option_named, d.voter_named)
        (rw d.is_admitted (record-Took poll s i b d.votes d.is_stored))

  -- What is held under one ID does not bear on a ballot under another.
  still-IsTaken :
      (poll : Poll) (s t : Service V C) (j : String) (b : Ballot)
      → t.votes_of j ≡ s.votes_of j
      → IsTaken poll s j b
      → IsTaken poll t j b
  unfolding admit
  still-IsTaken poll s t j b same d = record {
    id_named = d.id_named;
    option_named = d.option_named;
    voter_named = d.voter_named;
    is_admitted = rw same d.is_admitted;
    votes = d.votes;
    is_stored = rw same d.is_stored;
  }

  -- With every operation at work: if MongoDB finds the same poll by two texts, as by the digits of its ID
  -- in lower and in upper case, and a ballot of a voter is taken under each of them, then both
  -- of the votes are recorded when they are cast one after the other.
  pub two_spellings_vote_twice :
      (find : String → Option Poll) (poll : Poll) (s : Service V C) (i j : String) (b : Ballot)
      (option_id : String) (time : ℕ)
      → find i ≡ some poll
      → find j ≡ some poll
      → (i == j) ≡ false
      → IsTaken poll s i b
      → IsTaken poll s j (record b { option_id = option_id; time = time })
      → let (t, first) = cast_by_id all_work (find i) s i b in
        let again = record b { option_id = option_id; time = time } in
        IsRecording first × IsRecording (cast_by_id all_work (find j) t j again).1
  two_spellings_vote_twice find poll s i j b option_id time fi fj differ d e =
      let again : Ballot = record b { option_id = option_id; time = time } in
      let took = cast-Took poll s i b d in
      let t = (cast_by_id all_work (some poll) s i b).0 in
      let same : t.votes_of j ≡ s.votes_of j = ap (λ f. f j) took.votes_after ∙ rw differ refl in
      rw (fi, fj)
        (
          took.is_recording,
          (cast-Took poll t j again (still-IsTaken poll s t j again same e)).is_recording,
        )
