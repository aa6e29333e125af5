-- ===== src/Server/Voters.antt =====
-- One vote for each voter under one spelling of the poll's ID, however the requests overlap and
-- whichever operations fail.
use pulsepoll_hcl_guvi.Prelude.{
  ℕ, ◌+◌, ◌≤◌, ◌≡◌, refl, subst, ◌⊎◌, inl, inr, String, Bool, true, false, not, ◌&&◌, ◌||◌, Option,
  none, some, List, [], ◌∷◌, arith, eq_iff, ◌==◌, if◌then◌else◌, Bool-cases,
}
use pulsepoll_hcl_guvi.Text.{truthy}
use pulsepoll_hcl_guvi.Results.{Poll}
use pulsepoll_hcl_guvi.Server.{
  VoteRepository, VoteCounterStore, Works, Refusal, Verdict, refused, recorded, Ballot, admit,
  ensure,
}
use pulsepoll_hcl_guvi.Server.Calls.{
  Service, put, at, stored_by_id, record_by_id, admitted_by_id, found_by_id, cast_by_id,
}

-- A request that is served as a whole, with the poll that `FindByID` returns, or the end of one for a
-- poll whose checks have passed at some time before.
pub data Request : Type 0 where
  whole : Works → Option Poll → (poll_id : String) → Ballot → Request
  late : Works → Poll → (poll_id : String) → Ballot → Request

abbrev pub id_of : Request → String
id_of (whole w o i b) = i
id_of (late w p i b) = i

abbrev pub ballot_of : Request → Ballot
ballot_of (whole w o i b) = b
ballot_of (late w p i b) = b

-- 1 for a vote of `u` that is recorded under the ID `j`
abbrev pub vote_of : (j u i : String) → Ballot → Verdict → ℕ
vote_of j u i b (recorded _) = if (i == j) && (b.voter_id == u) then 1 else 0
vote_of j u i b (refused _) = 0

-- What a step with `n` votes of a voter does to whether the voter has voted.
abbrev Counts : ℕ → (before after : Bool) → Type 0
Counts n before after =
    ((n ≡ 0) × (before ≡ true → after ≡ true)) ⊎ ((n ≡ 1) × (before ≡ false) × (after ≡ true))

module _ {V : Type 0} ⦃repo : VoteRepository V⦄ where
  created-Counts :
      (u voter option : String) (v w : V)
      → repo.create v voter option ≡ some w
      → Counts (if voter == u then 1 else 0) (repo.has_voted v u) (repo.has_voted w u)
  created-Counts u voter option v w h = elim (Bool-cases (voter == u)) [
    | inl e ↦ rw e (inr (refl, unvoted ((eq_iff voter u).0 e), voted ((eq_iff voter u).0 e)))
    | inr e ↦ rw e (inl (refl, (repo.create_stores v w voter option h).1 u))
  ]
    where
      voted : voter ≡ u → repo.has_voted w u ≡ true
      voted same = rw (← same) (repo.create_stores v w voter option h).0

      unvoted : voter ≡ u → repo.has_voted v u ≡ false
      unvoted same = ground (arith, same, repo.create_unique v voter option)

module _ {V C : Type 0} ⦃repo : VoteRepository V⦄ ⦃redis : VoteCounterStore C⦄ where
  unfoldable pub handle : Service V C → Request → Service V C × Verdict
  handle s (whole w poll i b) = cast_by_id w poll s i b
  handle s (late w poll i b) = record_by_id w poll s i b

  -- the votes of `u` under the ID `j` that are recorded in a run
  unfoldable pub votes_recorded : (j u : String) → Service V C → List Request → ℕ
  unfolding handle
  votes_recorded j u s [] = 0
  votes_recorded j u s (q ∷ qs) =
      let (t, verdict) = handle s q in
      vote_of j u (id_of q) (ballot_of q) verdict + votes_recorded j u t qs

  -- A step leaves the votes as they are, or stores one that the repository takes.
  Stores : Service V C → String → Ballot → Service V C × Verdict → Type 0
  Stores s i b (t, refused r) = t.votes_of ≡ s.votes_of
  Stores s i b (t, recorded e) =
      (v : V) × (repo.create (s.votes_of i) b.voter_id b.option_id ≡ some v)
      × (t.votes_of ≡ put i v s.votes_of)

  refused-Stores :
      (s t : Service V C) (i : String) (b : Ballot) (r : Refusal)
      → t.votes_of ≡ s.votes_of
      → Stores s i b (t, refused r)
  unfolding Stores
  refused-Stores s t i b r same = same

  if-Stores :
      (s : Service V C) (i : String) (b : Ballot) (k : Bool) (x y : Service V C × Verdict)
      → Stores s i b x
      → Stores s i b y
      → Stores s i b (if k then x else y)
  if-Stores s i b true x y h g = h
  if-Stores s i b false x y h g = g

  stored-Stores :
      (w : Works) (poll : Poll) (s : Service V C) (hash_of : String → C) (i : String) (b : Ballot)
      (o : Option V)
      → repo.create (s.votes_of i) b.voter_id b.option_id ≡ o
      → Stores s i b (stored_by_id w poll (record s { hash_of = hash_of }) i b.option_id o)
  unfolding Stores
  stored-Stores w poll s hash_of i b none e = refl
  stored-Stores w poll s hash_of i b (some v) e = (v, e, refl)

  record-Stores :
      (w : Works) (poll : Poll) (s : Service V C) (i : String) (b : Ballot)
      → Stores s i b (record_by_id w poll s i b)
  unfolding record_by_id
  record-Stores w poll s i b =
      let hash_of = put poll.id (ensure w poll (at poll.id s)) s.hash_of in
      if-Stores s i b w.create _ _
        (stored-Stores w poll s hash_of i b (repo.create (s.votes_of i) b.voter_id b.option_id)
          refl)
        (refused-Stores s (record s { hash_of = hash_of }) i b Refusal.vote_failed refl)

  found-Stores :
      (w : Works) (poll : Option Poll) (s : Service V C) (i : String) (b : Ballot)
      → Stores s i b (found_by_id w poll s i b)
  found-Stores w none s i b = refused-Stores s s i b Refusal.poll_not_found refl
  found-Stores w (some poll) s i b = go (admit w poll (at i s) b)
    where
      go : (o : Option Refusal) → Stores s i b (admitted_by_id w poll s i b o)
      go none = record-Stores w poll s i b
      go (some r) = refused-Stores s s i b r refl

  handle-Stores : (s : Service V C) (q : Request) → Stores s (id_of q) (ballot_of q) (handle s q)
  unfolding handle cast_by_id
  handle-Stores s (late w poll i b) = record-Stores w poll s i b
  handle-Stores s (whole w poll i b) =
      if-Stores s i b (not (truthy i) || not (truthy b.option_id) || not (truthy b.voter_id)) _ _
        (refused-Stores s s i b Refusal.invalid_input refl)
        (if-Stores s i b (not w.find) _ _ (refused-Stores s s i b Refusal.vote_failed refl)
          (found-Stores w poll s i b))

  put-Counts :
      (j u i : String) (s : Service V C) (b : Ballot) (v : V)
      → repo.create (s.votes_of i) b.voter_id b.option_id ≡ some v
      → Counts
          (if (i == j) && (b.voter_id == u) then 1 else 0)
          (repo.has_voted (s.votes_of j) u)
          (repo.has_voted (put i v s.votes_of j) u)
  put-Counts j u i s b v h = elim (Bool-cases (i == j)) [
    | inl e ↦ rw e (
        subst
          (λ k.
            Counts (if b.voter_id == u then 1 else 0) (repo.has_voted (s.votes_of k) u)
              (repo.has_voted v u))
          ((eq_iff i j).0 e) (created-Counts u b.voter_id b.option_id (s.votes_of i) v h))
    | inr e ↦ rw e (inl (refl, λ k. k))
  ]

  step-Counts :
      (j u i : String) (s : Service V C) (b : Ballot) (x : Service V C × Verdict)
      → Stores s i b x
      → Counts
          (vote_of j u i b x.1)
          (repo.has_voted (s.votes_of j) u)
          (repo.has_voted (x.0.votes_of j) u)
  unfolding Stores
  step-Counts j u i s b (t, refused r) same = rw same (inl (refl, λ k. k))
  step-Counts j u i s b (t, recorded p) (v, h, same) = rw same (put-Counts j u i s b v h)

  -- However requests overlap, whichever operations on the stores fail, and under whichever IDs they vote:
  -- of the votes of a voter under one spelling of a poll's ID at most one is recorded, and none if the
  -- voter has voted under that spelling before.
  pub one_vote_per_voter :
      (j u : String) (s : Service V C) (qs : List Request)
      → votes_recorded j u s qs ≤ (if repo.has_voted (s.votes_of j) u then 0 else 1)
  unfolding votes_recorded
  one_vote_per_voter j u s [] = omega arith
  one_vote_per_voter j u s (q ∷ qs) =
      let after = (handle s q).0 in
      let rest = one_vote_per_voter j u after qs in
      elim (step-Counts j u (id_of q) s (ballot_of q) (handle s q) (handle-Stores s q)) [
        | inl (n, stays) ↦ ground (arith, rest, n, stays)
        | inr (n, unvoted, voted) ↦ ground (arith, rest, n, unvoted, voted)
      ]
