-- ===== src/Server/Browser/Votes.antt =====
-- A browser that keeps its cookie votes once under one spelling of a poll's ID.
use pulsepoll_hcl_guvi.Prelude.{
  ◌+◌, ◌≤◌, ◌≡◌, refl, ap, ap₂, ◌∙◌, subst, String, true, Option, none, some, List, [], ◌∷◌, All,
  arith, eq_refl, Bool-cases, inl, inr,
}
use pulsepoll_hcl_guvi.Server.{VoteRepository, VoteCounterStore, Ballot, Verdict, refused, recorded}
use pulsepoll_hcl_guvi.Server.Calls.{Service}
use pulsepoll_hcl_guvi.Server.Voters.{
  Request, handle, id_of, ballot_of, vote_of, votes_recorded, one_vote_per_voter,
}
use pulsepoll_hcl_guvi.Server.Browser.{
  Visit, is_voter_id, by_cookie, get_or_create_voter_id, browse, is_recorded, votes_cast,
}

abbrev AreOf : (i u : String) → List Request → Type 0
AreOf i u = All (λ q. (id_of q ≡ i) × ((ballot_of q).voter_id ≡ u))

vote-eq :
    (i u j : String) (b : Ballot) (v : Verdict)
    → j ≡ i
    → b.voter_id ≡ u
    → is_recorded v ≡ vote_of i u j b v
vote-eq i u j b (recorded e) same h = rw (same, h) (rw (eq_refl i, eq_refl u) refl)
vote-eq i u j b (refused r) same h = refl

module _ {V C : Type 0} ⦃repo : VoteRepository V⦄ ⦃redis : VoteCounterStore C⦄ where
  votes_cast-recorded :
      (i u : String) (s : Service V C) (qs : List Request)
      → AreOf i u qs
      → votes_cast s qs ≡ votes_recorded i u s qs
  unfolding votes_cast votes_recorded
  votes_cast-recorded i u s [] h = refl
  votes_cast-recorded i u s (q ∷ qs) ((same, h), hs) =
      ap₂ ◌+◌ (vote-eq i u (id_of q) (ballot_of q) (handle s q).1 same h)
        (votes_cast-recorded i u (handle s q).0 qs hs)

module _ (trim_space : String → String) (trims_empty : trim_space "" ≡ "") (i : String) where
  -- the voter of a browser that has a valid cookie
  kept-AreOf :
      (c : String) (vs : List Visit)
      → is_voter_id (trim_space c) ≡ true
      → AreOf i (trim_space c) (browse trim_space i (some c) vs)
  unfolding browse get_or_create_voter_id
  kept-AreOf c [] h = tt
  kept-AreOf c (v ∷ vs) h = rw trims_empty (rw h ((refl, refl), kept-AreOf c vs h))

  -- what `GenerateVoterID` makes, an ID without space; and the browser has the answer in time
  abbrev pub IsFresh : Visit → Type 0
  IsFresh v = (is_voter_id v.fresh ≡ true) × (trim_space v.fresh ≡ v.fresh) × (v.is_answered ≡ true)

  fresh-AreOf :
      (cookie : Option String) (v : Visit) (vs : List Visit)
      → IsFresh v
      → get_or_create_voter_id trim_space none cookie v.fresh
        ≡ record { id = v.fresh; sets_cookie = true }
      → AreOf i v.fresh (browse trim_space i cookie (v ∷ vs))
  unfolding browse
  fresh-AreOf cookie v vs (valid, bare, answered) e =
      rw (e, answered)
        (
          (refl, refl),
          subst (λ u. AreOf i u (browse trim_space i (some v.fresh) vs)) bare
              (kept-AreOf v.fresh vs (ap is_voter_id bare ∙ valid)),
        )

  created :
      (cookie : Option String) (fresh : String)
      → by_cookie trim_space cookie fresh ≡ record { id = fresh; sets_cookie = true }
      → get_or_create_voter_id trim_space none cookie fresh
        ≡ record { id = fresh; sets_cookie = true }
  unfolding get_or_create_voter_id
  created cookie fresh e = rw trims_empty e

  -- one voter for all the requests of a browser
  one_voter :
      (cookie : Option String) (vs : List Visit)
      → All IsFresh vs
      → (u : String) × AreOf i u (browse trim_space i cookie vs)
  one_voter cookie [] h = ("", unfold browse in tt)
  one_voter none (v ∷ vs) (h, hs) = (v.fresh, fresh-AreOf none v vs h (created none v.fresh refl))
  one_voter (some c) (v ∷ vs) (h, hs) = elim (Bool-cases (is_voter_id (trim_space c))) [
    | inl e ↦ (trim_space c, kept-AreOf c (v ∷ vs) e)
    | inr e ↦ (v.fresh, fresh-AreOf (some c) v vs h (created (some c) v.fresh (rw e refl)))
  ]

  -- Suppose that `TrimSpace` leaves the empty text, and that each ID which `GenerateVoterID` makes has no
  -- space and a length that the server takes. Whatever cookie a browser has at first: if it sends no
  -- voter's header, keeps the cookie that the server sets, has the answer to each of its requests before
  -- it sends the next, and spells the poll's ID in one way, then of all the votes that it casts
  -- the server records one at most, whichever operations on the stores fail.
  pub one_vote_per_browser :
      {V C : Type 0} ⦃repo : VoteRepository V⦄ ⦃redis : VoteCounterStore C⦄ (s : Service V C)
      (cookie : Option String) (vs : List Visit)
      → All IsFresh vs
      → votes_cast s (browse trim_space i cookie vs) ≤ 1
  one_vote_per_browser s cookie vs h =
      let (u, same) = one_voter cookie vs h in
      let qs = browse trim_space i cookie vs in
      ground (arith, votes_cast-recorded i u s qs same, one_vote_per_voter i u s qs)
