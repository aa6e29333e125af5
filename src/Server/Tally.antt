-- ===== src/Server/Tally.antt =====
-- What a page shows against what the server counts.
use pulsepoll_hcl_guvi.Prelude.{
  ℕ, ◌≡◌, refl, ap, ◌⊎◌, inl, inr, String, true, false, not, ◌||◌, Option, none, some, List, [],
  ◌∷◌, map, arith, eq_iff, eq_refl, Bool-cases,
}
use pulsepoll_hcl_guvi.Text.{truthy}
use pulsepoll_hcl_guvi.Results.{
  Entry, Results, Payload, PollOption, Poll, votes_of, is_foreign, update_entry, apply_vote,
  apply_snapshot,
}
use pulsepoll_hcl_guvi.Server.{
  VoteRepository, VoteCounterStore, all_work, Refusal, refused, recorded, Ballot, Server,
  has_option, admit, ensure, total_of, count_vote, record_vote, cast_vote, snapshot, snapshot_entry,
  stored, admitted, found,
}

-- the updates as they arrive at a page
unfoldable pub receive_updates : String → Results → List Payload → Results
receive_updates poll_id r [] = r
receive_updates poll_id r (p ∷ ps) = receive_updates poll_id (apply_vote poll_id p r) ps

own_message :
    (poll_id : String) (p : Payload) → p.poll_id ≡ some poll_id → is_foreign poll_id p ≡ false
unfolding is_foreign
own_message poll_id p h = ground (arith, eq_refl poll_id)

module _ {C : Type 0} ⦃redis : VoteCounterStore C⦄ where
  -- The entries stand for the options, with the counts that Redis holds.
  abbrev pub AreCounted : C → List PollOption → List Entry → Type 0
  AreCounted c [] [] = Unit
  AreCounted c (o ∷ os) (e ∷ es) =
      (e.option_id ≡ some o.id)
      × (e.id ≡ none)
      × (e.text ≡ o.text)
      × (votes_of e ≡ redis.count c o.id)
      × AreCounted c os es
  AreCounted c _ _ = ⊥

  -- A page shows the poll's options with the server's counts and their total.
  pub record IsShowing (poll : Poll) (c : C) (r : Results) : Type 0 where
    pub entries : AreCounted c poll.options r.options
    pub total : r.total ≡ total_of c poll.options

  snapshot_entries :
      (c : C) (total : ℕ) (os : List PollOption) → AreCounted c os (map (snapshot_entry c total) os)
  snapshot_entries c total [] = tt
  snapshot_entries c total (o ∷ os) = (refl, refl, refl, refl, snapshot_entries c total os)

  pub snapshot-IsShowing :
      (poll : Poll) (c : C) (r : Results)
      → IsShowing poll c (apply_snapshot poll.id (snapshot poll c) r)
  unfolding apply_snapshot snapshot
  snapshot-IsShowing poll c r =
      rw (own_message poll.id (snapshot poll c) refl) (record {
        entries = snapshot_entries c (total_of c poll.options) poll.options;
        total = refl;
      })

  update_counted :
      (c : C) (p : Payload) (total : ℕ) (o : String) (q : PollOption) (e : Entry)
      → p.option_id ≡ some o
      → p.count ≡ (redis.increment c o).1
      → e.option_id ≡ some q.id
      → e.id ≡ none
      → votes_of e ≡ redis.count c q.id
      → votes_of (update_entry p total e) ≡ redis.count (redis.increment c o).0 q.id
  unfolding update_entry
  update_counted c p total o q e ho hc he hi hv = ground (
    arith,
    eq_iff q.id o,
    eq_iff o q.id,
    redis.increment_counts c o q.id,
    redis.increment_returns c o,
  )

  update_entries :
      (c : C) (p : Payload) (total : ℕ) (o : String) (qs : List PollOption) (es : List Entry)
      → p.option_id ≡ some o
      → p.count ≡ (redis.increment c o).1
      → AreCounted c qs es
      → AreCounted (redis.increment c o).0 qs (map (update_entry p total) es)
  unfolding update_entry
  update_entries c p total o [] [] ho hc h = tt
  update_entries c p total o (q ∷ qs) (e ∷ es) ho hc (he, hi, ht, hv, h) = (
    he,
    hi,
    ht,
    update_counted c p total o q e ho hc he hi hv,
    update_entries c p total o qs es ho hc h,
  )
  update_entries c p total o [] (e ∷ es) ho hc h = absurd h
  update_entries c p total o (q ∷ qs) [] ho hc h = absurd h

  -- the event of a vote for `o`, with every operation at work
  unfoldable pub event_of : (poll : Poll) (c : C) (o : String) → Payload
  event_of poll c o = record {
    poll_id = some poll.id;
    options = none;
    option_id = some o;
    count = (redis.increment c o).1;
    total_votes = some (total_of (redis.increment c o).0 poll.options);
  }

  pub event-IsShowing :
      (poll : Poll) (c : C) (o : String) (r : Results)
      → IsShowing poll c r
      → IsShowing poll (redis.increment c o).0 (apply_vote poll.id (event_of poll c o) r)
  unfolding apply_vote event_of
  event-IsShowing poll c o r h = rw (own_message poll.id (event_of poll c o) refl) (record {
    entries =
        update_entries c (event_of poll c o) (total_of (redis.increment c o).0 poll.options) o
          poll.options r.options refl refl h.entries;
    total = refl;
  })

  count_vote-eq :
      (poll : Poll) (c : C) (o : String)
      → count_vote all_work poll c o ≡ ((redis.increment c o).0, some (event_of poll c o))
  unfolding count_vote event_of
  count_vote-eq poll c o = refl

module _ {V C : Type 0} ⦃repo : VoteRepository V⦄ ⦃redis : VoteCounterStore C⦄ where
  -- The server refuses the ballot and stays as it is.
  abbrev pub IsRefused : Poll → Server V C → Ballot → Type 0
  IsRefused poll s b = (r : Refusal) × (cast_vote all_work (some poll) s b ≡ (s, refused r))

  -- The server stores the vote, counts it, and publishes it.
  pub record IsRecorded (poll : Poll) (s : Server V C) (b : Ballot) : Type 0 where
    pub votes : V
    pub is_stored : repo.create s.votes b.voter_id b.option_id ≡ some votes
    pub is_option : has_option b.option_id poll.options ≡ true
    pub answer : cast_vote all_work (some poll) s b ≡ (
      record { votes = votes; counters = (redis.increment s.counters b.option_id).0 },
      recorded (some (event_of poll s.counters b.option_id)),
    )

  ensured :
      (poll : Poll) (s : Server V C)
      → redis.has_counters s.counters ≡ true
      → ensure all_work poll s ≡ s.counters
  unfolding ensure
  ensured poll s h = rw h refl

  record_cases :
      (poll : Poll) (s : Server V C) (b : Ballot)
      → redis.has_counters s.counters ≡ true
      → (record_vote all_work poll s b ≡ (s, refused Refusal.duplicate_vote))
        ⊎ ((v : V) × (repo.create s.votes b.voter_id b.option_id ≡ some v)
            × (record_vote all_work poll s b ≡ (
              record { votes = v; counters = (redis.increment s.counters b.option_id).0 },
              recorded (some (event_of poll s.counters b.option_id)),
            )))
  unfolding record_vote
  record_cases poll s b h =
      rw (ensured poll s h) (go (repo.create s.votes b.voter_id b.option_id) refl)
    where
      go :
          (o : Option V)
          → repo.create s.votes b.voter_id b.option_id ≡ o
          → (stored all_work poll s s.counters b.option_id o ≡ (s, refused Refusal.duplicate_vote))
            ⊎ ((v : V) × (o ≡ some v)
                × (stored all_work poll s s.counters b.option_id o ≡ (
                  record { votes = v; counters = (redis.increment s.counters b.option_id).0 },
                  recorded (some (event_of poll s.counters b.option_id)),
                )))
      go none e = inl refl
      go (some v) e = inr (
        v,
        refl,
        ap (λ (x : C × Option Payload). (record { votes = v; counters = x.0 }, recorded x.1))
            (count_vote-eq poll s.counters b.option_id),
      )

  admit_option :
      (poll : Poll) (s : Server V C) (b : Ballot)
      → admit all_work poll s b ≡ none
      → has_option b.option_id poll.options ≡ true
  unfolding admit
  admit_option poll s b h = ground arith

  found_cases :
      (poll : Poll) (s : Server V C) (b : Ballot)
      → redis.has_counters s.counters ≡ true
      → ((r : Refusal) × (found all_work (some poll) s b ≡ (s, refused r)))
        ⊎ ((v : V) × (repo.create s.votes b.voter_id b.option_id ≡ some v)
            × (has_option b.option_id poll.options ≡ true)
            × (found all_work (some poll) s b ≡ (
              record { votes = v; counters = (redis.increment s.counters b.option_id).0 },
              recorded (some (event_of poll s.counters b.option_id)),
            )))
  found_cases poll s b h = go (admit all_work poll s b) refl
    where
      go :
          (o : Option Refusal)
          → admit all_work poll s b ≡ o
          → ((r : Refusal) × (admitted all_work poll s b o ≡ (s, refused r)))
            ⊎ ((v : V) × (repo.create s.votes b.voter_id b.option_id ≡ some v)
                × (has_option b.option_id poll.options ≡ true)
                × (admitted all_work poll s b o ≡ (
                  record { votes = v; counters = (redis.increment s.counters b.option_id).0 },
                  recorded (some (event_of poll s.counters b.option_id)),
                )))
      go (some r) e = inl (r, refl)
      go none e = elim (record_cases poll s b h) [
        | inl d ↦ inl (Refusal.duplicate_vote, d)
        | inr a ↦ inr (a.0, a.1, admit_option poll s b e, a.2)
      ]

  -- While the hash exists, a ballot is refused or recorded.
  pub cast_cases :
      (poll : Poll) (s : Server V C) (b : Ballot)
      → redis.has_counters s.counters ≡ true
      → IsRefused poll s b ⊎ IsRecorded poll s b
  unfolding cast_vote
  cast_cases poll s b h = elim (Bool-cases (not (truthy b.option_id) || not (truthy b.voter_id))) [
    | inl e ↦ inl (Refusal.invalid_input, rw e refl)
    | inr e ↦ rw e (elim (found_cases poll s b h) [
      | inl d ↦ inl d
      | inr a ↦ inr (record { votes = a.0; is_stored = a.1; is_option = a.2; answer = rw e a.3 })
    ])
  ]
