-- ===== src/Results/Updates.antt =====
-- What the messages of the socket do to the live results.
use pulsepoll_hcl_guvi.Prelude.{
  ℕ, suc, ◌+◌, ◌≡◌, refl, ap, ap₂, sym, ◌∙◌, true, false, String, some, none, List, [], ◌∷◌, map,
  sum_of, All, arith, if◌then◌else◌, ◌⊎◌, inl, inr, Bool-cases,
}
use pulsepoll_hcl_guvi.Results.{
  Entry, Results, Payload, votes_of, or_nullish, is_target, is_foreign, update_entry, apply_vote,
  apply_snapshot, row_key,
}

-- A message for another poll changes nothing, of either kind.
pub foreign_ignored :
    (poll_id : String) (p : Payload) (r : Results)
    → is_foreign poll_id p ≡ true
    → (apply_vote poll_id p r ≡ r) × (apply_snapshot poll_id p r ≡ r)
unfolding apply_vote apply_snapshot
foreign_ignored poll_id p r h = (rw h refl, rw h refl)

-- the messages that change results, as they arrive
pub data Message : Type 0 where
  vote snapshot : Payload → Message

pub receive : String → Results → Message → Results
receive poll_id r (vote p) = apply_vote poll_id p r
receive poll_id r (snapshot p) = apply_snapshot poll_id p r

pub receive_all : String → Results → List Message → Results
unfolding receive
receive_all poll_id r [] = r
receive_all poll_id r (m ∷ ms) = receive_all poll_id (receive poll_id r m) ms

snapshot-eq :
    (poll_id : String) (p : Payload) (options : List Entry) (r : Results)
    → is_foreign poll_id p ≡ false
    → p.options ≡ some options
    → apply_snapshot poll_id p r ≡ record { options = options; total = or_nullish p.total_votes 0 }
unfolding apply_snapshot
snapshot-eq poll_id p options r own h = rw own (rw h refl)

-- A snapshot of this poll brings two pages together, whatever each had received before: the
-- results are those of the snapshot.
pub snapshot_converges :
    (poll_id : String) (p : Payload) (options : List Entry) (r r' : Results) (ms ms' : List Message)
    → is_foreign poll_id p ≡ false
    → p.options ≡ some options
    → (receive poll_id (receive_all poll_id r ms) (snapshot p)
        ≡ receive poll_id (receive_all poll_id r' ms') (snapshot p))
      × (receive poll_id (receive_all poll_id r ms) (snapshot p)
          ≡ record { options = options; total = or_nullish p.total_votes 0 })
unfolding receive
snapshot_converges poll_id p options r r' ms ms' own h = (
  snapshot-eq poll_id p options _ own h ∙ sym (snapshot-eq poll_id p options _ own h),
  snapshot-eq poll_id p options _ own h,
)

update_entry_idem :
    (p : Payload) (total : ℕ) (e : Entry)
    → update_entry p total (update_entry p total e) ≡ update_entry p total e
unfolding update_entry
update_entry_idem p total e = ground arith

map-update_idem :
    (p : Payload) (total : ℕ) (es : List Entry)
    → map (update_entry p total) (map (update_entry p total) es) ≡ map (update_entry p total) es
map-update_idem p total [] = refl
map-update_idem p total (e ∷ es) =
    ap₂ ◌∷◌ (update_entry_idem p total e) (map-update_idem p total es)

apply_vote-eq :
    (poll_id : String) (p : Payload) (total : ℕ) (r : Results)
    → is_foreign poll_id p ≡ false
    → p.total_votes ≡ some total
    → apply_vote poll_id p r
      ≡ record { options = map (update_entry p total) r.options; total = total }
unfolding apply_vote
apply_vote-eq poll_id p total r own h = rw own (
    ap
      (λ o. record {
        options = map (update_entry p (or_nullish o (r.total + 1))) r.options;
        total = or_nullish o (r.total + 1);
      })
      h)

update_twice :
    (poll_id : String) (p : Payload) (total : ℕ) (r : Results)
    → is_foreign poll_id p ≡ false
    → p.total_votes ≡ some total
    → apply_vote poll_id p (apply_vote poll_id p r) ≡ apply_vote poll_id p r
update_twice poll_id p total r own h =
    let once = apply_vote-eq poll_id p total r own h in
    let twice = apply_vote-eq poll_id p total (apply_vote poll_id p r) own h in
    let options =
      ap (λ (s : Results). map (update_entry p total) s.options) once
      ∙ map-update_idem p total r.options in
    twice ∙ ap (λ (es : List Entry). record { options = es; total = total }) options ∙ sym once

-- A vote update that names its total has the same effect delivered twice as once.
pub apply_vote_idem :
    (poll_id : String) (p : Payload) (total : ℕ) (r : Results)
    → p.total_votes ≡ some total
    → apply_vote poll_id p (apply_vote poll_id p r) ≡ apply_vote poll_id p r
unfolding apply_vote
apply_vote_idem poll_id p total r h = elim (Bool-cases (is_foreign poll_id p)) [
  | inl foreign ↦ rw foreign refl
  | inr own ↦ update_twice poll_id p total r own h
]

keys-update :
    (p : Payload) (total : ℕ) (es : List Entry)
    → map row_key (map (update_entry p total) es) ≡ map row_key es
unfolding update_entry
keys-update p total [] = refl
keys-update p total (e ∷ es) = rw (keys-update p total es)

texts-update :
    (p : Payload) (total : ℕ) (es : List Entry)
    → map (λ e. e.text) (map (update_entry p total) es) ≡ map (λ e. e.text) es
unfolding update_entry
texts-update p total [] = refl
texts-update p total (e ∷ es) = cc (texts-update p total es)

votes-update :
    (p : Payload) (total : ℕ) (es : List Entry)
    → map votes_of (map (update_entry p total) es)
      ≡ map (λ e. if is_target p e then p.count else votes_of e) es
unfolding update_entry
votes-update p total [] = refl
votes-update p total (e ∷ es) = cc (votes-update p total es)

-- An update for this poll keeps the keys and the texts of the entries in their order, and replaces
-- the votes of its target only.
pub apply_vote_entries :
    (poll_id : String) (p : Payload) (r : Results)
    → is_foreign poll_id p ≡ false
    → (map row_key (apply_vote poll_id p r).options ≡ map row_key r.options)
      × (map (λ e. e.text) (apply_vote poll_id p r).options ≡ map (λ e. e.text) r.options)
      × (map votes_of (apply_vote poll_id p r).options
          ≡ map (λ e. if is_target p e then p.count else votes_of e) r.options)
unfolding apply_vote
apply_vote_entries poll_id p r own =
    let total = or_nullish p.total_votes (r.total + 1) in
    rw own (
      keys-update p total r.options,
      texts-update p total r.options,
      votes-update p total r.options,
    )

-- `e` is the only entry that the update changes, and the update counts one more vote for it.
abbrev pub CountsOne : Payload → List Entry → Type 0
CountsOne p [] = ⊥
CountsOne p (e ∷ es) =
    ((is_target p e ≡ true) × (p.count ≡ suc (votes_of e)) × All (λ f. is_target p f ≡ false) es)
    ⊎ ((is_target p e ≡ false) × CountsOne p es)

unchanged-sum :
    (p : Payload) (total : ℕ) (es : List Entry)
    → All (λ f. is_target p f ≡ false) es
    → sum_of votes_of (map (update_entry p total) es) ≡ sum_of votes_of es
unfolding update_entry
unchanged-sum p total [] _ = refl
unchanged-sum p total (e ∷ es) (h, hs) = ground (arith, unchanged-sum p total es hs)

counted-sum :
    (p : Payload) (total : ℕ) (es : List Entry)
    → CountsOne p es
    → sum_of votes_of (map (update_entry p total) es) ≡ sum_of votes_of es + 1
unfolding update_entry
counted-sum p total [] h = absurd h
counted-sum p total (e ∷ es) (inl h) = ground (arith, unchanged-sum p total es h.2)
counted-sum p total (e ∷ es) (inr h) = ground (arith, counted-sum p total es h.1)

-- If the counts add up to the total, they still do after an update that counts one more vote for
-- exactly one option and names the total plus one, or no total; one for another poll included.
pub apply_vote-sum :
    (poll_id : String) (p : Payload) (r : Results)
    → CountsOne p r.options
    → (p.total_votes ≡ none) ⊎ (p.total_votes ≡ some (r.total + 1))
    → sum_of votes_of r.options ≡ r.total
    → sum_of votes_of (apply_vote poll_id p r).options ≡ (apply_vote poll_id p r).total
unfolding apply_vote
apply_vote-sum poll_id p r one total sum = elim (Bool-cases (is_foreign poll_id p)) [
  | inl foreign ↦ rw foreign sum
  | inr own ↦
      let new = or_nullish p.total_votes (r.total + 1) in
      let more : new ≡ r.total + 1 = ground arith in
      rw own (omega (arith, counted-sum p new r.options one))
]
