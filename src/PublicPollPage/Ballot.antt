-- ===== src/PublicPollPage/Ballot.antt =====
-- The visitor's ballot, which the voting page implements: fresh, under way, or given for good.
use pulsepoll_hcl_guvi.Prelude.{
  ◌≡◌, refl, ap, ◌∙◌, ◌++◌, ◌==◌, eq_refl, ◌⊎◌, inl, inr, String, Bool, true, false, Option, none,
  some, List, [], ◌∷◌, arith, eq_iff, if◌then◌else◌,
}
use pulsepoll_hcl_guvi.Text.{truthy}
use pulsepoll_hcl_guvi.Api.{Call}
use pulsepoll_hcl_guvi.Auth.{Reply, ok, error}
use pulsepoll_hcl_guvi.Socket.{on_snapshot, on_vote_update, on_poll_closed}
use pulsepoll_hcl_guvi.PublicPollPage.{
  Page, fetch, poll_arrived, results_arrived, receive, handle_submit, vote_arrived, can_submit,
  Event, load, polled, counted, delivered, select, submit, voted, dismiss_error, dismiss_success,
  copy, is_casting, drop_one, step, run,
}
use pulsepoll_hcl_guvi.PublicPollPage.Submit.{is_duplicate}
use pulsepoll_hcl_guvi.PublicPollPage.Votes.{IsConsistent, step-IsConsistent, casting_one}

pub data Ballot : Type 0 where
  fresh : Ballot
  sending given : String → Ballot

-- What can be seen of a page from outside: a vote that it sends, and an answer to a vote, by which
-- the server has a vote of this voter, or has not.
pub data Move : Type 0 where
  sent : String → Move
  answered : String → (has_vote : Bool) → Move

-- The ballot after a move; `none` is a move that the ballot does not allow. A named option is sent
-- from a fresh ballot only, only the vote under way is answered, and a given ballot has no move.
abbrev pub move : Ballot → Move → Option Ballot
move fresh (sent o) = if truthy o then some (sending o) else none
move (sending o) (answered q has_vote) =
    if q == o then some (if has_vote then given o else fresh) else none
move _ _ = none

unfoldable pub follow : Option Ballot → List Move → Option Ballot
follow o [] = o
follow none (m ∷ ms) = none
follow (some b) (m ∷ ms) = follow (move b m) ms

abbrev under_way : List String → Ballot
under_way [] = fresh
under_way (o ∷ os) = sending o

abbrev ballot_by : Option String → List String → Ballot
ballot_by none os = under_way os
ballot_by (some o) os = if truthy o then given o else under_way os

-- the ballot of a page, by what localStorage holds and what is under way
abbrev pub ballot : Page → Ballot
ballot p = ballot_by p.stored p.casting

-- whether the server has a vote of this voter, by its answer
abbrev pub has_vote : (String → String) → Reply (Unit {0}) → Bool
has_vote lower (ok _) = true
has_vote lower (error e) = is_duplicate lower e

abbrev pub sent_by : Option Call → String → List Move
sent_by none o = []
sent_by (some c) o = sent o ∷ []

-- what is seen of an event
abbrev pub seen : (String → String) → Page → Event → List Move
seen lower p submit = if can_submit p then sent_by (handle_submit p).1 p.selected else []
seen lower p (voted o reply) =
    if is_casting o p.casting then answered o (has_vote lower reply) ∷ [] else []
seen lower p _ = []

unfoldable pub moves : (String → String) → Page → List Event → List Move
moves lower p [] = []
moves lower p (e ∷ es) = seen lower p e ++ moves lower (step lower p e) es

submit_sends :
    (p : Page) → can_submit p ≡ true → sent_by (handle_submit p).1 p.selected ≡ sent p.selected ∷ []
unfolding can_submit handle_submit
submit_sends p c = ground arith

submit_ballot :
    (p : Page)
    → IsConsistent p
    → can_submit p ≡ true
    → (ballot p ≡ fresh)
      × (truthy p.selected ≡ true)
      × (ballot (handle_submit p).0 ≡ sending p.selected)
unfolding can_submit handle_submit
submit_ballot p v c = ground (arith, v.remembered, v.one_vote)

sending_ballot :
    (o : String) (p : Page) → IsConsistent p → is_casting o p.casting ≡ true → ballot p ≡ sending o
sending_ballot o p v c = go v.one_vote
  where
    go :
        ((p.casting ≡ []) × (p.is_voting ≡ false))
          ⊎ ((q : String) × (p.casting ≡ q ∷ [])
              × (truthy q ≡ true)
              × (p.is_voting ≡ true)
              × (p.has_voted ≡ false))
        → ballot p ≡ sending o
    go (inl h) = ground arith
    go (inr (q, one, named, voting, new)) = ground (arith, v.remembered, eq_iff q o)

answered_ballot :
    (lower : String → String) (o : String) (reply : Reply (Unit {0})) (p : Page)
    → IsConsistent p
    → is_casting o p.casting ≡ true
    → ballot (vote_arrived lower o reply (record p { casting = drop_one o p.casting }))
      ≡ (if has_vote lower reply then given o else fresh)
unfolding vote_arrived
answered_ballot lower o (ok _) p v c = ground (arith, casting_one o p v c)
answered_ballot lower o (error e) p v c = ground (arith, v.remembered, casting_one o p v c)

follow-append :
    (o : Option Ballot) (ms ns : List Move) → follow o (ms ++ ns) ≡ follow (follow o ms) ns
unfolding follow
follow-append o [] ns = refl
follow-append none (m ∷ ms) ns = follow-none ns
  where
    follow-none : (ns : List Move) → none ≡ follow none ns
    follow-none [] = refl
    follow-none (n ∷ ns) = refl
follow-append (some b) (m ∷ ms) ns = follow-append (move b m) ms ns

if-Follows :
    (b : Bool) (p q : Page) (ms : List Move)
    → (b ≡ true → follow (some (ballot p)) ms ≡ some (ballot q))
    → follow (some (ballot p)) (if b then ms else []) ≡ some (ballot (if b then q else p))
unfolding follow
if-Follows true p q ms h = h refl
if-Follows false p q ms h = refl

submit-Follows :
    (p : Page)
    → IsConsistent p
    → can_submit p ≡ true
    → follow (some (ballot p)) (sent_by (handle_submit p).1 p.selected)
      ≡ some (ballot (handle_submit p).0)
unfolding follow
submit-Follows p v c =
    let (before, named, after) = submit_ballot p v c in
    rw (submit_sends p c, before, after) (rw named refl)

voted-Follows :
    (lower : String → String) (o : String) (reply : Reply (Unit {0})) (p : Page)
    → IsConsistent p
    → is_casting o p.casting ≡ true
    → follow (some (ballot p)) (answered o (has_vote lower reply) ∷ [])
      ≡ some (ballot (vote_arrived lower o reply (record p { casting = drop_one o p.casting })))
unfolding follow
voted-Follows lower o reply p v c =
    rw (sending_ballot o p v c, answered_ballot lower o reply p v c) (rw (eq_refl o) refl)

step-Follows :
    (lower : String → String) (p : Page) (e : Event)
    → IsConsistent p
    → follow (some (ballot p)) (seen lower p e) ≡ some (ballot (step lower p e))
unfolding step fetch poll_arrived results_arrived receive follow
step-Follows lower p submit v =
    if-Follows (can_submit p) p (handle_submit p).0 (sent_by (handle_submit p).1 p.selected)
      (submit-Follows p v)
step-Follows lower p (voted o reply) v =
    if-Follows (is_casting o p.casting) p
      (vote_arrived lower o reply (record p { casting = drop_one o p.casting }))
      (answered o (has_vote lower reply) ∷ []) (voted-Follows lower o reply p v)
step-Follows lower p load v = ground arith
step-Follows lower p (polled (ok poll) now) v = refl
step-Follows lower p (polled (error e) now) v = refl
step-Follows lower p (counted poll (ok c)) v = refl
step-Follows lower p (counted poll (error c)) v = refl
step-Follows lower p (delivered (on_snapshot q)) v = refl
step-Follows lower p (delivered (on_vote_update q)) v = refl
step-Follows lower p (delivered (on_poll_closed q)) v = ground arith
step-Follows lower p (select o) v = ground arith
step-Follows lower p dismiss_error v = refl
step-Follows lower p dismiss_success v = refl
step-Follows lower p (copy done) v = refl

-- Whatever happens to a voting page, from one of which the invariant `IsConsistent` holds on, the
-- votes that it sends and the answers to them are moves that its ballot allows, one after the
-- other, and lead to the ballot that it ends with: it sends a vote only while its ballot is fresh,
-- and the answer to that vote gives the option that was sent, if the server has a vote of this
-- voter, or else makes the ballot fresh again.
pub follow-moves :
    (lower : String → String) (p : Page) (es : List Event)
    → IsConsistent p
    → follow (some (ballot p)) (moves lower p es) ≡ some (ballot (run lower p es))
unfolding run moves
follow-moves lower p [] v = unfold follow in refl
follow-moves lower p (e ∷ es) v =
    follow-append (some (ballot p)) (seen lower p e) (moves lower (step lower p e) es)
    ∙ ap (λ o. follow o (moves lower (step lower p e) es)) (step-Follows lower p e v)
    ∙ follow-moves lower (step lower p e) es (step-IsConsistent lower p e v)
