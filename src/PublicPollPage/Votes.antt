-- ===== src/PublicPollPage/Votes.antt =====
-- One vote for each page: the vote that the page shows is the one that localStorage remembers, and
-- no run of the page records two.
use pulsepoll_hcl_guvi.Prelude.{
  ℕ, ◌+◌, ◌≤◌, String, Bool, true, false, ◌≡◌, refl, sym, ◌∙◌, ◌⊎◌, inl, inr, Option, List, [], ◌∷◌,
  arith, eq_iff, Bool-cases, if◌then◌else◌,
}
use pulsepoll_hcl_guvi.Text.{truthy}
use pulsepoll_hcl_guvi.Auth.{Reply, ok, error, has_token}
use pulsepoll_hcl_guvi.Socket.{on_snapshot, on_vote_update, on_poll_closed}
use pulsepoll_hcl_guvi.PublicPollPage.{
  Page, or_null, start, fetch, poll_arrived, results_arrived, receive, handle_submit, vote_arrived,
  can_submit, Event, load, polled, counted, delivered, select, submit, voted, is_casting, drop_one,
  step, run,
}

-- `casting` holds one vote while the page is voting, for a named option, and none otherwise; and a
-- page that has voted sends no other.
pub record IsConsistent (p : Page) : Type 0 where
  pub remembered : p.has_voted ≡ has_token p.stored
  pub same_vote : p.user_voted ≡ or_null p.stored
  pub one_vote :
      ((p.casting ≡ []) × (p.is_voting ≡ false))
      ⊎ ((o : String) × (p.casting ≡ o ∷ [])
          × (truthy o ≡ true)
          × (p.is_voting ≡ true)
          × (p.has_voted ≡ false))

pub start-IsConsistent :
    (poll_id : String) (stored : Option String) → IsConsistent (start poll_id stored)
unfolding start
start-IsConsistent poll_id stored = record {
  remembered = refl;
  same_vote = refl;
  one_vote = inl (refl, refl);
}

fetch-IsConsistent : (p : Page) → IsConsistent p → IsConsistent (fetch p).0
unfolding fetch
fetch-IsConsistent p v = ground (arith, v.remembered, v.same_vote, v.one_vote)

submit-IsConsistent :
    (p : Page) → IsConsistent p → IsConsistent (if can_submit p then (handle_submit p).0 else p)
unfolding handle_submit can_submit
submit-IsConsistent p v = ground (arith, v.remembered, v.same_vote, v.one_vote)

pub casting_one :
    (o : String) (p : Page)
    → IsConsistent p
    → is_casting o p.casting ≡ true
    → (truthy o ≡ true) × (drop_one o p.casting ≡ []) × (p.has_voted ≡ false)
casting_one o p v c = go v.one_vote
  where
    go :
        ((p.casting ≡ []) × (p.is_voting ≡ false))
          ⊎ ((q : String) × (p.casting ≡ q ∷ [])
              × (truthy q ≡ true)
              × (p.is_voting ≡ true)
              × (p.has_voted ≡ false))
        → (truthy o ≡ true) × (drop_one o p.casting ≡ []) × (p.has_voted ≡ false)
    go (inl h) = ground arith
    go (inr (q, one, named, voting, fresh)) = ground (arith, eq_iff q o)

voted-IsConsistent :
    (lower : String → String) (o : String) (reply : Reply (Unit {0})) (p : Page)
    → IsConsistent p
    → is_casting o p.casting ≡ true
    → IsConsistent (vote_arrived lower o reply (record p { casting = drop_one o p.casting }))
unfolding vote_arrived
voted-IsConsistent lower o (ok _) p v c =
    let (named, none_left, fresh) = casting_one o p v c in ground (arith, named, none_left)
voted-IsConsistent lower o (error e) p v c =
    let (named, none_left, fresh) = casting_one o p v c in
    ground (arith, named, none_left, v.remembered, v.same_vote)

if-IsConsistent :
    (b : Bool) (p q : Page)
    → (b ≡ true → IsConsistent p)
    → IsConsistent q
    → IsConsistent (if b then p else q)
if-IsConsistent true p q v w = v refl
if-IsConsistent false p q v w = w

pub step-IsConsistent :
    (lower : String → String) (p : Page) (e : Event)
    → IsConsistent p
    → IsConsistent (step lower p e)
unfolding step poll_arrived results_arrived receive
step-IsConsistent lower p load v = fetch-IsConsistent p v
step-IsConsistent lower p (polled (ok poll) now) v =
    ground (arith, v.remembered, v.same_vote, v.one_vote)
step-IsConsistent lower p (polled (error e) now) v =
    ground (arith, v.remembered, v.same_vote, v.one_vote)
step-IsConsistent lower p (counted poll (ok c)) v =
    ground (arith, v.remembered, v.same_vote, v.one_vote)
step-IsConsistent lower p (counted poll (error c)) v =
    ground (arith, v.remembered, v.same_vote, v.one_vote)
step-IsConsistent lower p (delivered (on_snapshot q)) v =
    ground (arith, v.remembered, v.same_vote, v.one_vote)
step-IsConsistent lower p (delivered (on_vote_update q)) v =
    ground (arith, v.remembered, v.same_vote, v.one_vote)
step-IsConsistent lower p (delivered (on_poll_closed q)) v =
    ground (arith, v.remembered, v.same_vote, v.one_vote)
step-IsConsistent lower p (select o) v = ground (arith, v.remembered, v.same_vote, v.one_vote)
step-IsConsistent lower p submit v = submit-IsConsistent p v
step-IsConsistent lower p (voted o reply) v =
    if-IsConsistent (is_casting o p.casting)
      (vote_arrived lower o reply (record p { casting = drop_one o p.casting })) p
      (voted-IsConsistent lower o reply p v) v
step-IsConsistent lower p e v = ground (arith, v.remembered, v.same_vote, v.one_vote)

-- Whatever happens to a page of which this holds (as it does of a new one): the page has voted exactly if localStorage remembers a vote for this poll, the
-- vote that it shows is that one, and at most one vote is under way, which a page that has voted
-- has not.
pub run-IsConsistent :
    (lower : String → String) (p : Page) (es : List Event)
    → IsConsistent p
    → IsConsistent (run lower p es)
unfolding run
run-IsConsistent lower p [] v = v
run-IsConsistent lower p (e ∷ es) v =
    run-IsConsistent lower (step lower p e) es (step-IsConsistent lower p e v)

-- A page that is opened again shows the vote that the page before it has shown.
pub reload_keeps_vote :
    (lower : String → String) (poll_id : String) (stored : Option String) (es : List Event)
    → let p = run lower (start poll_id stored) es in
      let again = start poll_id p.stored in
      (again.has_voted ≡ p.has_voted) × (again.user_voted ≡ p.user_voted)
unfolding start
reload_keeps_vote lower poll_id stored es =
    let v = run-IsConsistent lower (start poll_id stored) es (start-IsConsistent poll_id stored) in
    (sym v.remembered, sym v.same_vote)

-- the votes that the server accepts in a run
unfoldable pub accepted : Page → Event → ℕ
accepted p (voted o (ok _)) = if is_casting o p.casting then 1 else 0
accepted p _ = 0

unfoldable pub recorded : (String → String) → Page → List Event → ℕ
unfolding accepted
recorded lower p [] = 0
recorded lower p (e ∷ es) = accepted p e + recorded lower (step lower p e) es

not_casting :
    (o : String) (p : Page) → IsConsistent p → p.has_voted ≡ true → is_casting o p.casting ≡ false
not_casting o p v h = ground (arith, v.one_vote)

step_voted :
    (lower : String → String) (p : Page) (e : Event)
    → IsConsistent p
    → p.has_voted ≡ true
    → (accepted p e ≡ 0) × ((step lower p e).has_voted ≡ true)
unfolding accepted step fetch poll_arrived results_arrived receive can_submit
step_voted lower p (voted o (ok _)) v h = ground (arith, not_casting o p v h)
step_voted lower p (voted o (error e)) v h = ground (arith, not_casting o p v h)
step_voted lower p (polled (ok poll) now) v h = ground arith
step_voted lower p (polled (error e) now) v h = ground arith
step_voted lower p (counted poll (ok c)) v h = ground arith
step_voted lower p (counted poll (error c)) v h = ground arith
step_voted lower p (delivered (on_snapshot q)) v h = ground arith
step_voted lower p (delivered (on_vote_update q)) v h = ground arith
step_voted lower p (delivered (on_poll_closed q)) v h = ground arith
step_voted lower p e v h = ground arith

step-accepted :
    (lower : String → String) (p : Page) (e : Event)
    → (accepted p e ≡ 0) ⊎ ((accepted p e ≡ 1) × ((step lower p e).has_voted ≡ true))
unfolding accepted step vote_arrived
step-accepted lower p (voted o (ok _)) = ground arith
step-accepted lower p (voted o (error e)) = ground arith
step-accepted lower p _ = inl refl

recorded_voted :
    (lower : String → String) (p : Page) (es : List Event)
    → IsConsistent p
    → p.has_voted ≡ true
    → recorded lower p es ≡ 0
unfolding recorded
recorded_voted lower p [] v h = refl
recorded_voted lower p (e ∷ es) v h =
    let (none_here, still) = step_voted lower p e v h in
    omega (
      arith,
      none_here,
      recorded_voted lower (step lower p e) es (step-IsConsistent lower p e v) still,
    )

recorded-le :
    (lower : String → String) (p : Page) (es : List Event)
    → IsConsistent p
    → recorded lower p es ≤ 1
unfolding recorded
recorded-le lower p [] v = omega arith
recorded-le lower p (e ∷ es) v = elim (step-accepted lower p e) [
  | inl none_here ↦
      omega (arith, recorded-le lower (step lower p e) es (step-IsConsistent lower p e v))
  | inr one_here ↦
      omega
        (arith, recorded_voted lower (step lower p e) es (step-IsConsistent lower p e v) one_here.1)
]

has_voted-start :
    (poll_id : String) (stored : Option String)
    → (start poll_id stored).has_voted ≡ has_token stored
unfolding start
has_voted-start poll_id stored = refl

-- Through its controls a page gets at most one vote accepted, however its events are ordered, and
-- none if localStorage remembers a vote when it is opened.
pub one_vote_recorded :
    (lower : String → String) (poll_id : String) (stored : Option String) (es : List Event)
    → recorded lower (start poll_id stored) es ≤ (if has_token stored then 0 else 1)
one_vote_recorded lower poll_id stored es =
    let v = start-IsConsistent poll_id stored in
    elim (Bool-cases (has_token stored)) [
      | inl h ↦
          let voted_before = has_voted-start poll_id stored ∙ h in
          let none_here = recorded_voted lower (start poll_id stored) es v voted_before in
          rw h (omega (arith, none_here))
      | inr h ↦ rw h (recorded-le lower (start poll_id stored) es v)
    ]
