-- ===== src/PublicPollPage/Closing.antt =====
-- A poll that is closed stays closed on the page, and no vote is sent for it.
use pulsepoll_hcl_guvi.Prelude.{
  ℕ, ◌+◌, String, true, false, ◌≡◌, refl, Option, none, some, List, [], ◌∷◌, arith, All,
  if◌then◌else◌,
}
use pulsepoll_hcl_guvi.Api.{Call}
use pulsepoll_hcl_guvi.Auth.{ok, error}
use pulsepoll_hcl_guvi.Socket.{on_snapshot, on_vote_update, on_poll_closed}
use pulsepoll_hcl_guvi.Results.{Payload, is_foreign}
use pulsepoll_hcl_guvi.PublicPollPage.{
  Page, fetch, results_arrived, receive, handle_submit, vote_arrived, can_submit, Event, polled,
  counted, delivered, submit, voted, step, run,
}

abbrev call_count : Option Call → ℕ
call_count none = 0
call_count (some _) = 1

-- the votes that an event sends
unfoldable pub sent : Page → Event → ℕ
sent p submit = if can_submit p then call_count (handle_submit p).1 else 0
sent p _ = 0

unfoldable pub votes_sent : (String → String) → Page → List Event → ℕ
unfolding sent
votes_sent lower p [] = 0
votes_sent lower p (e ∷ es) = sent p e + votes_sent lower (step lower p e) es

-- The event does not load the poll anew.
abbrev pub NotPolled : Event → Type 0
NotPolled (polled _ _) = ⊥
NotPolled _ = Unit

step_closed :
    (lower : String → String) (p : Page) (e : Event)
    → p.is_closed ≡ true
    → NotPolled e
    → (sent p e ≡ 0) × ((step lower p e).is_closed ≡ true)
unfolding sent step fetch results_arrived receive can_submit vote_arrived
step_closed lower p (polled r now) h n = absurd n
step_closed lower p (voted o (ok _)) h n = ground arith
step_closed lower p (voted o (error e)) h n = ground arith
step_closed lower p (counted poll (ok c)) h n = ground arith
step_closed lower p (counted poll (error c)) h n = ground arith
step_closed lower p (delivered (on_snapshot q)) h n = ground arith
step_closed lower p (delivered (on_vote_update q)) h n = ground arith
step_closed lower p (delivered (on_poll_closed q)) h n = ground arith
step_closed lower p e h n = ground arith

run_closed :
    (lower : String → String) (p : Page) (es : List Event)
    → p.is_closed ≡ true
    → All NotPolled es
    → (votes_sent lower p es ≡ 0) × ((run lower p es).is_closed ≡ true)
unfolding votes_sent run
run_closed lower p [] h _ = (refl, h)
run_closed lower p (e ∷ es) h (n, ns) =
    let (none_here, still) = step_closed lower p e h n in
    let (none_later, last) = run_closed lower (step lower p e) es still ns in (omega arith, last)

-- Once a `poll_closed` message for this poll has arrived, the page shows the poll as closed and
-- sends no vote, until the poll is loaded anew.
pub poll_closed_final :
    (lower : String → String) (p : Page) (q : Payload) (es : List Event)
    → is_foreign p.poll_id q ≡ false
    → All NotPolled es
    → let closed = step lower p (delivered (on_poll_closed q)) in
      (votes_sent lower closed es ≡ 0) × ((run lower closed es).is_closed ≡ true)
unfolding step receive
poll_closed_final lower p q es own ns =
    run_closed lower (step lower p (delivered (on_poll_closed q))) es (ground arith) ns
