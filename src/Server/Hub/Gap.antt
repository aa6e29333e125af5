-- ===== src/Server/Hub/Gap.antt =====
-- An update that the hub delivers between the snapshot of a connection and its registration.
use mathlib.Core.List.{append-nil}
use pulsepoll_hcl_guvi.Prelude.{
  ℕ, ◌≡◌, refl, ap, ◌∙◌, true, false, List, [], ◌∷◌, arith, nat_eq_iff, Bool-cases, inl, inr, some,
}
use pulsepoll_hcl_guvi.Results.{Results, Poll, apply_snapshot}
use pulsepoll_hcl_guvi.Server.{
  VoteRepository, VoteCounterStore, all_work, Server, Ballot, cast_vote, snapshot,
}
use pulsepoll_hcl_guvi.Server.Tally.{IsShowing, IsRecorded, event_of, snapshot-IsShowing}
use pulsepoll_hcl_guvi.Server.Live.{stale_unseen}
use pulsepoll_hcl_guvi.Server.Hub.{
  received, PollHub, Event, next, mem, new_client, new_poll_hub, step, run,
}
use pulsepoll_hcl_guvi.Server.Hub.Safety.{IsSafe}
use pulsepoll_hcl_guvi.Server.Hub.Safety.Steps.{then_run-next, reached-IsSafe, run-IsSafe}
use pulsepoll_hcl_guvi.Server.Hub.Stream.{told, first}
use pulsepoll_hcl_guvi.Server.Hub.Stream.Queue.{delivered}
use pulsepoll_hcl_guvi.Server.Hub.Stream.Runs.{run-Tracks}
use pulsepoll_hcl_guvi.Server.Hub.Page.{Message, results_snapshot, vote_update, receive_messages}

module _ {M : Type 0} where
  -- The hub takes the next update from its queue, and then `ServeWS` registers `c` and sends it
  -- `m`.
  abbrev pub late_joining : (c : ℕ) → M → List (Event M)
  late_joining c m = Event.deliver ∷ Event.register c ∷ Event.greet c m ∷ []

  told-late_joining :
      (c : ℕ) (m : M) (h g : PollHub M)
      → mem c h.clients ≡ false
      → run (late_joining c m) h ≡ next g
      → told c (late_joining c m) h [] ≡ m ∷ []
  unfolding told run
  told-late_joining c m h g out r =
      let (h1, now1, later1) =
        then_run-next (run (Event.register c ∷ Event.greet c m ∷ [])) (step Event.deliver h) g r in
      let (h2, now2, later2) =
        then_run-next (run (Event.greet c m ∷ [])) (step (Event.register c) h1) g later1 in
      let (h3, now3, later3) = then_run-next (run []) (step (Event.greet c m) h2) g later2 in
      let same = (nat_eq_iff c c).1 refl in rw now1 (rw now2 (rw now3 (rw (out, same) refl)))

  delivered-late_joining :
      (c : ℕ) (m : M) (h g : PollHub M)
      → run (late_joining c m) h ≡ next g
      → delivered (late_joining c m) h ≡ first h.broadcast
  unfolding delivered run
  delivered-late_joining c m h g r =
      let (h1, now1, later1) =
        then_run-next (run (Event.register c ∷ Event.greet c m ∷ [])) (step Event.deliver h) g r in
      let (h2, now2, later2) =
        then_run-next (run (Event.greet c m ∷ [])) (step (Event.register c) h1) g later1 in
      let (h3, now3, later3) = then_run-next (run []) (step (Event.greet c m) h2) g later2 in
      rw now1 (rw now2 (rw now3 (append-nil (first h.broadcast))))

  outside : (c : ℕ) (h : PollHub M) → IsSafe h → h.heap c ≡ new_client → mem c h.clients ≡ false
  outside c h s new = elim (Bool-cases (mem c h.clients)) [
    | inl m ↦ absurd (ground (arith, (s.synced c).member m, ap (λ x. x.phase) new))
    | inr e ↦ e
  ]

  -- what a new client has that joins late
  received-late_joining :
      (es : List (Event M)) (c : ℕ) (m : M) (h g : PollHub M)
      → run es new_poll_hub ≡ next h
      → h.heap c ≡ new_client
      → run (late_joining c m) h ≡ next g
      → mem c g.clients ≡ true
      → received (g.heap c) ≡ m ∷ []
  received-late_joining es c m h g r0 new r joined =
      let s = reached-IsSafe es h r0 in
      let t = run-IsSafe (late_joining c m) h g s r in
      let tracks =
        run-Tracks c (late_joining c m) h g [] s
          (rw new (record { same = λ e. refl; before = λ e. refl })) r in
      tracks.same ((t.synced c).closed ∙ rw joined (ground arith))
      ∙ told-late_joining c m h g (outside c h s new) r

module _ {V C : Type 0} ⦃repo : VoteRepository V⦄ ⦃redis : VoteCounterStore C⦄ where
  -- With every operation at work, take any moment of a hub at which a new client is not registered
  -- yet and the snapshot for it is taken, and a vote that is recorded after that whose update is
  -- the next in the hub's queue. If the hub takes the update from the queue before `ServeWS`
  -- registers the client and sends it the snapshot, the update is delivered, but the client has
  -- received the snapshot only, and its page, whatever it showed before, does not show what the
  -- server counts.
  pub gap_unseen :
      (poll : Poll) (s : Server V C) (b : Ballot) (r : Results) (es : List (Event Message)) (c : ℕ)
      (later : List Message) (h g : PollHub Message)
      → run es new_poll_hub ≡ next h
      → h.heap c ≡ new_client
      → IsRecorded poll s b
      → h.broadcast ≡ vote_update (event_of poll s.counters b.option_id) ∷ later
      → run (late_joining c (results_snapshot (snapshot poll s.counters))) h ≡ next g
      → mem c g.clients ≡ true
      → (delivered (late_joining c (results_snapshot (snapshot poll s.counters))) h
          ≡ vote_update (event_of poll s.counters b.option_id) ∷ [])
        × (received (g.heap c) ≡ results_snapshot (snapshot poll s.counters) ∷ [])
        × (¬ IsShowing poll
            (cast_vote all_work (some poll) s b).0.counters
            (receive_messages poll.id r (received (g.heap c))))
  gap_unseen poll s b r es c later h g r0 new d queued r1 joined =
      let m = results_snapshot (snapshot poll s.counters) in
      let only = received-late_joining es c m h g r0 new r1 joined in
      (
        delivered-late_joining c m h g r1 ∙ rw queued refl,
        only,
        rw only (
            stale_unseen poll s b (apply_snapshot poll.id (snapshot poll s.counters) r) d
              (snapshot-IsShowing poll s.counters r)),
      )
