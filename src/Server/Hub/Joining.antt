-- ===== src/Server/Hub/Joining.antt =====
-- A client that joins a hub while the last client of the hub leaves.
use pulsepoll_hcl_guvi.Prelude.{
  ℕ, ◌≡◌, refl, ap, ◌∙◌, true, false, List, [], ◌∷◌, arith, nat_eq, nat_eq_iff,
}
use pulsepoll_hcl_guvi.Server.Hub.{
  Phase, PollHub, Event, next, panic, update, close, is_created, new_poll_hub, step, run,
}
use pulsepoll_hcl_guvi.Server.Hub.Safety.Steps.{reached-IsSafe}

module _ {M : Type 0} where
  -- the events of the last client `c`, which leaves, and of `d`, which `ServeWS` serves meanwhile
  abbrev pub crossing : (c d : ℕ) → M → List (Event M)
  crossing c d m = Event.unregister c ∷ Event.turn_away d ∷ Event.greet d m ∷ []

  last_leaves :
      (h : PollHub M) (c d : ℕ)
      → h.is_running ≡ true
      → h.clients ≡ c ∷ []
      → (h.heap c).phase ≡ Phase.launched
      → (h.heap c).is_closed ≡ false
      → nat_eq c d ≡ false
      → (g : PollHub M) × (step (Event.unregister c) h ≡ next g)
        × (g.is_done ≡ true)
        × (g.heap d ≡ h.heap d)
  unfolding step
  last_leaves h c d running only launched closed other = (
    record {
      heap = update h.heap c (close (h.heap c));
      clients = [];
      broadcast = h.broadcast;
      is_done = true;
      is_running = false;
    },
    simp (running, launched, closed, only, (nat_eq_iff c c).1 refl),
    refl,
    rw other refl,
  )

  turned_away :
      (g : PollHub M) (d : ℕ)
      → g.is_done ≡ true
      → (g.heap d).phase ≡ Phase.created
      → (g.heap d).is_closed ≡ false
      → (k : PollHub M) × (step (Event.turn_away d) g ≡ next k)
        × ((k.heap d).is_closed ≡ true)
        × ((k.heap d).phase ≡ Phase.registered)
  unfolding step
  turned_away g d done created closed =
      let same = (nat_eq_iff d d).1 refl in
      (
        record g {
          heap = update g.heap d (record (close (g.heap d)) { phase = Phase.registered });
        },
        rw done (rw created (rw closed refl)),
        rw same refl,
        rw same refl,
      )

  greet_panics :
      (k : PollHub M) (d : ℕ) (m : M)
      → (k.heap d).phase ≡ Phase.registered
      → (k.heap d).is_closed ≡ true
      → step (Event.greet d m) k ≡ panic
  unfolding step
  greet_panics k d m registered closed = rw registered (rw closed refl)

  -- Whatever a hub has done since it was made: if its only client leaves after `GetOrCreateHub` has
  -- returned the hub to the request of another client and before that client is registered, then
  -- `Register` closes the client's channel and the send of the snapshot to it panics.
  pub joining_while_leaving_panics :
      (es : List (Event M)) (h : PollHub M) (c d : ℕ) (m : M)
      → run es new_poll_hub ≡ next h
      → h.is_running ≡ true
      → h.clients ≡ c ∷ []
      → (h.heap c).phase ≡ Phase.launched
      → (h.heap d).phase ≡ Phase.created
      → run (crossing c d m) h ≡ panic
  unfolding run
  joining_while_leaving_panics es h c d m r running only launched created =
      let s = reached-IsSafe es h r in
      let same = (nat_eq_iff c c).1 refl in
      let (g, leaves, done, kept) =
        last_leaves h c d running only launched
          ((s.synced c).closed ∙ rw launched (rw only (rw same refl)))
          (ground
            (arith, nat_eq_iff c d, ap (λ i. is_created (h.heap i).phase), launched, created)) in
      let (k, away, closed, registered) =
        turned_away g d done (ap (λ x. x.phase) kept ∙ created)
          (ap (λ x. x.is_closed) kept ∙ (s.synced d).closed ∙ rw created refl) in
      rw leaves (rw away (rw (greet_panics k d m registered closed) refl))
