-- ===== src/Server/Hub/Stream/Runs.antt =====
-- What each client has received after any run of a hub, and the order of the updates.
use pulsepoll_hcl_guvi.Prelude.{
  ℕ, ◌≡◌, refl, sym, ap, ◌∙◌, true, false, not, ◌&&◌, ◌||◌, subst, List, [], ◌∷◌, ◌++◌, arith, ltb,
  length,
}
use pulsepoll_hcl_guvi.Server.Hub.{
  Phase, is_absent, is_created, is_registered, is_launched, received, PollHub, Event, next, blocked,
  panic, new_client, mem, new_poll_hub, has_room, step, run, broadcast_size,
}
use pulsepoll_hcl_guvi.Server.Hub.Safety.{IsSafe, Keeps, is_greet, new_poll_hub-IsSafe}
use pulsepoll_hcl_guvi.Server.Hub.Safety.Steps.{then_run-next, reached-IsSafe, step-Keeps}
use pulsepoll_hcl_guvi.Server.Hub.Stream.Queue.{published, delivered, run-queue}
use pulsepoll_hcl_guvi.Server.Hub.Stream.{
  told, hears, Tracks, KeepsTrack, if-KeepsTrack, update-Tracks, close-Tracks, greet-Tracks,
  end_run-Tracks, after_unregister-Tracks, deliver-Tracks, write_first-Tracks,
}

registered_present : (p : Phase) → is_registered p ≡ true → is_absent p ≡ false
registered_present Phase.absent h = cc
registered_present Phase.created h = cc
registered_present Phase.registered h = refl
registered_present Phase.launched h = cc

module _ {M : Type 0} where
  step-Tracks :
      (c : ℕ) (e : Event M) (h : PollHub M) (ms : List M)
      → IsSafe h
      → Tracks ms (h.heap c)
      → KeepsTrack c (hears c e h ms) (step e h)
  unfolding step
  step-Tracks c (Event.create d) h ms s t =
      if-KeepsTrack c ms (is_absent (h.heap d).phase) _ blocked
        (λ e.
          update-Tracks h.heap c d new_client ms
            (λ k. record {
              same = λ o. sym (t.before (ground (arith, k, ap h.heap k, e)));
              before = λ b. cc;
            })
            t)
        (λ e. tt)
  step-Tracks c (Event.register d) h ms s t =
      if-KeepsTrack c ms (h.is_running && is_created (h.heap d).phase) _ blocked
        (λ e.
          update-Tracks h.heap c d _ ms
            (λ k. record {
              same = (subst (λ i. Tracks ms (h.heap i)) (sym k) t).same;
              before = λ b. cc;
            })
            t)
        (λ e. tt)
  step-Tracks c (Event.turn_away d) h ms s t =
      if-KeepsTrack c ms (h.is_done && is_created (h.heap d).phase) _ blocked
        (λ e.
          if-KeepsTrack c ms (h.heap d).is_closed panic _ (λ o. tt)
            (λ o.
              update-Tracks h.heap c d _ ms (λ k. record { same = λ u. cc; before = λ b. cc }) t))
        (λ e. tt)
  step-Tracks c (Event.greet d m) h ms s t =
      if-KeepsTrack c _ (not (is_registered (h.heap d).phase)) blocked _ (λ e. tt)
        (λ e.
          if-KeepsTrack c _ (h.heap d).is_closed panic _ (λ k. tt)
            (λ k.
              if-KeepsTrack c _ (has_room (h.heap d)) _ blocked
                (λ r.
                  greet-Tracks h.heap c d m ms (registered_present (h.heap d).phase (ground arith))
                    t)
                (λ r. tt)))
  step-Tracks c (Event.launch d) h ms s t =
      if-KeepsTrack c ms (is_registered (h.heap d).phase) _ blocked
        (λ e.
          update-Tracks h.heap c d _ ms
            (λ k. record {
              same = (subst (λ i. Tracks ms (h.heap i)) (sym k) t).same;
              before = λ b. cc;
            })
            t)
        (λ e. tt)
  step-Tracks c (Event.unregister d) h ms s t =
      if-KeepsTrack c ms (not h.is_running || not (is_launched (h.heap d).phase)) blocked _
        (λ e. tt)
        (λ e.
          if-KeepsTrack c ms (not (mem d h.clients)) _ _ (λ k. after_unregister-Tracks c ms h t)
            (λ k.
              if-KeepsTrack c ms (h.heap d).is_closed panic _ (λ o. tt)
                (λ o. after_unregister-Tracks c ms _ (
                  update-Tracks h.heap c d _ ms
                    (λ i. close-Tracks ms (h.heap d) (subst (λ i. Tracks ms (h.heap i)) (sym i) t))
                    t))))
  step-Tracks c (Event.write d) h ms s t =
      if-KeepsTrack c ms (is_launched (h.heap d).phase) _ blocked
        (λ e. write_first-Tracks c d ms (h.heap d).buffer h refl t) (λ e. tt)
  step-Tracks c (Event.publish m) h ms s t =
      if-KeepsTrack c ms (ltb (length h.broadcast) broadcast_size) _ blocked (λ e. t) (λ e. tt)
  step-Tracks c Event.deliver h ms s t =
      if-KeepsTrack c _ h.is_running _ blocked
        (λ e. deliver-Tracks c ms h.broadcast h (λ m. ground (arith, (s.synced c).member m)) t)
        (λ e. tt)
  step-Tracks c Event.stop h ms s t = t
  step-Tracks c Event.finish h ms s t =
      if-KeepsTrack c ms (h.is_running && h.is_done) _ blocked (λ e. end_run-Tracks c ms h t)
        (λ e. tt)

  pub run-Tracks :
      (c : ℕ) (es : List (Event M)) (h g : PollHub M) (ms : List M)
      → IsSafe h
      → Tracks ms (h.heap c)
      → run es h ≡ next g
      → Tracks (told c es h ms) (g.heap c)
  unfolding run told
  run-Tracks c [] h g ms s t r = subst (KeepsTrack c ms) r t
  run-Tracks c (e ∷ es) h g ms s t r =
      let (k, now, later) = then_run-next (run es) (step e h) g r in
      rw now (
        run-Tracks c es k g (hears c e h ms) (subst (Keeps (is_greet e)) now (step-Keeps e h s))
          (subst (KeepsTrack c (hears c e h ms)) now (step-Tracks c e h ms s t)) later)

  -- Whatever the hub and its clients have done since the hub was made: each of its clients has
  -- received exactly what `ServeWS` has sent it and the updates that the hub has taken from its queue
  -- since the client was registered, each once and in that order; and the updates that it
  -- has taken are those that were published, in order, up to the ones that wait in the queue.
  pub clients_hear_all :
      (c : ℕ) (es : List (Event M)) (h : PollHub M)
      → run es new_poll_hub ≡ next h
      → mem c h.clients ≡ true
      → (received (h.heap c) ≡ told c es new_poll_hub [])
        × (delivered es new_poll_hub ++ h.broadcast ≡ published es)
  clients_hear_all c es h r m =
      let t =
        run-Tracks c es new_poll_hub h [] new_poll_hub-IsSafe
          (record { same = λ e. refl; before = λ e. refl }) r in
      let s = reached-IsSafe es h r in
      (t.same ((s.synced c).closed ∙ rw m (ground arith)), run-queue es new_poll_hub h r refl)
