-- ===== src/Server/Hub/Safety/Steps.antt =====
-- Every step of the hub and of its clients keeps the channels safe.
use pulsepoll_hcl_guvi.Prelude.{
  ◌≢◌, ℕ, ◌≤◌, ◌≡◌, refl, sym, ◌∙◌, Bool, true, false, not, ◌&&◌, ◌||◌, subst, List, [], ◌∷◌, arith,
  ltb, length, length-append,
}
use pulsepoll_hcl_guvi.Server.Hub.Members.{is_early, absent_early, created_early, registered_late}
use pulsepoll_hcl_guvi.Server.Hub.{
  send_buffer_size, Phase, is_absent, is_created, is_registered, is_launched, Client, PollHub,
  Event, Outcome, next, blocked, panic, new_client, mem, new_poll_hub, has_room, send, close,
  end_run, after_unregister, deliver_first, write_first, step, broadcast_size, then_run, run,
}
use pulsepoll_hcl_guvi.Server.Hub.Safety.{
  is_greet, IsSynced, IsSafe, Keeps, if-Keeps, set-IsSafe, create-IsSynced, register-IsSafe,
  turn_away-IsSynced, unregister-IsSafe, write-Keeps, deliver-Keeps, end_run-Keeps,
  after_unregister-Keeps, early-not_member, new_poll_hub-IsSafe,
}

module _ {M : Type 0} where
  greet-IsSynced :
      (k : Bool) (m : M) (x : Client M) → IsSynced k x → has_room x ≡ true → IsSynced k (send m x)
  greet-IsSynced k m x s e = record {
    closed = s.closed;
    member = s.member;
    bounded = ground (arith, length-append x.buffer (m ∷ []));
  }

  launch-IsSynced :
      (k : Bool) (x : Client M)
      → IsSynced k x
      → is_registered x.phase ≡ true
      → IsSynced k (record x { phase = Phase.launched })
  launch-IsSynced k x s e = record {
    closed = rw s.closed (rw (registered_late x.phase e) refl);
    member = λ m. refl;
    bounded = s.bounded;
  }

  pub step-Keeps : (e : Event M) (h : PollHub M) → IsSafe h → Keeps (is_greet e) (step e h)
  unfolding step
  step-Keeps (Event.create c) h s =
      if-Keeps false (is_absent (h.heap c).phase) _ blocked
        (λ e.
          set-IsSafe h c new_client s
            (create-IsSynced (mem c h.clients) (h.heap c) (s.synced c) (absent_early _ e)))
        (λ e. tt)
  step-Keeps (Event.register c) h s =
      if-Keeps false (h.is_running && is_created (h.heap c).phase) _ blocked (register-IsSafe h c s)
        (λ e. tt)
  step-Keeps (Event.turn_away c) h s =
      if-Keeps false (h.is_done && is_created (h.heap c).phase) _ blocked
        (λ e.
          if-Keeps false (h.heap c).is_closed panic _
            (λ o. ground (arith, (s.synced c).closed, created_early (h.heap c).phase))
            (λ o. set-IsSafe h c _ s (
              subst (λ k. IsSynced k (record (close (h.heap c)) { phase = Phase.registered }))
                (sym (
                  early-not_member _ _ (s.synced c)
                    (created_early (h.heap c).phase (ground arith))))
                (turn_away-IsSynced (h.heap c) (
                  subst (λ k. IsSynced k (h.heap c))
                    (early-not_member _ _ (s.synced c)
                      (created_early (h.heap c).phase (ground arith)))
                    (s.synced c))))))
        (λ e. tt)
  step-Keeps (Event.greet c m) h s =
      if-Keeps true (not (is_registered (h.heap c).phase)) blocked _ (λ e. tt)
        (λ e.
          if-Keeps true (h.heap c).is_closed panic _ (λ k. refl)
            (λ k.
              if-Keeps true (has_room (h.heap c)) _ blocked
                (λ r.
                  set-IsSafe h c (send m (h.heap c)) s
                    (greet-IsSynced (mem c h.clients) m (h.heap c) (s.synced c) r))
                (λ r. tt)))
  step-Keeps (Event.launch c) h s =
      if-Keeps false (is_registered (h.heap c).phase) _ blocked
        (λ e. set-IsSafe h c _ s (launch-IsSynced (mem c h.clients) (h.heap c) (s.synced c) e))
        (λ e. tt)
  step-Keeps (Event.unregister c) h s =
      if-Keeps false (not h.is_running || not (is_launched (h.heap c).phase)) blocked _ (λ e. tt)
        (λ e.
          if-Keeps false (not (mem c h.clients)) (after_unregister h) _
            (λ k. after_unregister-Keeps false h s)
            (λ k.
              if-Keeps false (h.heap c).is_closed panic _ (λ o. ground (arith, (s.synced c).closed))
                (λ o. after_unregister-Keeps false _ (unregister-IsSafe h c s (ground arith)))))
  step-Keeps (Event.write c) h s =
      if-Keeps false (is_launched (h.heap c).phase) (write_first h c (h.heap c).buffer) blocked
        (λ e. write-Keeps false h c (h.heap c).buffer s refl) (λ e. tt)
  step-Keeps (Event.publish m) h s =
      if-Keeps false (ltb (length h.broadcast) broadcast_size) _ blocked
        (λ e. record {
          synced = s.synced;
          queue = ground (arith, length-append h.broadcast (m ∷ []));
          ended = s.ended;
        })
        (λ e. tt)
  step-Keeps Event.deliver h s =
      if-Keeps false h.is_running (deliver_first h h.broadcast) blocked
        (λ r. deliver-Keeps false h h.broadcast s refl r) (λ e. tt)
  step-Keeps Event.stop h s = record {
    synced = s.synced;
    queue = s.queue;
    ended = λ r. ((s.ended r).0, refl);
  }
  step-Keeps Event.finish h s =
      if-Keeps false (h.is_running && h.is_done) (end_run h) blocked (λ e. end_run-Keeps false h s)
        (λ e. tt)

  pub then_run-next :
      (f : PollHub M → Outcome M) (o : Outcome M) (g : PollHub M)
      → then_run f o ≡ next g
      → (h : PollHub M) × (o ≡ next h) × (f h ≡ next g)
  then_run-next f (next h) g e = (h, refl, e)
  then_run-next f blocked g e = cc
  then_run-next f panic g e = cc

  pub run-IsSafe : (es : List (Event M)) (h g : PollHub M) → IsSafe h → run es h ≡ next g → IsSafe g
  unfolding run
  run-IsSafe [] h g s e = subst (Keeps false) e s
  run-IsSafe (e ∷ es) h g s r =
      let (k, now, later) = then_run-next (run es) (step e h) g r in
      run-IsSafe es k g (subst (Keeps (is_greet e)) now (step-Keeps e h s)) later

  pub reached-IsSafe :
      (es : List (Event M)) (h : PollHub M) → run es new_poll_hub ≡ next h → IsSafe h
  reached-IsSafe es h r = run-IsSafe es new_poll_hub h new_poll_hub-IsSafe r

  -- Whatever the hub and its clients have done since the hub was made, no step of theirs but a send
  -- of `ServeWS` itself panics: nothing else sends on a closed channel or closes it again.
  pub hub_never_panics :
      (es : List (Event M)) (e : Event M) (h : PollHub M)
      → run es new_poll_hub ≡ next h
      → is_greet e ≡ false
      → step e h ≢ panic
  hub_never_panics es e h r k p =
      ground (arith, k, subst (Keeps (is_greet e)) p (step-Keeps e h (reached-IsSafe es h r)))

  -- Whatever the hub and its clients have done since the hub was made, no client has more messages
  -- waiting than its channel holds, and the hub has no more updates waiting than its queue holds.
  pub buffers_bounded :
      (es : List (Event M)) (h : PollHub M) (c : ℕ)
      → run es new_poll_hub ≡ next h
      → (length (h.heap c).buffer ≤ send_buffer_size) × (length h.broadcast ≤ broadcast_size)
  buffers_bounded es h c r = let s = reached-IsSafe es h r in ((s.synced c).bounded, s.queue)

  -- Whatever the hub and its clients have done since the hub was made: once its loop has ended, the
  -- channel of every client past `hub.Register` is closed, so that its write pump ends.
  pub ended_hub_closes :
      (es : List (Event M)) (h : PollHub M) (c : ℕ)
      → run es new_poll_hub ≡ next h
      → h.is_running ≡ false
      → is_early (h.heap c).phase ≡ false
      → (h.heap c).is_closed ≡ true
  ended_hub_closes es h c r e late =
      let s = reached-IsSafe es h r in (s.synced c).closed ∙ rw late (rw (s.ended e).0 refl)
