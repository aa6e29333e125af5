-- ===== src/Server/Hub/Stream/Queue.antt =====
-- The queue `broadcast` of a hub: the updates leave it in the order in which they enter it.
use mathlib.Core.List.{append_assoc, append-nil}
use pulsepoll_hcl_guvi.Prelude.{
  ℕ, ◌≡◌, refl, sym, ap, ◌∙◌, Bool, not, ◌&&◌, ◌||◌, subst, List, [], ◌∷◌, ◌++◌, ltb, length,
  if◌then◌else◌,
}
use pulsepoll_hcl_guvi.Server.Hub.Outcomes.{OnNext, if-OnNext}
use pulsepoll_hcl_guvi.Server.Hub.{
  is_absent, is_created, is_registered, is_launched, PollHub, Event, Outcome, next, blocked, panic,
  mem, has_room, deliver_first, step, any_closed, end_run, after_unregister, is_empty, write_first,
  run, broadcast_size,
}
use pulsepoll_hcl_guvi.Server.Hub.Safety.Steps.{then_run-next}
use pulsepoll_hcl_guvi.Server.Hub.Stream.{first, then_told}

module _ {M : Type 0} where
  -- what an event puts into the queue, and what it takes from it
  abbrev put : Event M → List M
  put (Event.publish m) = m ∷ []
  put _ = []

  abbrev pub taken : Event M → PollHub M → List M
  taken Event.deliver h = first h.broadcast
  taken _ h = []

  -- what is published in a run, and what of it the hub's loop takes, in order
  unfoldable pub published : List (Event M) → List M
  published [] = []
  published (e ∷ es) = put e ++ published es

  unfoldable pub delivered : List (Event M) → PollHub M → List M
  delivered [] h = []
  delivered (e ∷ es) h = taken e h ++ then_told (delivered es) (step e h)

  abbrev KeepsOrder : (before entered left : List M) → Outcome M → Type 0
  KeepsOrder before entered left = OnNext (λ h. left ++ h.broadcast ≡ before ++ entered)

  if-KeepsOrder :
      (xs ys zs : List M) (b : Bool) (x y : Outcome M)
      → KeepsOrder xs ys zs x
      → KeepsOrder xs ys zs y
      → KeepsOrder xs ys zs (if b then x else y)
  if-KeepsOrder xs ys zs b x y h g =
      if-OnNext (λ h. zs ++ h.broadcast ≡ xs ++ ys) b x y (λ e. h) (λ e. g)

  same-KeepsOrder : (xs : List M) → xs ≡ xs ++ []
  same-KeepsOrder xs = sym (append-nil xs)

  end_run-KeepsOrder : (h : PollHub M) → KeepsOrder h.broadcast [] [] (end_run h)
  end_run-KeepsOrder h =
      if-KeepsOrder h.broadcast [] [] (any_closed h.heap h.clients) panic _ tt
        (same-KeepsOrder h.broadcast)

  after_unregister-KeepsOrder : (h : PollHub M) → KeepsOrder h.broadcast [] [] (after_unregister h)
  after_unregister-KeepsOrder h =
      if-KeepsOrder h.broadcast [] [] (is_empty h.clients) (end_run h) (next h)
        (end_run-KeepsOrder h) (same-KeepsOrder h.broadcast)

  write_first-KeepsOrder :
      (h : PollHub M) (c : ℕ) (ms : List M) → KeepsOrder h.broadcast [] [] (write_first h c ms)
  write_first-KeepsOrder h c [] = tt
  write_first-KeepsOrder h c (m ∷ ms) = same-KeepsOrder h.broadcast

  deliver-KeepsOrder :
      (h : PollHub M) (ms : List M) → KeepsOrder ms [] (first ms) (deliver_first h ms)
  deliver-KeepsOrder h [] = tt
  deliver-KeepsOrder h (m ∷ ms) =
      if-KeepsOrder (m ∷ ms) [] (m ∷ []) (any_closed h.heap h.clients) panic _ tt
        (same-KeepsOrder (m ∷ ms))

  step-KeepsOrder :
      (e : Event M) (h : PollHub M) → KeepsOrder h.broadcast (put e) (taken e h) (step e h)
  unfolding step
  step-KeepsOrder (Event.create c) h =
      if-KeepsOrder h.broadcast [] [] (is_absent (h.heap c).phase) _ blocked
        (same-KeepsOrder h.broadcast) tt
  step-KeepsOrder (Event.register c) h =
      if-KeepsOrder h.broadcast [] [] (h.is_running && is_created (h.heap c).phase) _ blocked
        (same-KeepsOrder h.broadcast) tt
  step-KeepsOrder (Event.turn_away c) h =
      if-KeepsOrder h.broadcast [] [] (h.is_done && is_created (h.heap c).phase) _ blocked
        (if-KeepsOrder h.broadcast [] [] (h.heap c).is_closed panic _ tt
          (same-KeepsOrder h.broadcast))
        tt
  step-KeepsOrder (Event.greet c m) h =
      if-KeepsOrder h.broadcast [] [] (not (is_registered (h.heap c).phase)) blocked _ tt (
        if-KeepsOrder h.broadcast [] [] (h.heap c).is_closed panic _ tt (
          if-KeepsOrder h.broadcast [] [] (has_room (h.heap c)) _ blocked
            (same-KeepsOrder h.broadcast) tt))
  step-KeepsOrder (Event.launch c) h =
      if-KeepsOrder h.broadcast [] [] (is_registered (h.heap c).phase) _ blocked
        (same-KeepsOrder h.broadcast) tt
  step-KeepsOrder (Event.unregister c) h =
      if-KeepsOrder h.broadcast [] [] (not h.is_running || not (is_launched (h.heap c).phase))
        blocked _ tt
        (if-KeepsOrder h.broadcast [] [] (not (mem c h.clients)) _ _ (after_unregister-KeepsOrder h)
          (if-KeepsOrder h.broadcast [] [] (h.heap c).is_closed panic _ tt
            (after_unregister-KeepsOrder _)))
  step-KeepsOrder (Event.write c) h =
      if-KeepsOrder h.broadcast [] [] (is_launched (h.heap c).phase) _ blocked
        (write_first-KeepsOrder h c (h.heap c).buffer) tt
  step-KeepsOrder (Event.publish m) h =
      if-KeepsOrder h.broadcast (m ∷ []) [] (ltb (length h.broadcast) broadcast_size) _ blocked refl
        tt
  step-KeepsOrder Event.deliver h =
      if-KeepsOrder h.broadcast [] (first h.broadcast) h.is_running _ blocked
        (deliver-KeepsOrder h h.broadcast) tt
  step-KeepsOrder Event.stop h = same-KeepsOrder h.broadcast
  step-KeepsOrder Event.finish h =
      if-KeepsOrder h.broadcast [] [] (h.is_running && h.is_done) _ blocked (end_run-KeepsOrder h)
        tt

  pub queue-KeepsOrder :
      (es : List (Event M)) (h g : PollHub M)
      → run es h ≡ next g
      → delivered es h ++ g.broadcast ≡ h.broadcast ++ published es
  unfolding run delivered published
  queue-KeepsOrder [] h g r = subst (KeepsOrder h.broadcast [] []) r (same-KeepsOrder h.broadcast)
  queue-KeepsOrder (e ∷ es) h g r =
      let (k, now, later) = then_run-next (run es) (step e h) g r in
      let moved = subst (KeepsOrder h.broadcast (put e) (taken e h)) now (step-KeepsOrder e h) in
      rw now (
        append_assoc (taken e h) (delivered es k) g.broadcast
        ∙ ap (λ l. taken e h ++ l) (queue-KeepsOrder es k g later)
        ∙ sym (append_assoc (taken e h) k.broadcast (published es))
        ∙ ap (λ l. l ++ published es) moved
        ∙ append_assoc h.broadcast (put e) (published es))

  pub run-queue :
      (es : List (Event M)) (h g : PollHub M)
      → run es h ≡ next g
      → h.broadcast ≡ []
      → delivered es h ++ g.broadcast ≡ published es
  run-queue es h g r e = queue-KeepsOrder es h g r ∙ ap (λ l. l ++ published es) e
