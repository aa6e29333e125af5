-- ===== src/Server/Hub/Stream/Closed.antt =====
-- A client that is registered stays so, and once its channel is closed it never comes back to the hub.
use pulsepoll_hcl_guvi.Prelude.{
  ℕ, ◌≡◌, refl, sym, ap, Bool, true, false, not, ◌&&◌, ◌||◌, inl, inr, subst, List, [], ◌∷◌, arith,
  ltb, length, if◌then◌else◌, Bool-cases,
}
use pulsepoll_hcl_guvi.Server.Hub.{
  is_absent, is_created, is_registered, is_launched, Client, PollHub, Event, Outcome, next, blocked,
  panic, new_client, mem, is_empty, update, has_room, close, any_closed, end_run, after_unregister,
  offer, deliver_first, write_first, step, broadcast_size, run,
}
use pulsepoll_hcl_guvi.Server.Hub.Members.{is_early, absent_early, created_early}
use pulsepoll_hcl_guvi.Server.Hub.Outcomes.{OnNext, if-OnNext, update-at}
use pulsepoll_hcl_guvi.Server.Hub.Safety.Steps.{then_run-next}

module _ {M : Type 0} (gone : Bool) where
  -- A client past `hub.Register`, with its channel closed if it is `gone`.
  pub record IsLate (x : Client M) : Type 0 where
    pub late : is_early x.phase ≡ false
    pub closed : gone ≡ true → x.is_closed ≡ true

  abbrev StaysLate : ℕ → Outcome M → Type 0
  StaysLate c = OnNext (λ h. IsLate (h.heap c))

  if-StaysLate :
      (c : ℕ) (b : Bool) (x y : Outcome M)
      → (b ≡ true → StaysLate c x)
      → (b ≡ false → StaysLate c y)
      → StaysLate c (if b then x else y)
  if-StaysLate c = if-OnNext (λ h. IsLate (h.heap c))

  close-IsLate : (x : Client M) → IsLate x → IsLate (close x)
  close-IsLate x v = record { late = v.late; closed = λ g. refl }

  offer-IsLate : (m : M) (x : Client M) → IsLate x → IsLate (offer m x)
  offer-IsLate m x v = elim (Bool-cases (has_room x)) [
    | inl e ↦ rw e (record { late = v.late; closed = v.closed })
    | inr e ↦ rw e (close-IsLate x v)
  ]

  end_run-IsLate : (c : ℕ) (h : PollHub M) → IsLate (h.heap c) → StaysLate c (end_run h)
  end_run-IsLate c h v =
      if-StaysLate c (any_closed h.heap h.clients) panic _ (λ e. tt)
        (λ e. elim (Bool-cases (mem c h.clients)) [
          | inl k ↦ rw k (close-IsLate (h.heap c) v)
          | inr k ↦ rw k v
        ])

  after_unregister-IsLate :
      (c : ℕ) (h : PollHub M) → IsLate (h.heap c) → StaysLate c (after_unregister h)
  after_unregister-IsLate c h v =
      if-StaysLate c (is_empty h.clients) (end_run h) (next h) (λ e. end_run-IsLate c h v) (λ e. v)

  deliver-IsLate :
      (c : ℕ) (h : PollHub M) (ms : List M) → IsLate (h.heap c) → StaysLate c (deliver_first h ms)
  deliver-IsLate c h [] v = tt
  deliver-IsLate c h (m ∷ ms) v =
      if-StaysLate c (any_closed h.heap h.clients) panic _ (λ e. tt)
        (λ e. elim (Bool-cases (mem c h.clients)) [
          | inl k ↦ rw k (offer-IsLate m (h.heap c) v)
          | inr k ↦ rw k v
        ])

  write-IsLate :
      (c d : ℕ) (h : PollHub M) (ms : List M) → IsLate (h.heap c) → StaysLate c (write_first h d ms)
  write-IsLate c d h [] v = tt
  write-IsLate c d h (m ∷ ms) v =
      update-at IsLate h.heap c d _
        (λ e.
          let w = subst (λ i. IsLate (h.heap i)) (sym e) v in
          record { late = w.late; closed = w.closed })
        v

  -- a client that is not registered yet is another one
  other-IsLate :
      (c d : ℕ) (h : PollHub M) (x : Client M)
      → is_early (h.heap d).phase ≡ true
      → IsLate (h.heap c)
      → IsLate (update h.heap d x c)
  other-IsLate c d h x e v =
      update-at IsLate h.heap c d x
        (λ k. absurd (ground (arith, e, v.late, ap (λ i. is_early (h.heap i).phase) k))) v

  pub step-IsLate :
      (c : ℕ) (e : Event M) (h : PollHub M) → IsLate (h.heap c) → StaysLate c (step e h)
  unfolding step
  step-IsLate c (Event.create d) h v =
      if-StaysLate c (is_absent (h.heap d).phase) _ blocked
        (λ e. other-IsLate c d h new_client (absent_early (h.heap d).phase e) v) (λ e. tt)
  step-IsLate c (Event.register d) h v =
      if-StaysLate c (h.is_running && is_created (h.heap d).phase) _ blocked
        (λ e. other-IsLate c d h _ (created_early (h.heap d).phase (ground arith)) v) (λ e. tt)
  step-IsLate c (Event.turn_away d) h v =
      if-StaysLate c (h.is_done && is_created (h.heap d).phase) _ blocked
        (λ e.
          if-StaysLate c (h.heap d).is_closed panic _ (λ o. tt)
            (λ o. other-IsLate c d h _ (created_early (h.heap d).phase (ground arith)) v))
        (λ e. tt)
  step-IsLate c (Event.greet d m) h v =
      if-StaysLate c (not (is_registered (h.heap d).phase)) blocked _ (λ e. tt)
        (λ e.
          if-StaysLate c (h.heap d).is_closed panic _ (λ k. tt)
            (λ k.
              if-StaysLate c (has_room (h.heap d)) _ blocked
                (λ r.
                  update-at IsLate h.heap c d _
                    (λ i.
                      let w = subst (λ j. IsLate (h.heap j)) (sym i) v in
                      record { late = w.late; closed = w.closed })
                    v)
                (λ r. tt)))
  step-IsLate c (Event.launch d) h v =
      if-StaysLate c (is_registered (h.heap d).phase) _ blocked
        (λ e.
          update-at IsLate h.heap c d _
            (λ i. record {
              late = refl;
              closed = (subst (λ j. IsLate (h.heap j)) (sym i) v).closed;
            })
            v)
        (λ e. tt)
  step-IsLate c (Event.unregister d) h v =
      if-StaysLate c (not h.is_running || not (is_launched (h.heap d).phase)) blocked _ (λ e. tt)
        (λ e.
          if-StaysLate c (not (mem d h.clients)) _ _ (λ k. after_unregister-IsLate c h v)
            (λ k.
              if-StaysLate c (h.heap d).is_closed panic _ (λ o. tt)
                (λ o. after_unregister-IsLate c _ (
                  update-at IsLate h.heap c d _
                    (λ i. close-IsLate (h.heap d) (subst (λ j. IsLate (h.heap j)) (sym i) v)) v))))
  step-IsLate c (Event.write d) h v =
      if-StaysLate c (is_launched (h.heap d).phase) _ blocked
        (λ e. write-IsLate c d h (h.heap d).buffer v) (λ e. tt)
  step-IsLate c (Event.publish m) h v =
      if-StaysLate c (ltb (length h.broadcast) broadcast_size) _ blocked (λ e. v) (λ e. tt)
  step-IsLate c Event.deliver h v =
      if-StaysLate c h.is_running _ blocked (λ e. deliver-IsLate c h h.broadcast v) (λ e. tt)
  step-IsLate c Event.stop h v = v
  step-IsLate c Event.finish h v =
      if-StaysLate c (h.is_running && h.is_done) _ blocked (λ e. end_run-IsLate c h v) (λ e. tt)

  pub run-IsLate :
      (c : ℕ) (es : List (Event M)) (h g : PollHub M)
      → IsLate (h.heap c)
      → run es h ≡ next g
      → IsLate (g.heap c)
  unfolding run
  run-IsLate c [] h g v r = subst (StaysLate c) r v
  run-IsLate c (e ∷ es) h g v r =
      let (k, now, later) = then_run-next (run es) (step e h) g r in
      run-IsLate c es k g (subst (StaysLate c) now (step-IsLate c e h v)) later
