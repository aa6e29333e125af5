-- ===== src/Server/Hub/Stream/Heard.antt =====
-- What a client receives between two moments: the updates that the hub takes in the meantime.
use mathlib.Core.List.{append_assoc, append-nil}
use pulsepoll_hcl_guvi.Prelude.{
  ℕ, ◌≡◌, refl, sym, ap, ◌∙◌, Bool, true, false, not, ◌&&◌, inl, inr, subst, List, [], ◌∷◌, ◌++◌,
  arith, nat_eq, Bool-cases,
}
use pulsepoll_hcl_guvi.Server.Hub.{received, PollHub, Event, next, mem, step, run}
use pulsepoll_hcl_guvi.Server.Hub.Members.{is_early}
use pulsepoll_hcl_guvi.Server.Hub.Outcomes.{OnNext}
use pulsepoll_hcl_guvi.Server.Hub.Safety.{IsSafe, Keeps, is_greet}
use pulsepoll_hcl_guvi.Server.Hub.Safety.Steps.{then_run-next, run-IsSafe, step-Keeps}
use pulsepoll_hcl_guvi.Server.Hub.Stream.{told, hears}
use pulsepoll_hcl_guvi.Server.Hub.Stream.Queue.{delivered, taken}
use pulsepoll_hcl_guvi.Server.Hub.Stream.Runs.{run-Tracks}
use pulsepoll_hcl_guvi.Server.Hub.Stream.Closed.{IsLate, step-IsLate, run-IsLate}

module _ {M : Type 0} where
  -- no message of `ServeWS` to `c` among the events
  abbrev pub is_ungreeted : ℕ → List (Event M) → Bool
  is_ungreeted c [] = true
  is_ungreeted c (Event.greet d m ∷ es) = not (nat_eq d c) && is_ungreeted c es
  is_ungreeted c (_ ∷ es) = is_ungreeted c es

  -- a client at the end of a run, past `Register` at its start, is one at the start
  stayed :
      (c : ℕ) (es : List (Event M)) (h g : PollHub M)
      → IsSafe h
      → IsSafe g
      → is_early (h.heap c).phase ≡ false
      → run es h ≡ next g
      → mem c g.clients ≡ true
      → mem c h.clients ≡ true
  stayed c es h g s t late r m = elim (Bool-cases (mem c h.clients)) [
    | inl e ↦ e
    | inr e ↦
        let gone =
          run-IsLate true c es h g
            (record { late = late; closed = λ k. (s.synced c).closed ∙ rw late (rw e refl) }) r in
        absurd (ground (arith, gone.closed refl, (t.synced c).closed, m))
  ]

  hears-taken :
      (c : ℕ) (e : Event M) (h : PollHub M) (ms : List M)
      → is_ungreeted c (e ∷ []) ≡ true
      → mem c h.clients ≡ true
      → hears c e h ms ≡ ms ++ taken e h
  hears-taken c (Event.greet d m) h ms u k = ground (arith, u, append-nil ms)
  hears-taken c Event.deliver h ms u k = rw k refl
  hears-taken c (Event.create d) h ms u k = sym (append-nil ms)
  hears-taken c (Event.register d) h ms u k = sym (append-nil ms)
  hears-taken c (Event.turn_away d) h ms u k = sym (append-nil ms)
  hears-taken c (Event.launch d) h ms u k = sym (append-nil ms)
  hears-taken c (Event.unregister d) h ms u k = sym (append-nil ms)
  hears-taken c (Event.write d) h ms u k = sym (append-nil ms)
  hears-taken c (Event.publish m) h ms u k = sym (append-nil ms)
  hears-taken c Event.stop h ms u k = sym (append-nil ms)
  hears-taken c Event.finish h ms u k = sym (append-nil ms)

  ungreeted-cons :
      (c : ℕ) (e : Event M) (es : List (Event M))
      → is_ungreeted c (e ∷ es) ≡ true
      → (is_ungreeted c (e ∷ []) ≡ true) × (is_ungreeted c es ≡ true)
  ungreeted-cons c (Event.greet d m) es u = ground (arith, u)
  ungreeted-cons c Event.deliver es u = (refl, u)
  ungreeted-cons c (Event.create d) es u = (refl, u)
  ungreeted-cons c (Event.register d) es u = (refl, u)
  ungreeted-cons c (Event.turn_away d) es u = (refl, u)
  ungreeted-cons c (Event.launch d) es u = (refl, u)
  ungreeted-cons c (Event.unregister d) es u = (refl, u)
  ungreeted-cons c (Event.write d) es u = (refl, u)
  ungreeted-cons c (Event.publish m) es u = (refl, u)
  ungreeted-cons c Event.stop es u = (refl, u)
  ungreeted-cons c Event.finish es u = (refl, u)

  told-delivered :
      (c : ℕ) (es : List (Event M)) (h g : PollHub M) (ms : List M)
      → IsSafe h
      → IsSafe g
      → is_early (h.heap c).phase ≡ false
      → run es h ≡ next g
      → mem c g.clients ≡ true
      → is_ungreeted c es ≡ true
      → told c es h ms ≡ ms ++ delivered es h
  unfolding run told delivered
  told-delivered c [] h g ms s t late r m u = sym (append-nil ms)
  told-delivered c (e ∷ es) h g ms s t late r m u =
      let (k, now, later) = then_run-next (run es) (step e h) g r in
      let (one, rest) = ungreeted-cons c e es u in
      let held = stayed c (e ∷ es) h g s t late r m in
      let safe = subst (Keeps (is_greet e)) now (step-Keeps e h s) in
      let still =
        subst (OnNext (λ x. IsLate false (x.heap c))) now
          (step-IsLate false c e h (record { late = late; closed = λ f. cc })) in
      rw now (
        told-delivered c es k g (hears c e h ms) safe t still.late later m rest
        ∙ ap (λ l. l ++ delivered es k) (hears-taken c e h ms one held)
        ∙ append_assoc ms (taken e h) (delivered es k))

  -- what a client receives during a run in which `ServeWS` sends it nothing
  pub heard :
      (c : ℕ) (es : List (Event M)) (h g : PollHub M)
      → IsSafe h
      → is_early (h.heap c).phase ≡ false
      → run es h ≡ next g
      → mem c g.clients ≡ true
      → is_ungreeted c es ≡ true
      → received (g.heap c) ≡ received (h.heap c) ++ delivered es h
  heard c es h g s late r m u =
      let t = run-IsSafe es h g s r in
      let tracks =
        run-Tracks c es h g (received (h.heap c)) s
          (record { same = λ e. refl; before = λ e. absurd (ground (arith, e, late)) }) r in
      tracks.same ((t.synced c).closed ∙ rw m (ground arith))
      ∙ told-delivered c es h g (received (h.heap c)) s t late r m u
