-- ===== src/Server/Hub/Stream.antt =====
-- The messages of a client: what `ServeWS` and the hub have sent it since it was registered.
pub mod Queue
pub mod Closed
pub mod Runs
pub mod Heard
use mathlib.Core.List.{append_assoc, append-nil}
use pulsepoll_hcl_guvi.Prelude.{
  ℕ, ◌≡◌, refl, sym, ap, ◌∙◌, Bool, true, false, not, ◌&&◌, ◌||◌, inl, inr, subst, Bool-cases, List,
  [], ◌∷◌, ◌++◌, arith, ltb, nat_eq, nat_eq_iff, length, if◌then◌else◌,
}
use pulsepoll_hcl_guvi.Server.Hub.Outcomes.{OnNext, if-OnNext, update-at}
use pulsepoll_hcl_guvi.Server.Hub.{
  is_absent, is_created, is_registered, is_launched, Client, received, PollHub, Event, Outcome,
  next, blocked, panic, new_client, mem, is_empty, update, new_poll_hub, has_room, send, close,
  any_closed, end_run, after_unregister, offer, deliver_first, write_first, step, then_run, run,
  broadcast_size,
}
use pulsepoll_hcl_guvi.Server.Hub.Safety.{IsSafe}
use pulsepoll_hcl_guvi.Server.Hub.Safety.Steps.{then_run-next, reached-IsSafe}

module _ {M : Type 0} where
  abbrev pub first : List M → List M
  first [] = []
  first (m ∷ ms) = m ∷ []

  -- the messages of a client after an event: the hub's next update if it is a client of the hub then,
  -- and what `ServeWS` sends to it
  abbrev pub hears : ℕ → Event M → PollHub M → List M → List M
  hears c (Event.greet d m) h ms = if nat_eq d c then ms ++ (m ∷ []) else ms
  hears c Event.deliver h ms = if mem c h.clients then ms ++ first h.broadcast else ms
  hears c _ h ms = ms

  abbrev pub then_told : (PollHub M → List M) → Outcome M → List M
  then_told f (next h) = f h
  then_told f _ = []

  -- its messages after a run
  unfoldable pub told : ℕ → List (Event M) → PollHub M → List M → List M
  told c [] h ms = ms
  told c (e ∷ es) h ms = then_told (λ g. told c es g (hears c e h ms)) (step e h)

  -- A client that is not closed has received `ms`, which is nothing before `NewClient`.
  pub record Tracks (ms : List M) (x : Client M) : Type 0 where
    pub same : x.is_closed ≡ false → received x ≡ ms
    pub before : is_absent x.phase ≡ true → ms ≡ []

  abbrev pub KeepsTrack : ℕ → List M → Outcome M → Type 0
  KeepsTrack c ms = OnNext (λ h. Tracks ms (h.heap c))

  pub if-KeepsTrack :
      (c : ℕ) (ms : List M) (b : Bool) (x y : Outcome M)
      → (b ≡ true → KeepsTrack c ms x)
      → (b ≡ false → KeepsTrack c ms y)
      → KeepsTrack c ms (if b then x else y)
  if-KeepsTrack c ms = if-OnNext (λ h. Tracks ms (h.heap c))

  pub update-Tracks :
      (heap : ℕ → Client M) (c d : ℕ) (x : Client M) (ms : List M)
      → (d ≡ c → Tracks ms x)
      → Tracks ms (heap c)
      → Tracks ms (update heap d x c)
  update-Tracks heap c d x ms = update-at (Tracks ms) heap c d x

  pub close-Tracks : (ms : List M) (x : Client M) → Tracks ms x → Tracks ms (close x)
  close-Tracks ms x t = record { same = λ e. cc; before = t.before }

  send-Tracks :
      (m : M) (ms : List M) (x : Client M)
      → is_absent x.phase ≡ false
      → Tracks ms x
      → Tracks (ms ++ (m ∷ [])) (send m x)
  send-Tracks m ms x a t = record {
    same = λ e. sym (append_assoc x.written x.buffer (m ∷ [])) ∙ ap (λ l. l ++ (m ∷ [])) (t.same e);
    before = λ b. absurd (ground (arith, a, b));
  }

  write-Tracks :
      (m : M) (ms ns : List M) (x : Client M)
      → x.buffer ≡ m ∷ ms
      → Tracks ns x
      → Tracks ns (record x { buffer = ms; written = x.written ++ (m ∷ []) })
  write-Tracks m ms ns x e t = record {
    same = λ k. append_assoc x.written (m ∷ []) ms ∙ ap (λ l. x.written ++ l) (sym e) ∙ t.same k;
    before = t.before;
  }

  pub end_run-Tracks :
      (c : ℕ) (ms : List M) (h : PollHub M) → Tracks ms (h.heap c) → KeepsTrack c ms (end_run h)
  end_run-Tracks c ms h t =
      if-KeepsTrack c ms (any_closed h.heap h.clients) panic _ (λ e. tt)
        (λ e. elim (Bool-cases (mem c h.clients)) [
          | inl k ↦ rw k (close-Tracks ms (h.heap c) t)
          | inr k ↦ rw k t
        ])

  pub after_unregister-Tracks :
      (c : ℕ) (ms : List M) (h : PollHub M)
      → Tracks ms (h.heap c)
      → KeepsTrack c ms (after_unregister h)
  after_unregister-Tracks c ms h t =
      if-KeepsTrack c ms (is_empty h.clients) (end_run h) (next h) (λ e. end_run-Tracks c ms h t)
        (λ e. t)

  offer-Tracks :
      (m : M) (ms : List M) (x : Client M)
      → is_absent x.phase ≡ false
      → Tracks ms x
      → Tracks (ms ++ (m ∷ [])) (offer m x)
  offer-Tracks m ms x a t = elim (Bool-cases (has_room x)) [
    | inl e ↦ rw e (send-Tracks m ms x a t)
    | inr e ↦ rw e (record { same = λ k. cc; before = λ b. absurd (ground (arith, a, b)) })
  ]

  pub deliver-Tracks :
      (c : ℕ) (ms ns : List M) (h : PollHub M)
      → (mem c h.clients ≡ true → is_absent (h.heap c).phase ≡ false)
      → Tracks ms (h.heap c)
      → KeepsTrack c (if mem c h.clients then ms ++ first ns else ms) (deliver_first h ns)
  deliver-Tracks c ms [] h a t = tt
  deliver-Tracks c ms (n ∷ ns) h a t =
      if-KeepsTrack c _ (any_closed h.heap h.clients) panic _ (λ e. tt)
        (λ e. elim (Bool-cases (mem c h.clients)) [
          | inl k ↦ rw k (offer-Tracks n ms (h.heap c) (a k) t)
          | inr k ↦ rw k t
        ])

  pub write_first-Tracks :
      (c d : ℕ) (ms ns : List M) (h : PollHub M)
      → (h.heap d).buffer ≡ ns
      → Tracks ms (h.heap c)
      → KeepsTrack c ms (write_first h d ns)
  write_first-Tracks c d ms [] h e t = tt
  write_first-Tracks c d ms (n ∷ ns) h e t =
      update-Tracks h.heap c d _ ms
        (λ k. write-Tracks n ns ms (h.heap d) e (subst (λ i. Tracks ms (h.heap i)) (sym k) t)) t

  pub greet-Tracks :
      (heap : ℕ → Client M) (c d : ℕ) (m : M) (ms : List M)
      → is_absent (heap d).phase ≡ false
      → Tracks ms (heap c)
      → Tracks (if nat_eq d c then ms ++ (m ∷ []) else ms) (update heap d (send m (heap d)) c)
  greet-Tracks heap c d m ms a t = elim (Bool-cases (nat_eq d c)) [
    | inl e ↦ rw e (
        send-Tracks m ms (heap d) a
          (subst (λ i. Tracks ms (heap i)) (sym ((nat_eq_iff d c).0 e)) t))
    | inr e ↦ rw e t
  ]
