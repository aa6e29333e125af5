-- ===== src/Server/Hub/Safety.antt =====
-- The channels of the clients: who closes them, and that nothing is sent on a closed one by the hub.
pub mod Steps
use pulsepoll_hcl_guvi.Prelude.{
  ℕ, ◌+◌, ◌≤◌, ◌≡◌, refl, sym, ap, ◌∙◌, Bool, true, false, not, ◌&&◌, ◌||◌, inl, inr, subst,
  Bool-cases, List, [], ◌∷◌, ◌++◌, arith, ltb, nat_eq, nat_eq_iff, length, length-append,
  if◌then◌else◌,
}
use pulsepoll_hcl_guvi.Server.Hub.Members.{
  is_early, created_early, mem-delete, mem-insert, mem-insert_other, mem-keeping_up, mem-is_empty,
}
use pulsepoll_hcl_guvi.Server.Hub.{
  send_buffer_size, broadcast_size, Phase, is_absent, is_created, is_registered, is_launched,
  Client, PollHub, Event, Outcome, next, blocked, panic, new_client, mem, delete, insert,
  registered, is_empty, update, new_poll_hub, has_room, send, close, any_closed, end_run,
  after_unregister, offer, keeping_up, deliver_first, write_first, step, then_run, run,
}

abbrev pub is_greet : {M : Type 0} → Event M → Bool
is_greet (Event.greet c m) = true
is_greet _ = false

module _ {M : Type 0} where
  any_closed-false :
      (heap : ℕ → Client M) (cs : List ℕ)
      → ((c : ℕ) → mem c cs ≡ true → (heap c).is_closed ≡ false)
      → any_closed heap cs ≡ false
  any_closed-false heap [] h = refl
  any_closed-false heap (c ∷ cs) h =
      ground (arith, h c, nat_eq_iff c c, any_closed-false heap cs (λ d m. h d (ground (arith, m))))

  -- A channel is closed exactly when its client is registered and no longer in the map, which
  -- `is_member` says, and its buffer stays within its size.
  pub record IsSynced (is_member : Bool) (x : Client M) : Type 0 where
    pub closed : x.is_closed ≡ (not (is_early x.phase) && not is_member)
    pub member : is_member ≡ true → is_early x.phase ≡ false
    pub bounded : length x.buffer ≤ send_buffer_size

  -- Every client is so, the queue stays within its size, and a hub whose loop has ended is done and
  -- has no clients.
  pub record IsSafe (h : PollHub M) : Type 0 where
    pub synced : (c : ℕ) → IsSynced (mem c h.clients) (h.heap c)
    pub queue : length h.broadcast ≤ broadcast_size
    pub ended : h.is_running ≡ false → (h.clients ≡ []) × (h.is_done ≡ true)

  -- What a step ends with is safe, and a panic only if it may be.
  abbrev pub Keeps : Bool → Outcome M → Type 0
  Keeps k (next h) = IsSafe h
  Keeps k blocked = Unit
  Keeps k panic = k ≡ true

  pub if-Keeps :
      (k b : Bool) (x y : Outcome M)
      → (b ≡ true → Keeps k x)
      → (b ≡ false → Keeps k y)
      → Keeps k (if b then x else y)
  if-Keeps k true x y h g = h refl
  if-Keeps k false x y h g = g refl

  pub new_poll_hub-IsSafe : IsSafe new_poll_hub
  new_poll_hub-IsSafe = record {
    synced = λ c. record { closed = refl; member = λ m. cc; bounded = omega arith };
    queue = omega arith;
    ended = λ h. cc;
  }

  update-cases :
      (P : ℕ → Client M → Type 0) (heap : ℕ → Client M) (c : ℕ) (x : Client M)
      → P c x
      → ((d : ℕ) → nat_eq c d ≡ false → P d (heap d))
      → (d : ℕ) → P d (update heap c x d)
  update-cases P heap c x h g d = elim (Bool-cases (nat_eq c d)) [
    | inl e ↦ rw e (subst (λ n. P n x) ((nat_eq_iff c d).0 e) h)
    | inr e ↦ rw e (g d e)
  ]

  -- the change of one client, and of its place in the map
  update-IsSafe :
      (h : PollHub M) (c : ℕ) (x : Client M) (cs : List ℕ)
      → IsSafe h
      → IsSynced (mem c cs) x
      → ((d : ℕ) → nat_eq c d ≡ false → mem d cs ≡ mem d h.clients)
      → (h.is_running ≡ false → cs ≡ [])
      → IsSafe (record h { heap = update h.heap c x; clients = cs })
  update-IsSafe h c x cs s synced others ended = record {
    synced =
        update-cases (λ d. IsSynced (mem d cs)) h.heap c x synced
          (λ d e. subst (λ k. IsSynced k (h.heap d)) (sym (others d e)) (s.synced d));
    queue = s.queue;
    ended = λ r. (ended r, (s.ended r).1);
  }

  pub members_are_not_closed : (h : PollHub M) → IsSafe h → any_closed h.heap h.clients ≡ false
  members_are_not_closed h s =
      any_closed-false h.heap h.clients (λ c m. rw (s.synced c).closed (rw m (ground arith)))

  close-IsSynced :
      (k : Bool) (x : Client M) → IsSynced k x → is_early x.phase ≡ false → IsSynced false (close x)
  close-IsSynced k x s e = record { closed = ground arith; member = λ m. cc; bounded = s.bounded }

  offer-IsSynced : (m : M) (x : Client M) → IsSynced true x → IsSynced (has_room x) (offer m x)
  offer-IsSynced m x s = elim (Bool-cases (has_room x)) [
    | inl e ↦ rw e (record {
      closed = s.closed;
      member = s.member;
      bounded = ground (arith, length-append x.buffer (m ∷ []));
    })
    | inr e ↦ rw e (close-IsSynced true x s (s.member refl))
  ]

  pub end_run-Keeps : (k : Bool) (h : PollHub M) → IsSafe h → Keeps k (end_run h)
  end_run-Keeps k h s = rw (members_are_not_closed h s) (record {
    synced = λ c. elim (Bool-cases (mem c h.clients)) [
      | inl e ↦
          rw e (close-IsSynced (mem c h.clients) (h.heap c) (s.synced c) ((s.synced c).member e))
      | inr e ↦ rw e (subst (λ k. IsSynced k (h.heap c)) e (s.synced c))
    ];
    queue = s.queue;
    ended = λ r. (refl, refl);
  })

  pub after_unregister-Keeps : (k : Bool) (h : PollHub M) → IsSafe h → Keeps k (after_unregister h)
  after_unregister-Keeps k h s =
      if-Keeps k (is_empty h.clients) (end_run h) (next h) (λ e. end_run-Keeps k h s) (λ e. s)

  pub deliver-Keeps :
      (k : Bool) (h : PollHub M) (ms : List M)
      → IsSafe h
      → h.broadcast ≡ ms
      → h.is_running ≡ true
      → Keeps k (deliver_first h ms)
  deliver-Keeps k h [] s b r = tt
  deliver-Keeps k h (m ∷ ms) s b r = rw (members_are_not_closed h s) (record {
    synced = λ c. rw (mem-keeping_up h.heap c h.clients) (elim (Bool-cases (mem c h.clients)) [
      | inl e ↦
          rw e (offer-IsSynced m (h.heap c) (subst (λ k. IsSynced k (h.heap c)) e (s.synced c)))
      | inr e ↦ rw e (subst (λ k. IsSynced k (h.heap c)) e (s.synced c))
    ]);
    queue = omega (arith, s.queue, ap length b);
    ended = λ e. cc;
  })

  pub early-not_member :
      (k : Bool) (x : Client M) → IsSynced k x → is_early x.phase ≡ true → k ≡ false
  early-not_member k x s e = ground (arith, s.member)

  pub set-IsSafe :
      (h : PollHub M) (c : ℕ) (x : Client M)
      → IsSafe h
      → IsSynced (mem c h.clients) x
      → IsSafe (record h { heap = update h.heap c x })
  set-IsSafe h c x s synced =
      update-IsSafe h c x h.clients s synced (λ d n. refl) (λ r. (s.ended r).0)

  pub create-IsSynced :
      (k : Bool) (x : Client M) → IsSynced k x → is_early x.phase ≡ true → IsSynced k new_client
  create-IsSynced k x s e = record {
    closed = refl;
    member = λ m. ground (arith, s.member m);
    bounded = omega arith;
  }

  pub register-IsSafe :
      (h : PollHub M) (c : ℕ)
      → IsSafe h
      → (h.is_running && is_created (h.heap c).phase) ≡ true
      → IsSafe (record h {
        heap = update h.heap c (record (h.heap c) { phase = registered });
        clients = insert c h.clients;
      })
  register-IsSafe h c s e =
      update-IsSafe h c (record (h.heap c) { phase = registered }) (insert c h.clients) s
        (rw (mem-insert c h.clients) (record {
          closed = (s.synced c).closed ∙ ground (arith, created_early (h.heap c).phase);
          member = λ m. refl;
          bounded = (s.synced c).bounded;
        }))
        (λ d n. mem-insert_other c d h.clients n) (λ r. ground (arith))

  pub turn_away-IsSynced :
      (x : Client M) → IsSynced false x → IsSynced false (record (close x) { phase = registered })
  turn_away-IsSynced x s = record { closed = refl; member = λ m. cc; bounded = s.bounded }

  pub unregister-IsSafe :
      (h : PollHub M) (c : ℕ)
      → IsSafe h
      → mem c h.clients ≡ true
      → IsSafe
          (record h { heap = update h.heap c (close (h.heap c)); clients = delete c h.clients })
  unregister-IsSafe h c s m =
      update-IsSafe h c (close (h.heap c)) (delete c h.clients) s
        (rw (mem-delete c c h.clients) (
          rw ((nat_eq_iff c c).1 refl) (
            rw m (
              close-IsSynced true (h.heap c) (subst (λ k. IsSynced k (h.heap c)) m (s.synced c))
                ((s.synced c).member m)))))
        (λ d n. ground (arith, mem-delete c d h.clients)) (λ r. rw (s.ended r).0 refl)

  pub write-Keeps :
      (k : Bool) (h : PollHub M) (c : ℕ) (ms : List M)
      → IsSafe h
      → (h.heap c).buffer ≡ ms
      → Keeps k (write_first h c ms)
  write-Keeps k h c [] s e = tt
  write-Keeps k h c (m ∷ ms) s e = set-IsSafe h c _ s (record {
    closed = (s.synced c).closed;
    member = (s.synced c).member;
    bounded = omega (arith, (s.synced c).bounded, ap length e);
  })
