-- ===== src/Socket/Backoff.antt =====
-- Reconnection: the delays, and that a lost connection is taken up again.
use pulsepoll_hcl_guvi.Prelude.{
  ℕ, zero, suc, ◌+◌, ◌*◌, ◌^◌, ◌≤◌, min, ◌≡◌, refl, Bool, true, false, Option, none, some, List, [],
  ◌∷◌, arith, subst, nat_eq, ◌&&◌,
}
use pulsepoll_hcl_guvi.Text.{truthy}
use pulsepoll_hcl_guvi.Socket.{
  Hook, connected, connecting, reconnecting, Timer, Event, Delivery, opened, closed, fire, backoff,
  connect, step, run, again,
}
use pulsepoll_hcl_guvi.Socket.Invariant.{Inv, step-Inv, pow-pos}

pow-ge : (n : ℕ) → 4 ≤ n → 16 ≤ 2 ^ n
pow-ge zero h = omega arith
pow-ge (suc zero) h = omega arith
pow-ge (suc (suc zero)) h = omega arith
pow-ge (suc (suc (suc zero))) h = omega arith
pow-ge (suc (suc (suc (suc n)))) h = omega (arith, pow-pos n)

-- The delay starts at one second, doubles with each attempt in a row up to ten seconds, and is ten
-- seconds from the fifth attempt on.
pub backoff-suc :
    (n : ℕ)
    → (backoff 0 ≡ 1000) × (backoff (suc n) ≡ min (2 * backoff n) 10000) × (backoff (4 + n) ≡ 10000)
unfolding backoff
backoff-suc n = (refl, omega arith, omega (arith, pow-ge (4 + n) (omega arith)))

-- What an abnormal close of the current socket leaves behind: one timer with the next delay.
abnormal_close :
    (h : Hook) (i : ℕ) (was_clean : Bool) (code : ℕ)
    → Inv h
    → h.mounted ≡ true
    → h.listening ≡ i ∷ []
    → was_clean && nat_eq code 1000 ≡ false
    → step h (closed i was_clean code) ≡ (
      record h {
        status = reconnecting;
        attempts = h.attempts + 1;
        listening = [];
        pending = record { id = h.next; delay = backoff h.attempts } ∷ [];
        timer = some h.next;
        next = h.next + 1;
      },
      none,
    )
unfolding step
abnormal_close h i c n v m l e = ground (arith, v.one_timer)

fire_timer :
    (h : Hook) (t : Timer)
    → Inv h
    → h.mounted ≡ true
    → truthy h.poll_id ≡ true
    → h.listening ≡ []
    → h.pending ≡ t ∷ []
    → step h (fire t.id true) ≡ (
      record h {
        status = again h.status;
        socket = some h.next;
        listening = h.next ∷ [];
        pending = [];
        next = h.next + 1;
      },
      none,
    )
unfolding step connect
fire_timer h t v m q l p = ground arith

-- A mounted hook of a poll, whose socket `i` is listening.
pub record IsOnline (h : Hook) (i : ℕ) : Type 0 where
  pub inv : Inv h
  pub mounted : h.mounted ≡ true
  pub has_poll : truthy h.poll_id ≡ true
  pub listening : h.listening ≡ i ∷ []
  pub pending : h.pending ≡ []

-- `k` times in a row: socket `i` is lost, and the timer `n` made then fires and opens the next.
pub losses : ℕ → (code i n : ℕ) → List Event
losses zero code i n = []
losses (suc k) code i n = closed i false code ∷ fire n true ∷ losses k code (n + 1) (n + 1 + 1)

abbrev lost : Hook → Hook
lost h = record h {
  status = reconnecting;
  attempts = h.attempts + 1;
  listening = [];
  pending = record { id = h.next; delay = backoff h.attempts } ∷ [];
  timer = some h.next;
  next = h.next + 1;
}

abbrev retried : Hook → Hook
retried h = record h {
  status = connecting;
  attempts = h.attempts + 1;
  socket = some (h.next + 1);
  listening = (h.next + 1) ∷ [];
  pending = [];
  timer = some h.next;
  next = h.next + 1 + 1;
}

lost-Inv : (h : Hook) (i code : ℕ) → IsOnline h i → Inv (lost h)
lost-Inv h i code o =
    subst (λ (r : Hook × Option Delivery). Inv r.0)
      (abnormal_close h i false code o.inv o.mounted o.listening refl)
      (step-Inv h (closed i false code) o.inv)

retry :
    (h : Hook) (i code : ℕ)
    → IsOnline h i
    → (step h (closed i false code) ≡ (lost h, none))
      × (step (lost h) (fire h.next true) ≡ (retried h, none))
retry h i code o = (
  abnormal_close h i false code o.inv o.mounted o.listening refl,
  fire_timer (lost h) (record { id = h.next; delay = backoff h.attempts }) (lost-Inv h i code o)
      o.mounted o.has_poll refl refl,
)

retried-IsOnline : (h : Hook) (i code : ℕ) → IsOnline h i → IsOnline (retried h) (h.next + 1)
retried-IsOnline h i code o = record {
  inv =
      subst (λ (r : Hook × Option Delivery). Inv r.0) (retry h i code o).1
        (step-Inv (lost h) (fire h.next true) (lost-Inv h i code o));
  mounted = o.mounted;
  has_poll = o.has_poll;
  listening = refl;
  pending = refl;
}

run-losses-suc :
    (k code i : ℕ) (h : Hook)
    → IsOnline h i
    → run h (losses (suc k) code i h.next)
      ≡ run (retried h) (losses k code (h.next + 1) (h.next + 1 + 1))
unfolding run losses
run-losses-suc k code i h o = let (closes, fires) = retry h i code o in rw closes (rw fires refl)

run_no-losses : (h : Hook) (code i : ℕ) → run h (losses 0 code i h.next) ≡ (h, [])
unfolding run losses
run_no-losses h code i = refl

opened_lem :
    (h : Hook) (j : ℕ)
    → h.mounted ≡ true
    → ((step h (opened j)).0.status ≡ connected) × ((step h (opened j)).0.attempts ≡ 0)
unfolding step
opened_lem h j m = ground arith

-- However often in a row a mounted hook loses the connection of the socket that is listening, where
-- the socket is lost uncleanly and each new one can be made: each loss is followed by a new socket, nothing is
-- delivered, the attempts are counted, and a new socket that opens makes the hook connected with
-- no attempts.
pub losses_survived :
    (k code i : ℕ) (h : Hook)
    → IsOnline h i
    → let (h', ds) = run h (losses k code i h.next) in
      (ds ≡ [])
      × (h'.attempts ≡ h.attempts + k)
      × ((j : ℕ) × IsOnline h' j
          × ((step h' (opened j)).0.status ≡ connected)
          × ((step h' (opened j)).0.attempts ≡ 0))
losses_survived zero code i h o =
    let up = opened_lem h i o.mounted in
    rw (run_no-losses h code i) (refl, omega arith, (i, o, up.0, up.1))
losses_survived (suc k) code i h o =
    let (ds, counted, up) =
      losses_survived k code (h.next + 1) (retried h) (retried-IsOnline h i code o) in
    rw (run-losses-suc k code i h o) (ds, omega arith, up)
