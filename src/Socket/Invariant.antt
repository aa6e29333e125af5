-- ===== src/Socket/Invariant.antt =====
-- What holds of the hook between two events: one socket and one timer at most.
use pulsepoll_hcl_guvi.Prelude.{
  ℕ, zero, suc, ◌^◌, ◌≤◌, ◌≡◌, refl, ◌⊎◌, inl, Bool, true, false, some, List, [], ◌∷◌, String,
  arith, if◌then◌else◌,
}
use pulsepoll_hcl_guvi.Socket.{
  Hook, Timer, Event, mount, unmount, change, reconnect, opened, received, failed, closed, fire,
  backoff, connect, cleanup, on_close, step, run, fresh, member, without, clear, is_pending,
}

pub record Inv (h : Hook) : Type 0 where
  pub one_socket : (h.listening ≡ []) ⊎ ((i : ℕ) × (h.socket ≡ some i) × (h.listening ≡ i ∷ []))
  pub one_timer :
      (h.pending ≡ [])
      ⊎ ((t : Timer) × (h.timer ≡ some t.id)
          × (h.pending ≡ t ∷ [])
          × (1000 ≤ t.delay)
          × (t.delay ≤ 10000))
  pub idle : (h.mounted ≡ true) ⊎ ((h.listening ≡ []) × (h.pending ≡ []))

pub pow-pos : (n : ℕ) → 1 ≤ 2 ^ n
pow-pos zero = omega arith
pow-pos (suc n) = omega (arith, pow-pos n)

pub backoff_bounds : (n : ℕ) → (1000 ≤ backoff n) × (backoff n ≤ 10000)
unfolding backoff
backoff_bounds n = omega (arith, pow-pos n)

pub unmounted-idle : (h : Hook) → Inv h → h.mounted ≡ false → (h.listening ≡ []) × (h.pending ≡ [])
unmounted-idle h v m = ground (arith, v.idle)

connect-Inv : (s : Bool) (h : Hook) → Inv h → Inv (connect s h)
unfolding connect
connect-Inv s h v = ground (arith, v.one_socket, v.one_timer, v.idle)

pub cleanup-Inv : (h : Hook) → Inv h → Inv (cleanup h)
unfolding cleanup
cleanup-Inv h v = ground arith

on_close-Inv : (h : Hook) (c : Bool) (n : ℕ) → Inv h → Inv (on_close h c n)
unfolding on_close
on_close-Inv h c n v = ground (arith, backoff_bounds h.attempts)

mounted-Inv :
    (h : Hook) (poll_id : String) → Inv h → Inv (record h { mounted = true; poll_id = poll_id })
mounted-Inv h poll_id v = ground (arith, v.one_socket, v.one_timer)

without-Inv : (h : Hook) (i : ℕ) → Inv h → Inv (record h { listening = without i h.listening })
without-Inv h i v = ground (arith, v.one_socket, v.one_timer)

clear-Inv : (h : Hook) (i : ℕ) → Inv h → Inv (record h { pending = clear (some i) h.pending })
clear-Inv h i v = ground (arith, v.one_socket, v.one_timer)

if-Inv : (b : Bool) {g h : Hook} → Inv g → Inv h → Inv (if b then g else h)
if-Inv true v w = v
if-Inv false v w = w

pub step-Inv : (h : Hook) (e : Event) → Inv h → Inv (step h e).0
unfolding step
step-Inv h (mount s) v = connect-Inv s (record h { mounted = true }) (mounted-Inv h h.poll_id v)
step-Inv h unmount v = cleanup-Inv h v
step-Inv h (change q s) v =
    connect-Inv s (record (cleanup h) { mounted = true; poll_id = q })
      (mounted-Inv (cleanup h) q (cleanup-Inv h v))
step-Inv h (reconnect s) v = connect-Inv s h v
step-Inv h (opened i) v = ground arith
step-Inv h (received i f) v = v
step-Inv h (failed i) v = v
step-Inv h (closed i c n) v =
    if-Inv (member i h.listening)
      (on_close-Inv (record h { listening = without i h.listening }) c n (without-Inv h i v)) v
step-Inv h (fire i s) v =
    let w = clear-Inv h i v in
    if-Inv (is_pending i h.pending)
      (if-Inv h.mounted (connect-Inv s (record h { pending = clear (some i) h.pending }) w) w) v

-- After any events, from a state where this holds (as it does of a new hook): at most one socket is listening, and it is the current one; at most one timer
-- is pending, it is the one that `clearTimeout` would be given, and its delay lies between one and
-- ten seconds; and an unmounted hook has neither.
pub run-Inv : (h : Hook) (es : List Event) → Inv h → Inv (run h es).0
unfolding run
run-Inv h [] v = v
run-Inv h (e ∷ es) v = run-Inv (step h e).0 es (step-Inv h e v)

pub fresh-Inv : (poll_id : String) → Inv (fresh poll_id)
fresh-Inv poll_id = record { one_socket = inl refl; one_timer = inl refl; idle = inl refl }
