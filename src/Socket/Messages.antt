-- ===== src/Socket/Messages.antt =====
-- Which messages reach the page, and what an unmounted hook still does.
use pulsepoll_hcl_guvi.Prelude.{
  ℕ, ◌≡◌, refl, true, false, Option, none, some, List, [], ◌∷◌, arith, eq_iff, All, ap,
  if◌then◌else◌,
}
use pulsepoll_hcl_guvi.Results.{is_foreign}
use pulsepoll_hcl_guvi.Socket.{
  Hook, Frame, Event, mount, unmount, change, received, Delivery, on_snapshot, on_vote_update,
  on_poll_closed, member, dispatch, on_message, cleanup, step, run,
}
use pulsepoll_hcl_guvi.Socket.Invariant.{Inv, cleanup-Inv, unmounted-idle, step-Inv, run-Inv}

-- The kind of message that each callback stands for.
abbrev pub IsFor : Delivery → Frame → Type 0
IsFor (on_snapshot p) f = (f.kind ≡ "results_snapshot") × (p ≡ f.payload)
IsFor (on_vote_update p) f = (f.kind ≡ "vote_update") × (p ≡ f.payload)
IsFor (on_poll_closed p) f = (f.kind ≡ "poll_closed") × (p ≡ f.payload)

dispatch-IsFor : (f : Frame) (d : Delivery) → dispatch f.kind f.payload ≡ some d → IsFor d f
dispatch-IsFor f (on_snapshot p) h = ground (
  arith,
  eq_iff f.kind "results_snapshot",
  eq_iff f.kind "vote_update",
  eq_iff f.kind "poll_closed",
)
dispatch-IsFor f (on_vote_update p) h = ground (
  arith,
  eq_iff f.kind "results_snapshot",
  eq_iff f.kind "vote_update",
  eq_iff f.kind "poll_closed",
)
dispatch-IsFor f (on_poll_closed p) h = ground (
  arith,
  eq_iff f.kind "results_snapshot",
  eq_iff f.kind "vote_update",
  eq_iff f.kind "poll_closed",
)

on_message_sound :
    (h : Hook) (o : Option Frame) (d : Delivery)
    → on_message h o ≡ some d
    → (f : Frame) × (o ≡ some f)
      × (h.mounted ≡ true)
      × (is_foreign h.poll_id f.payload ≡ false)
      × (dispatch f.kind f.payload ≡ some d)
unfolding on_message
on_message_sound h none d e = cc
on_message_sound h (some f) d e = (f, refl, ground arith, ground arith, ground arith)

member_current : (h : Hook) (i : ℕ) → Inv h → member i h.listening ≡ true → h.socket ≡ some i
member_current h i v m = ground (arith, v.one_socket)

received_split :
    (h : Hook) (i : ℕ) (o : Option Frame) (d : Delivery)
    → (if member i h.listening then on_message h o else none) ≡ some d
    → (member i h.listening ≡ true) × (on_message h o ≡ some d)
received_split h i o d e = ground arith

-- In a state with the invariant a callback is called only at a message of the current socket, while the component is mounted,
-- for this poll, and of the kind that the callback is for.
pub step_delivers :
    (h : Hook) (e : Event) (d : Delivery)
    → Inv h
    → (step h e).1 ≡ some d
    → (i : ℕ) × (f : Frame) × (e ≡ received i (some f))
      × (h.socket ≡ some i)
      × (h.mounted ≡ true)
      × (is_foreign h.poll_id f.payload ≡ false)
      × IsFor d f
unfolding step
step_delivers h (received i o) d v e =
    let (m, e') = received_split h i o d e in
    let (f, same, mounted, own, sent) = on_message_sound h o d e' in
    (i, f, ap (received i) same, member_current h i v m, mounted, own, dispatch-IsFor f d sent)
step_delivers h _ d v e = cc

-- The events that mount the hook again.
abbrev pub IsMount : Event → Type 0
IsMount (mount _) = Unit
IsMount (change _ _) = Unit
IsMount _ = ⊥

-- The parts of the hook that the page can see, and the number of sockets and timers made.
abbrev pub SameView : Hook → Hook → Type 0
SameView h h' = (h'.status ≡ h.status) × (h'.attempts ≡ h.attempts) × (h'.next ≡ h.next)

cleanup_lem : (h : Hook) → Inv h → (cleanup h).mounted ≡ false × SameView h (cleanup h)
unfolding cleanup
cleanup_lem h v = ground arith

step_unmounted :
    (h : Hook) (e : Event)
    → Inv h
    → h.mounted ≡ false
    → ¬ IsMount e
    → ((step h e).1 ≡ none) × ((step h e).0.mounted ≡ false) × SameView h (step h e).0
unfolding step
step_unmounted h (mount s) v m n = absurd (n tt)
step_unmounted h (change q s) v m n = absurd (n tt)
step_unmounted h unmount v m n = ground (arith, cleanup_lem h v)
step_unmounted h e v m n = ground (arith, unmounted-idle h v m)

run_unmounted :
    (h : Hook) (es : List Event)
    → Inv h
    → h.mounted ≡ false
    → All (λ e. ¬ IsMount e) es
    → ((run h es).1 ≡ []) × ((run h es).0.mounted ≡ false) × SameView h (run h es).0
unfolding run
run_unmounted h [] v m _ = ground arith
run_unmounted h (e ∷ es) v m (n, ns) =
    ground (arith, step_unmounted h e v m n, run_unmounted (step h e).0 es (step-Inv h e v))

step_eq_cleanup : (h : Hook) → step h unmount ≡ (cleanup h, none)
unfolding step
step_eq_cleanup h = refl

-- From a state with the invariant: once it is unmounted, and until it is mounted again, the hook calls no callback, changes neither
-- `status` nor `reconnectAttempts`, makes no socket and no timer, and has no socket listening and
-- no timer pending.
pub unmount_quiet :
    (h : Hook) (es : List Event)
    → Inv h
    → All (λ e. ¬ IsMount e) es
    → let (h', ds) = run h (unmount ∷ es) in
      (ds ≡ []) × SameView h h' × (h'.listening ≡ []) × (h'.pending ≡ [])
unfolding run
unmount_quiet h es v ns =
    let (m, seen) = cleanup_lem h v in
    ground (
      arith,
      step_eq_cleanup h,
      run_unmounted (cleanup h) es (cleanup-Inv h v) m ns,
      unmounted-idle (run (cleanup h) es).0 (run-Inv (cleanup h) es (cleanup-Inv h v)),
    )
