-- ===== src/Socket.antt =====
-- frontend/src/hooks/usePollWebSocket.js: the hook as a state machine. Sockets and timers are
-- numbered as they are created. An event comes from React (the effect and its cleanup), from the
-- page (`reconnect`), from a socket, or from a timer; the flag of an event that calls `connect`
-- says whether `new WebSocket` succeeds. The logging is left out.
mod Invariant
mod Messages
mod Backoff
mod Tests
use pulsepoll_hcl_guvi.Prelude.{
  ℕ, zero, suc, ◌+◌, ◌*◌, ◌^◌, min, String, Bool, true, false, not, ◌&&◌, ◌||◌, Option, none, some,
  List, [], ◌∷◌, keep_if, nat_eq, if◌then◌else◌, ◌==◌,
}
use pulsepoll_hcl_guvi.Text.{truthy}
use pulsepoll_hcl_guvi.Results.{Payload, is_foreign}

pub data Status : Type 0 where
  connecting connected reconnecting disconnected : Status

-- A pending `setTimeout`.
pub record Timer : Type 0 where
  pub id : ℕ
  pub delay : ℕ

-- `socket` and `timer` are `wsRef` and `reconnectTimerRef`. `listening` holds the sockets whose
-- handlers are set and that have not closed; `pending` holds the timers that have neither fired
-- nor been cleared.
pub record Hook : Type 0 where
  pub poll_id : String
  pub status : Status
  pub attempts : ℕ
  pub mounted : Bool
  pub socket : Option ℕ
  pub timer : Option ℕ
  pub listening : List ℕ
  pub pending : List Timer
  pub next : ℕ

-- A parsed message.
pub record Frame : Type 0 where
  pub kind : String
  pub payload : Payload

-- The frame of `received` is `none` where the data is empty or cannot be parsed.
pub data Event : Type 0 where
  mount : Bool → Event
  unmount : Event
  change : String → Bool → Event
  reconnect : Bool → Event
  opened : ℕ → Event
  received : ℕ → Option Frame → Event
  failed : ℕ → Event
  closed : ℕ → (was_clean : Bool) → (close_code : ℕ) → Event
  fire : ℕ → Bool → Event

-- A call of `onSnapshot`, `onVoteUpdate` or `onPollClosed`.
pub data Delivery : Type 0 where
  on_snapshot on_vote_update on_poll_closed : Payload → Delivery

abbrev pub member : ℕ → List ℕ → Bool
member i [] = false
member i (j ∷ js) = nat_eq i j || member i js

abbrev pub without : ℕ → List ℕ → List ℕ
without i = keep_if (λ j. not (nat_eq i j))

-- `clearTimeout`
abbrev pub clear : Option ℕ → List Timer → List Timer
clear none ts = ts
clear (some i) ts = keep_if (λ t. not (nat_eq i t.id)) ts

abbrev pub is_pending : ℕ → List Timer → Bool
is_pending i [] = false
is_pending i (t ∷ ts) = nat_eq i t.id || is_pending i ts

-- the handlers of `wsRef.current` are removed, and it is closed
abbrev detach : Option ℕ → Hook → Hook
detach none h = h
detach (some i) h = record h { listening = without i h.listening; socket = none }

abbrev again : Status → Status
again connected = reconnecting
again _ = connecting

-- the `try` of `connect`
abbrev open_socket : Bool → Hook → Hook
open_socket true h = record h {
  socket = some h.next;
  listening = h.next ∷ h.listening;
  next = h.next + 1;
}
open_socket false h = record h { status = disconnected }

pub connect : Bool → Hook → Hook
connect succeeds h =
    let d = detach h.socket h in
    if not (truthy h.poll_id) || not h.mounted
    then h
    else open_socket succeeds (record d { status = again d.status })

-- `ws.onopen`, which is set on every socket, the replaced ones included
on_open : Hook → Hook
on_open h = if not h.mounted then h else record h { status = connected; attempts = 0 }

abbrev dispatch : String → Payload → Option Delivery
dispatch kind p =
    if kind == "results_snapshot"
    then some (on_snapshot p)
    else if kind == "vote_update"
    then some (on_vote_update p)
    else if kind == "poll_closed"
    then some (on_poll_closed p)
    else none

-- `ws.onmessage`
on_message : Hook → Option Frame → Option Delivery
on_message h none = none
on_message h (some f) =
    if not h.mounted
    then none
    else if is_foreign h.poll_id f.payload
    then none
    else dispatch f.kind f.payload

-- the delay in milliseconds after `attempts` earlier attempts
unfoldable pub backoff : ℕ → ℕ
backoff attempts = min (1000 * 2 ^ attempts) 10000

-- the updater that `ws.onclose` gives to `setReconnectAttempts`
pub schedule : Hook → Hook
schedule h = record h {
  attempts = h.attempts + 1;
  pending = record { id = h.next; delay = backoff h.attempts } ∷ clear h.timer h.pending;
  timer = some h.next;
  next = h.next + 1;
}

-- `ws.onclose`
on_close : Hook → Bool → ℕ → Hook
unfolding schedule
on_close h was_clean close_code =
    if not h.mounted
    then h
    else if was_clean && nat_eq close_code 1000
    then record h { status = disconnected }
    else schedule (record h { status = reconnecting })

-- the cleanup of the effect
pub cleanup : Hook → Hook
cleanup h =
    let d = detach h.socket h in record d { mounted = false; pending = clear h.timer h.pending }

-- What one event does. A socket that is not listening gives only `opened`, a timer that is not
-- pending does not fire.
pub step : Hook → Event → Hook × Option Delivery
unfolding connect on_open on_message on_close cleanup
step h (mount succeeds) = (connect succeeds (record h { mounted = true }), none)
step h unmount = (cleanup h, none)
step h (change poll_id succeeds) =
    (connect succeeds (record (cleanup h) { mounted = true; poll_id = poll_id }), none)
step h (reconnect succeeds) = (connect succeeds h, none)
step h (opened i) = (on_open h, none)
step h (received i f) = (h, if member i h.listening then on_message h f else none)
step h (failed i) = (h, none)
step h (closed i was_clean close_code) = (
  if member i h.listening
      then on_close (record h { listening = without i h.listening }) was_clean close_code
      else h,
  none,
)
step h (fire i succeeds) = (
  if is_pending i h.pending
      then if h.mounted
        then connect succeeds (record h { pending = clear (some i) h.pending })
        else record h { pending = clear (some i) h.pending }
      else h,
  none,
)

abbrev pub deliver : Option Delivery → List Delivery → List Delivery
deliver none ds = ds
deliver (some d) ds = d ∷ ds

pub run : Hook → List Event → Hook × List Delivery
run h [] = (h, [])
run h (e ∷ es) = let (h', d) = step h e in let (last, ds) = run h' es in (last, deliver d ds)

-- the hook before its effect has run
abbrev pub fresh : String → Hook
fresh poll_id = record {
  poll_id = poll_id;
  status = connecting;
  attempts = 0;
  mounted = true;
  socket = none;
  timer = none;
  listening = [];
  pending = [];
  next = 0;
}
