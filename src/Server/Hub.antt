-- ===== src/Server/Hub.antt =====
-- backend/internal/websocket/hub.go, client.go, and the end of `ServeWS` in handler.go: the hub of a
-- poll, its clients and their channels, as one step for each event that the goroutines can
-- interleave. The goroutines of a client are its phase; the loop of `Run` takes one case of its
-- `select` at a time. The subscription to Redis and the logging are left out.
mod Members
mod Outcomes
mod Safety
mod Stream
mod Manager
mod Page
mod Gap
mod PageTests
mod Tests
mod Joining
use pulsepoll_hcl_guvi.Prelude.{
  ℕ, Bool, true, false, not, ◌&&◌, ◌||◌, List, [], ◌∷◌, ◌++◌, ltb, nat_eq, length, if◌then◌else◌,
}

-- `sendBufferSize`
abbrev pub send_buffer_size : ℕ
send_buffer_size = 256

-- the capacity of the channel `broadcast`
abbrev pub broadcast_size : ℕ
broadcast_size = 256

-- How far `ServeWS` is with a client: not yet there, made by `NewClient`, past `hub.Register`, or
-- with its pumps launched.
pub data Phase : Type 0 where
  absent created registered launched : Phase

abbrev pub is_absent : Phase → Bool
is_absent absent = true
is_absent _ = false

abbrev pub is_created : Phase → Bool
is_created created = true
is_created _ = false

abbrev pub is_registered : Phase → Bool
is_registered registered = true
is_registered _ = false

abbrev pub is_launched : Phase → Bool
is_launched launched = true
is_launched _ = false

-- `Client`: its channel `send` is a buffer that may be closed; `written` is what the write pump has
-- taken from it.
pub record Client (M : Type 0) : Type 0 where
  pub phase : Phase
  pub buffer : List M
  pub is_closed : Bool
  pub written : List M

-- what a client has been sent, in order
abbrev pub received : {M : Type 0} → Client M → List M
received c = c.written ++ c.buffer

-- `PollHub` with the clients that hold it; a client is named by a number, as a pointer.
pub record PollHub (M : Type 0) : Type 0 where
  pub heap : ℕ → Client M
  pub clients : List ℕ
  pub broadcast : List M
  pub is_done : Bool
  pub is_running : Bool

pub data Event (M : Type 0) : Type 0 where
  create register turn_away launch unregister write : ℕ → Event M
  greet : ℕ → M → Event M
  publish : M → Event M
  deliver stop finish : Event M

-- An event happens, cannot happen now, or ends the process.
pub data Outcome (M : Type 0) : Type 0 where
  next : PollHub M → Outcome M
  blocked panic : Outcome M

abbrev pub mem : ℕ → List ℕ → Bool
mem c [] = false
mem c (d ∷ ds) = nat_eq d c || mem c ds

abbrev pub insert : ℕ → List ℕ → List ℕ
insert c cs = if mem c cs then cs else c ∷ cs

abbrev pub delete : ℕ → List ℕ → List ℕ
delete c [] = []
delete c (d ∷ ds) = if nat_eq d c then delete c ds else d ∷ delete c ds

abbrev pub is_empty : List ℕ → Bool
is_empty [] = true
is_empty (_ ∷ _) = false

module _ {M : Type 0} where
  abbrev pub update : (ℕ → Client M) → ℕ → Client M → ℕ → Client M
  update heap c x d = if nat_eq c d then x else heap d

  -- `NewClient`
  abbrev pub new_client : Client M
  new_client = record { phase = created; buffer = []; is_closed = false; written = [] }

  -- `NewPollHub`, with its `Run` started
  abbrev pub new_poll_hub : PollHub M
  new_poll_hub = record {
    heap = λ _. record { phase = absent; buffer = []; is_closed = false; written = [] };
    clients = [];
    broadcast = [];
    is_done = false;
    is_running = true;
  }

  abbrev pub has_room : Client M → Bool
  has_room x = ltb (length x.buffer) send_buffer_size

  abbrev pub send : M → Client M → Client M
  send m x = record x { buffer = x.buffer ++ (m ∷ []) }

  abbrev pub close : Client M → Client M
  close x = record x { is_closed = true }

  -- whether a channel of the clients is closed, on which the loops below would panic
  abbrev pub any_closed : (ℕ → Client M) → List ℕ → Bool
  any_closed heap [] = false
  any_closed heap (c ∷ cs) = (heap c).is_closed || any_closed heap cs

  -- the deferred part of `Run`: `Stop`, then the channels of the clients that are left
  abbrev pub end_run : PollHub M → Outcome M
  end_run h =
      if any_closed h.heap h.clients
      then panic
      else next (record {
        heap = λ c. if mem c h.clients then close (h.heap c) else h.heap c;
        clients = [];
        broadcast = h.broadcast;
        is_done = true;
        is_running = false;
      })

  -- the end of the case `unregister`
  abbrev pub after_unregister : PollHub M → Outcome M
  after_unregister h = if is_empty h.clients then end_run h else next h

  -- the loop of the case `broadcast`, for one client: the message, or the end of the channel
  abbrev pub offer : M → Client M → Client M
  offer m x = if has_room x then send m x else close x

  -- the clients that the loop leaves in the map
  abbrev pub keeping_up : (ℕ → Client M) → List ℕ → List ℕ
  keeping_up heap [] = []
  keeping_up heap (c ∷ cs) =
      if has_room (heap c) then c ∷ keeping_up heap cs else keeping_up heap cs

  -- the case `broadcast`: the loop meets each client of the map once and changes it only
  abbrev pub deliver_first : PollHub M → List M → Outcome M
  deliver_first h [] = blocked
  deliver_first h (m ∷ ms) =
      if any_closed h.heap h.clients
      then panic
      else next (record h {
        heap = λ c. if mem c h.clients then offer m (h.heap c) else h.heap c;
        clients = keeping_up h.heap h.clients;
        broadcast = ms;
      })

  -- `writePump` takes a message
  abbrev pub write_first : PollHub M → ℕ → List M → Outcome M
  write_first h c [] = blocked
  write_first h c (m ∷ ms) = next (record h {
    heap =
        update h.heap c
          (record (h.heap c) { buffer = ms; written = (h.heap c).written ++ (m ∷ []) });
  })

  unfoldable pub step : Event M → PollHub M → Outcome M
  step (create c) h =
      if is_absent (h.heap c).phase
      then next (record h { heap = update h.heap c new_client })
      else blocked
  -- `Register`, received by the loop
  step (register c) h =
      if h.is_running && is_created (h.heap c).phase
      then next (record h {
        heap = update h.heap c (record (h.heap c) { phase = registered });
        clients = insert c h.clients;
      })
      else blocked
  -- `Register` after `done`
  step (turn_away c) h =
      if h.is_done && is_created (h.heap c).phase
      then if (h.heap c).is_closed
        then panic
        else next
            (record h { heap = update h.heap c (record (close (h.heap c)) { phase = registered }) })
      else blocked
  -- `client.send <- snapshotBytes`, and the same with `closedBytes`
  step (greet c m) h =
      if not (is_registered (h.heap c).phase)
      then blocked
      else if (h.heap c).is_closed
      then panic
      else if has_room (h.heap c)
      then next (record h { heap = update h.heap c (send m (h.heap c)) })
      else blocked
  step (launch c) h =
      if is_registered (h.heap c).phase
      then next (record h { heap = update h.heap c (record (h.heap c) { phase = launched }) })
      else blocked
  -- `Unregister` by the read pump, received by the loop; after `done` it does nothing
  step (unregister c) h =
      if not h.is_running || not (is_launched (h.heap c).phase)
      then blocked
      else if not (mem c h.clients)
      then after_unregister h
      else if (h.heap c).is_closed
      then panic
      else after_unregister
          (record h { heap = update h.heap c (close (h.heap c)); clients = delete c h.clients })
  step (write c) h =
      if is_launched (h.heap c).phase then write_first h c (h.heap c).buffer else blocked
  -- `Broadcast`, which after `done` may drop the message as well
  step (publish m) h =
      if ltb (length h.broadcast) broadcast_size
      then next (record h { broadcast = h.broadcast ++ (m ∷ []) })
      else blocked
  step deliver h = if h.is_running then deliver_first h h.broadcast else blocked
  -- `Stop`, by `HubManager.Shutdown`
  step stop h = next (record h { is_done = true })
  -- the case `done` of the loop
  step finish h = if h.is_running && h.is_done then end_run h else blocked

  abbrev pub then_run : (PollHub M → Outcome M) → Outcome M → Outcome M
  then_run f (next h) = f h
  then_run f blocked = blocked
  then_run f panic = panic

  unfoldable pub run : List (Event M) → PollHub M → Outcome M
  unfolding step
  run [] h = next h
  run (e ∷ es) h = then_run (run es) (step e h)
