-- ===== src/Socket/Tests.antt =====
-- The theorems on the hook at the events of one session.
use pulsepoll_hcl_guvi.Prelude.{ℕ, ◌+◌, ◌≡◌, refl, true, false, none, some, List, [], ◌∷◌, ◌++◌}
use pulsepoll_hcl_guvi.Results.{Payload, is_foreign}
use pulsepoll_hcl_guvi.Socket.{
  Hook, connected, reconnecting, disconnected, Frame, Event, mount, unmount, opened, received,
  closed, fire, on_vote_update, backoff, connect, on_open, on_message, on_close, schedule, cleanup,
  step, run, fresh,
}
use pulsepoll_hcl_guvi.Socket.Invariant.{Inv, fresh-Inv, run-Inv}
use pulsepoll_hcl_guvi.Socket.Messages.{IsFor, step_delivers}
use pulsepoll_hcl_guvi.Socket.Backoff.{IsOnline, losses, losses_survived}

hook_functions : Unit {0}
unfolding step run connect on_open on_message on_close schedule backoff cleanup is_foreign
hook_functions = tt

abbrev ballot : Payload
ballot = record {
  poll_id = some "p1";
  options = none;
  option_id = some "a";
  count = 1;
  total_votes = some 1;
}

abbrev ballot_frame : Frame
ballot_frame = record { kind = "vote_update"; payload = ballot }

-- Connected, lost, and lost again before the next socket opens.
abbrev trouble : List Event
trouble =
    mount true
    ∷ opened 0
    ∷ received 0 (some ballot_frame)
    ∷ closed 0 false 1006
    ∷ fire 1 true
    ∷ closed 2 false 1006
    ∷ []

abbrev online : Hook
online = (run (fresh "p1") (mount true ∷ [])).0

online-Inv : Inv online
online-Inv = run-Inv (fresh "p1") (mount true ∷ []) (fresh-Inv "p1")

hook_test :
    ((run (fresh "p1") trouble).0.status ≡ reconnecting)
    × ((run (fresh "p1") trouble).0.attempts ≡ 2)
    × ((run (fresh "p1") trouble).0.pending ≡ record { id = 3; delay = 2000 } ∷ [])
    × ((run (fresh "p1") trouble).1 ≡ on_vote_update ballot ∷ [])
    × ((run (fresh "p1") (mount true ∷ closed 0 true 1000 ∷ [])).0.status ≡ disconnected)
    × ((run (fresh "p1") (trouble ++ unmount ∷ fire 3 true ∷ [])).0.pending ≡ [])
unfolding hook_functions
hook_test = (refl, refl, refl, refl, refl, refl)

run-Inv_example : Inv (run (fresh "p1") trouble).0
run-Inv_example = run-Inv (fresh "p1") trouble (fresh-Inv "p1")

step_delivers_example :
    (i : ℕ) × (f : Frame) × (received 0 (some ballot_frame) ≡ received i (some f))
    × (online.socket ≡ some i)
    × (online.mounted ≡ true)
    × (is_foreign online.poll_id f.payload ≡ false)
    × IsFor (on_vote_update ballot) f
unfolding hook_functions
step_delivers_example =
    step_delivers online (received 0 (some ballot_frame)) (on_vote_update ballot) online-Inv refl

losses_survived_example :
    let (h, ds) = run online (losses 3 1006 0 online.next) in
    (ds ≡ [])
    × (h.attempts ≡ online.attempts + 3)
    × ((j : ℕ) × IsOnline h j
        × ((step h (opened j)).0.status ≡ connected)
        × ((step h (opened j)).0.attempts ≡ 0))
unfolding hook_functions
losses_survived_example =
    losses_survived 3 1006 0 online (record {
      inv = online-Inv;
      mounted = refl;
      has_poll = refl;
      listening = refl;
      pending = refl;
    })
